-- ===== src/Ring/Copy.antt =====
-- The copying loop of the resizes of lab05 and what it leaves in the new buffer.
use osi_s.Prelude.{
  ℕ, zero, suc, ◌+◌, ◌%◌, ◌<◌, ◌≤◌, ◌≡◌, refl, ap, ◌∙◌, List, get_or, set, length, ℕ_discrete,
  get_or-set_ne, get_or-set_self, length-set, length-replicate, mod-eq_of_lt, arith,
}
use osi_s.Ring.{Ring, alloc, copy_loop, resize}
use osi_s.Ring.Contents.{slots_ext, contents}

abbrev source : Ring → ℕ → ℕ
source q j = get_or q.buffer ((q.head + j) % q.capacity) 0

pub length-copy_loop :
    (n : ℕ) (q : Ring) (i : ℕ) (b : List ℕ) → length (copy_loop n q i b) ≡ length b
unfolding copy_loop
length-copy_loop zero q i b = refl
length-copy_loop (suc n) q i b =
    length-copy_loop n q (i + 1) (set b i (source q i)) ∙ length-set b i (source q i)

-- Slots before the loop's index keep their value.
copy_loop_before :
    (n : ℕ) (q : Ring) (i : ℕ) (b : List ℕ) (j : ℕ)
    → j < i
    → get_or (copy_loop n q i b) j 0 ≡ get_or b j 0
unfolding copy_loop
copy_loop_before zero q i b j h = refl
copy_loop_before (suc n) q i b j h =
    copy_loop_before n q (i + 1) (set b i (source q i)) j (omega arith)
    ∙ get_or-set_ne b i j (source q i) 0 (λ e. omega arith)

copy_loop_copies :
    (n : ℕ) (q : Ring) (i : ℕ) (b : List ℕ) (j : ℕ)
    → i + n ≤ length b
    → i ≤ j
    → j < i + n
    → get_or (copy_loop n q i b) j 0 ≡ source q j
unfolding copy_loop
copy_loop_copies zero q i b j r h k = absurd (omega arith)
copy_loop_copies (suc n) q i b j r h k = elim (ℕ_discrete i j) [
  | yes e ↦
      copy_loop_before n q (i + 1) (set b i (source q i)) j (omega arith)
      ∙ ap (λ m. get_or (set b i (source q i)) m 0) (omega arith)
      ∙ get_or-set_self b i (source q i) 0 (omega arith)
      ∙ ap (source q) e
  | no ne ↦
      copy_loop_copies n q (i + 1) (set b i (source q i)) j
        (omega (arith, length-set b i (source q i))) (omega arith) (omega arith)
]

-- A resize that has room for the messages keeps them, in order.
pub contents-resize :
    (newcap : ℕ) (q : Ring) → q.count ≤ newcap → contents (resize newcap q) ≡ contents q
unfolding resize
contents-resize newcap q h = slots_ext _ _ _ _ _ _ 0 q.count λ j a b.
    ap (λ k. get_or (copy_loop q.count q 0 (alloc newcap)) k 0) (at j b)
    ∙ copy_loop_copies q.count q 0 (alloc newcap) j (room) (omega arith) b
  where
    at : (j : ℕ) → j < 0 + q.count → (0 + j) % newcap ≡ j
    at j b = mod-eq_of_lt {n = 0 + j} {m = newcap} (omega arith) ∙ omega arith

    room : 0 + q.count ≤ length (alloc newcap)
    room = omega (arith, length-replicate {A = ℕ} newcap 0)
