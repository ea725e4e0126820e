-- ===== src/SortIndex/Phases.antt =====
-- One phase of `worker_thread` of lab06/src/sort_index.c: works on equal parts of the array, in any
-- order and possibly more than once.
pub mod Blocks
pub mod Pairs
pub mod Rounds
use osi_s.Prelude.{
  ℕ, zero, suc, ◌+◌, ◌-◌, ◌*◌, ◌≤◌, ◌<◌, ◌≡◌, ◌≢◌, refl, sym, ap, ap₂, ◌∙◌, subst, List, [], ◌∷◌,
  ◌++◌, Bool, true, false, take, drop, length, take-append-drop, Perm, arith, ◌⊎◌, inl, inr,
  ℕ_discrete, dec_lt,
}
use mathlib.Core.List.Perm
use osi_s.SortIndex.{merge_loop, store, slice, do_merge, sort_block, local_sort, merge_round}
use osi_s.SortIndex.Merge.{
  Order, IsBelow, IsSorted, merge_loop-IsSorted, merge_loop-perm, length-merge_loop,
}
use osi_s.SortIndex.Slices.{
  length-store, slice-store_before, slice-store_at, slice-store_after, store-perm, length-slice,
  slice_halves,
}

abbrev pub Among : ℕ → List ℕ → Type 0
Among k [] = ⊥
Among k (j ∷ js) = (k ≡ j) ⊎ Among k js

abbrev pub AllBelow : ℕ → List ℕ → Type 0
AllBelow n [] = Unit
AllBelow n (j ∷ js) = (j < n) × AllBelow n js

-- Equal parts do not overlap.
pub part_before : (k j w : ℕ) → k < j → k * w + w ≤ j * w
part_before k zero w h = absurd (omega arith)
part_before k (suc j) w h = elim (ℕ_discrete k j) [
  | yes e ↦ omega (arith, ap (λ i. i * w) e)
  | no ne ↦ omega (arith, part_before k j w (omega arith))
]

module _ {A : Type 0} where
  -- A work on part `j` of width `w` puts `m` there, a rearrangement of the part.
  pub record Work (w j : ℕ) (base after : List A) : Type 0 where
    pub length_same : length after ≡ length base
    pub rearranged : Perm after base
    pub others : (k : ℕ) → k ≢ j → slice (k * w) w after ≡ slice (k * w) w base

  pub store-Work :
      (w j n : ℕ) (m base : List A)
      → length base ≡ n * w
      → j < n
      → length m ≡ w
      → Perm m (slice (j * w) w base)
      → Work w j base (store (j * w) m base) × (slice (j * w) w (store (j * w) m base) ≡ m)
  store-Work w j n m base len h e p = (
    record {
      length_same = length-store (j * w) m base fits;
      rearranged = store-perm (j * w) m base (subst (λ l. Perm m (slice (j * w) l base)) (sym e) p);
      others = λ k ne. other k ne;
    },
    ap (λ l. slice (j * w) l (store (j * w) m base)) (sym e) ∙ slice-store_at (j * w) m base fits,
  )
    where
      fits : j * w + length m ≤ length base
      fits = omega (arith, part_before j n w h)

      other : (k : ℕ) → k ≢ j → slice (k * w) w (store (j * w) m base) ≡ slice (k * w) w base
      other k ne = elim (dec_lt k j) [
        | yes b ↦ slice-store_before (j * w) (k * w) w m base fits (part_before k j w b)
        | no b ↦
            slice-store_after (j * w) (k * w) w m base fits
              (omega (arith, part_before j k w (omega arith)))
      ]

module _ {A : Type 0} (leq : A → A → Bool) (o : Order leq) where
  -- The first `n` parts of width `w` are sorted.
  abbrev pub AllSorted : ℕ → ℕ → List A → Type 0
  AllSorted w n base = (k : ℕ) → k < n → IsSorted leq (slice (k * w) w base)

  module _ (qsort : List A → List A) where
    -- The state of a phase on `n` parts of width `w`: what is left of the array it began with.
    pub record Phase (w n : ℕ) (IsOk : List A → Type 0) (base after : List A) : Type 0 where
      pub same_length : length after ≡ length base
      pub perm : Perm after base
      pub ok : (k : ℕ) → k < n → IsOk (slice (k * w) w after)
      pub kept :
          (k : ℕ)
          → k < n
          → IsSorted leq (slice (k * w) w base)
          → IsSorted leq (slice (k * w) w after)

    -- A work that sorts part `j` leaves every part as it has to be.
    pub Work-ok :
        (w j : ℕ) (IsOk : List A → Type 0) (base mid : List A)
        → ((part : List A) → IsSorted leq part → IsOk part)
        → Work w j base mid
        → IsSorted leq (slice (j * w) w mid)
        → (k : ℕ) → IsOk (slice (k * w) w base)
        → IsOk (slice (k * w) w mid)
    Work-ok w j IsOk base mid weaken work sorted k ok = elim (ℕ_discrete k j) [
      | yes e ↦ subst (λ i. IsOk (slice (i * w) w mid)) (sym e) (weaken _ sorted)
      | no ne ↦ subst IsOk (sym (work.others k ne)) ok
    ]

    -- The work in front of the rest of the phase.
    pub Phase-Work :
        (w n j : ℕ) (IsOk : List A → Type 0) (base mid after : List A)
        → Work w j base mid
        → IsSorted leq (slice (j * w) w mid)
        → Phase w n IsOk mid after
        → Phase w n IsOk base after
    Phase-Work w n j IsOk base mid after work sorted rest = record {
      same_length = rest.same_length ∙ work.length_same;
      perm = Perm.trans rest.perm work.rearranged;
      ok = rest.ok;
      kept =
          λ k h s. rest.kept k h (Work-ok w j (IsSorted leq) base mid (λ _ p. p) work sorted k s);
    }

    -- What the phase has sorted: every part that the order names.
    pub Sorted-cons :
        (w n j : ℕ) (order : List ℕ) (IsOk : List A → Type 0) (mid after : List A)
        → j < n
        → IsSorted leq (slice (j * w) w mid)
        → Phase w n IsOk mid after
        → ((k : ℕ) → Among k order → IsSorted leq (slice (k * w) w after))
        → (k : ℕ) → Among k (j ∷ order)
        → IsSorted leq (slice (k * w) w after)
    Sorted-cons w n j order IsOk mid after h sorted rest all k (inl e) =
        subst (λ i. IsSorted leq (slice (i * w) w after)) (sym e) (rest.kept j h sorted)
    Sorted-cons w n j order IsOk mid after h sorted rest all k (inr a) = all k a
