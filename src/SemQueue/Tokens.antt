-- ===== src/SemQueue/Tokens.antt =====
-- The account of semaphore tokens: `sem_empty`, the tokens in threads' hands and the messages make
-- up the capacity, and `sem_full` with the tokens in threads' hands makes up the messages.
pub mod Runs
use osi_s.Prelude.{
  ℕ, zero, suc, ◌+◌, ◌-◌, ◌≤◌, ◌<◌, ◌≡◌, refl, sym, ap, ap₂, ◌∙◌, List, [], ◌∷◌, ◌++◌, Bool, true,
  false, not, ◌&&◌, Option, none, some, if◌then◌else◌, ◌==◌, get_or, set, length, append_assoc,
  arith, replicate,
}
use native.Mathlib.Nat.{add-zero}
use osi_s.Ring.{Ring, put, get, resize}
use osi_s.Ring.Contents.{contents}
use osi_s.Ring.Copy.{contents-resize}
use osi_s.Ring.Laws.{
  IsValid, put-IsValid, get-IsValid, resize-IsValid, queue_init-IsValid, contents-put, contents-get,
  put_sizes, get_sizes, resize_sizes,
}
use osi_s.SemQueue.{
  Pc, outside, push_wait, push_lock, push_post, push_back, pop_wait, pop_lock, pop_post, pop_back,
  MainPc, ready, posting, shrinking, Shared, locked, push_section, pop_section, turn,
  queue_resize_increase, queue_resize_decrease, resize_turn, System, queue_init,
}
use osi_s.SemQueue.Schedule.{
  Event, push, pop, go, increase, decrease, main_go, stop, at, begin, moved, command, step, run,
}

-- Tokens of `sem_empty` that a thread has taken and not used or given back.
abbrev pub holds_empty : Pc → ℕ
holds_empty (push_lock msg) = 1
holds_empty push_back = 1
holds_empty pop_post = 1
holds_empty _ = 0

abbrev pub holds_full : Pc → ℕ
holds_full push_post = 1
holds_full pop_lock = 1
holds_full pop_back = 1
holds_full _ = 0

abbrev pub main_empty : MainPc → ℕ
main_empty posting = 1
main_empty _ = 0

pub total : (Pc → ℕ) → List Pc → ℕ
total w [] = 0
total w (pc ∷ pcs) = w pc + total w pcs

total-set :
    (w : Pc → ℕ) (pcs : List Pc) (i : ℕ) (pc : Pc)
    → i < length pcs
    → total w (set pcs i pc) + w (get_or pcs i outside) ≡ total w pcs + w pc
unfolding total
total-set w [] i pc h = absurd (omega arith)
total-set w (p ∷ pcs) zero pc h = omega arith
total-set w (p ∷ pcs) (suc i) pc h = omega (arith, total-set w pcs i pc (omega arith))

total-ge :
    (w : Pc → ℕ) (pcs : List Pc) (i : ℕ) → i < length pcs → w (get_or pcs i outside) ≤ total w pcs
unfolding total
total-ge w [] i h = absurd (omega arith)
total-ge w (p ∷ pcs) zero h = omega arith
total-ge w (p ∷ pcs) (suc i) h = omega (arith, total-ge w pcs i (omega arith))

-- A thread outside holds nothing, nor does one that begins a call.
total-outside :
    (w : Pc → ℕ) (pcs : List Pc) (i : ℕ) (pc : Pc)
    → get_or pcs i outside ≡ outside
    → w outside ≡ 0
    → w pc ≡ 0
    → total w (set pcs i pc) ≡ total w pcs
unfolding total
total-outside w [] i pc o z h = refl
total-outside w (p ∷ pcs) zero pc o z h = omega (arith, ap w o)
total-outside w (p ∷ pcs) (suc i) pc o z h = omega (arith, total-outside w pcs i pc o z h)

-- What the shared state satisfies while the threads hold `e` and `f` tokens.
pub record Balanced (s : Shared) (e f : ℕ) : Type 0 where
  pub valid : IsValid s.ring
  pub history : s.accepted ≡ s.delivered ++ contents s.ring
  pub empties : s.sem_empty + e + main_empty s.main + s.ring.count ≡ s.ring.capacity
  pub fulls : s.sem_full + f ≡ s.ring.count
  pub room : s.main ≡ shrinking → s.ring.count + 1 < s.ring.capacity

-- A turn of a thread that holds its part of the tokens keeps the account.
abbrev Turned : ℕ → ℕ → Option (Pc × Shared) → Type 0
Turned e f none = Unit
Turned e f (some (pc, s)) = Balanced s (e + holds_empty pc) (f + holds_full pc)

push_section-Turned :
    (msg : ℕ) (s : Shared) (e f : ℕ)
    → locked s.main ≡ false
    → Balanced s (e + 1) f
    → Turned e f (some (push_section msg s))
unfolding push_section
push_section-Turned msg s e f free b = ground (
  arith,
  put-IsValid msg s.ring b.valid,
  put_sizes msg s.ring,
  contents-put msg s.ring b.valid,
  append_assoc s.delivered (contents s.ring) (msg ∷ []),
)

pop_section-Turned :
    (s : Shared) (e f : ℕ)
    → locked s.main ≡ false
    → Balanced s e (f + 1)
    → Turned e f (some (pop_section s))
unfolding pop_section
pop_section-Turned s e f free b = ground (
  arith,
  get-IsValid s.ring b.valid,
  get_sizes s.ring,
  contents-get s.ring b.valid,
  append_assoc s.delivered ((get s.ring).0 ∷ []) (contents (get s.ring).1),
)

-- A blocked turn asks for nothing; a section waits for the mutex.
unless_locked :
    (e f : ℕ) (m : MainPc) (r : Pc × Shared)
    → (locked m ≡ false → Turned e f (some r))
    → Turned e f (if locked m then none else some r)
unless_locked e f ready r h = h refl
unless_locked e f posting r h = h refl
unless_locked e f shrinking r h = tt

turn-Turned :
    (pc : Pc) (s : Shared) (e f : ℕ)
    → Balanced s (e + holds_empty pc) (f + holds_full pc)
    → Turned e f (turn pc s)
unfolding turn
turn-Turned outside s e f b = tt
turn-Turned (push_wait msg) s e f b = ground arith
turn-Turned (push_lock msg) s e f b =
    unless_locked e f s.main (push_section msg s)
      λ free. push_section-Turned msg s e f free (rw add-zero at b)
turn-Turned push_post s e f b = ground arith
turn-Turned push_back s e f b = ground arith
turn-Turned pop_wait s e f b = ground arith
turn-Turned pop_lock s e f b =
    unless_locked e f s.main (pop_section s)
      λ free. pop_section-Turned s e f free (rw add-zero at b)
turn-Turned pop_post s e f b = ground arith
turn-Turned pop_back s e f b = ground arith

-- The account of the whole program.
abbrev pub IsBalanced : System → Type 0
IsBalanced y = Balanced y.shared (total holds_empty y.threads) (total holds_full y.threads)

resize_turn-Balanced : (s : Shared) (e f : ℕ) → Balanced s e f → Balanced (resize_turn s.main s) e f
unfolding resize_turn
resize_turn-Balanced s e f b = ground (
  arith,
  resize-IsValid (s.ring.capacity - 1) s.ring b.valid,
  resize_sizes (s.ring.capacity - 1) s.ring,
  contents-resize (s.ring.capacity - 1) s.ring,
)

increase-Balanced :
    (s : Shared) (e f : ℕ)
    → Balanced s e f
    → Balanced (command s.main s (queue_resize_increase s)) e f
unfolding queue_resize_increase
increase-Balanced s e f b = ground (
  arith,
  resize-IsValid (s.ring.capacity + 1) s.ring b.valid,
  resize_sizes (s.ring.capacity + 1) s.ring,
  contents-resize (s.ring.capacity + 1) s.ring,
)

decrease-Balanced :
    (s : Shared) (e f : ℕ)
    → Balanced s e f
    → Balanced (command s.main s (queue_resize_decrease s)) e f
unfolding queue_resize_decrease
decrease-Balanced s e f b = ground arith
