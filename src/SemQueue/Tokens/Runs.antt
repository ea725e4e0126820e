-- ===== src/SemQueue/Tokens/Runs.antt =====
-- The account of tokens over every interleaving, and what follows for the sections and the main
-- thread.
use osi_s.Prelude.{
  ℕ, zero, suc, ◌+◌, ◌-◌, ◌≤◌, ◌<◌, ◌≡◌, refl, sym, ap, List, [], ◌∷◌, replicate, Option, none,
  some, get_or, length, arith, dec_lt,
}
use mathlib.Core.Path.{subst₂}
use osi_s.Ring.Laws.{queue_init-IsValid}
use osi_s.SemQueue.{
  Pc, outside, push_wait, push_lock, pop_wait, pop_lock, pop_post, Shared, turn, System, queue_init,
  pop_section,
}
use osi_s.SemQueue.Schedule.{
  Event, push, pop, go, increase, decrease, main_go, stop, begin, moved, step, run,
}
use osi_s.SemQueue.Tokens.{
  holds_empty, holds_full, total, total-set, total-ge, Balanced, Turned, turn-Turned, IsBalanced,
  resize_turn-Balanced, increase-Balanced, decrease-Balanced, total-outside,
}

get_or_beyond : (pcs : List Pc) (i : ℕ) → length pcs ≤ i → get_or pcs i outside ≡ outside
get_or_beyond [] i h = refl
get_or_beyond (p ∷ pcs) zero h = absurd (omega arith)
get_or_beyond (p ∷ pcs) (suc i) h = get_or_beyond pcs i (omega arith)

Balanced-cast : {s : Shared} {e e' f f' : ℕ} → e ≡ e' → f ≡ f' → Balanced s e f → Balanced s e' f'
Balanced-cast {s} p q b = subst₂ (Balanced s) p q b

moved-IsBalanced :
    (y : System) (i e f : ℕ) (r : Option (Pc × Shared))
    → i < length y.threads
    → e + holds_empty (get_or y.threads i outside) ≡ total holds_empty y.threads
    → f + holds_full (get_or y.threads i outside) ≡ total holds_full y.threads
    → IsBalanced y
    → Turned e f r
    → IsBalanced (moved r y i)
moved-IsBalanced y i e f none h p q b t = b
moved-IsBalanced y i e f (some (pc, s)) h p q b t =
    Balanced-cast (omega (arith, total-set holds_empty y.threads i pc h))
      (omega (arith, total-set holds_full y.threads i pc h)) t

go-IsBalanced : (i : ℕ) (y : System) → IsBalanced y → IsBalanced (step (go i) y)
unfolding step turn
go-IsBalanced i y b = elim (dec_lt i (length y.threads)) [
  | yes h ↦
      let pc = get_or y.threads i outside in
      let e = total holds_empty y.threads - holds_empty pc in
      let f = total holds_full y.threads - holds_full pc in
      let p : e + holds_empty pc ≡ total holds_empty y.threads =
        omega (arith, total-ge holds_empty y.threads i h) in
      let q : f + holds_full pc ≡ total holds_full y.threads =
        omega (arith, total-ge holds_full y.threads i h) in
      moved-IsBalanced y i e f (turn pc y.shared) h p q b
        (turn-Turned pc y.shared e f (Balanced-cast (sym p) (sym q) b))
  | no h ↦ rw (get_or_beyond y.threads i (omega arith)) b
]

-- A call begins with no token.
begin-IsBalanced :
    (y : System) (i : ℕ) (pc : Pc)
    → holds_empty pc ≡ 0
    → holds_full pc ≡ 0
    → (o : Pc) → get_or y.threads i outside ≡ o
    → IsBalanced y
    → IsBalanced (begin o y i pc)
begin-IsBalanced y i pc he hf outside o b =
    Balanced-cast (sym (total-outside holds_empty y.threads i pc o refl he))
      (sym (total-outside holds_full y.threads i pc o refl hf)) b
begin-IsBalanced y i pc he hf (push_wait msg) o b = b
begin-IsBalanced y i pc he hf _ o b = b

step-IsBalanced : (e : Event) (y : System) → IsBalanced y → IsBalanced (step e y)
step-IsBalanced (go i) y b = go-IsBalanced i y b
step-IsBalanced (push i msg) y b =
    unfold step in begin-IsBalanced y i (push_wait msg) refl refl _ refl b
step-IsBalanced (pop i) y b = unfold step in begin-IsBalanced y i pop_wait refl refl _ refl b
step-IsBalanced increase y b = unfold step in increase-Balanced y.shared _ _ b
step-IsBalanced decrease y b = unfold step in decrease-Balanced y.shared _ _ b
step-IsBalanced main_go y b = unfold step in resize_turn-Balanced y.shared _ _ b
step-IsBalanced stop y b =
    unfold step in
    record {
      valid = b.valid;
      history = b.history;
      empties = b.empties;
      fulls = b.fulls;
      room = b.room;
    }

-- If the queue is valid, its history is first in, first out, and the tokens add up, then all three
-- stay so over every interleaving of any threads, resizes and the stop.
pub run-IsBalanced : (es : List Event) (y : System) → IsBalanced y → IsBalanced (run es y)
unfolding run
run-IsBalanced [] y b = b
run-IsBalanced (e ∷ es) y b = run-IsBalanced es (step e y) (step-IsBalanced e y b)

total-idle : (w : Pc → ℕ) (n : ℕ) → w outside ≡ 0 → total w (replicate n outside) ≡ 0
unfolding total
total-idle w zero h = refl
total-idle w (suc n) h = omega (arith, h, total-idle w n h)

abbrev pub start : ℕ → System
start n = record { shared = queue_init; threads = replicate n outside }

pub start-IsBalanced : (n : ℕ) → IsBalanced (start n)
start-IsBalanced n =
    Balanced-cast (sym (total-idle holds_empty n refl)) (sym (total-idle holds_full n refl))
      (record {
        valid = queue_init-IsValid;
        history = refl;
        empties = refl;
        fulls = refl;
        room = λ e. cc;
      })

-- The semaphores do their work. On every run of `n` threads from the start, a thread that has passed
-- the `sem_wait` of a push finds a free slot, also after the stop.
pub push_fits :
    (es : List Event) (n i msg : ℕ)
    → let y = run es (start n) in
      i < length y.threads
      → get_or y.threads i outside ≡ push_lock msg
      → y.shared.ring.count < y.shared.ring.capacity
push_fits es n i msg h e =
    let y = run es (start n) in
    let b = run-IsBalanced es (start n) (start-IsBalanced n) in
    omega (arith, total-ge holds_empty y.threads i h, ap holds_empty e, b.empties)

-- On every run of `n` threads from the start, a thread that has passed the `sem_wait` of a pop finds
-- a message and returns it, also after the stop.
pub pop_finds :
    (es : List Event) (n i : ℕ)
    → let y = run es (start n) in
      i < length y.threads
      → get_or y.threads i outside ≡ pop_lock
      → (0 < y.shared.ring.count) × ((pop_section y.shared).0 ≡ pop_post)
unfolding pop_section
pop_finds es n i h e =
    let y = run es (start n) in
    let b = run-IsBalanced es (start n) (start-IsBalanced n) in
    let some_left : 0 < y.shared.ring.count =
      omega (arith, total-ge holds_full y.threads i h, ap holds_full e, b.fulls) in
    (some_left, ground arith)
