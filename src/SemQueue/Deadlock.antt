-- ===== src/SemQueue/Deadlock.antt =====
-- `queue_resize_decrease` waits for `sem_empty` while it holds the mutex (lab05/src/5.1/queue.c).
use osi_s.Prelude.{
  ℕ, zero, suc, ◌≡◌, refl, ◌∙◌, List, [], ◌∷◌, Bool, true, false, none, get_or, set, arith,
}
use osi_s.SemQueue.{
  Pc, outside, push_wait, push_lock, push_post, push_back, pop_wait, pop_lock, pop_post, pop_back,
  shrinking, Shared, turn, resize_turn, System,
}
use osi_s.SemQueue.Schedule.{
  Event, push, pop, go, increase, decrease, main_go, stop, begin, step, run,
}

-- A thread that needs neither the mutex nor a token to go on.
abbrev pub is_free : Pc → Bool
is_free push_post = true
is_free push_back = true
is_free pop_post = true
is_free pop_back = true
is_free _ = false

abbrev pub NoneFree : List Pc → Type 0
NoneFree [] = Unit
NoneFree (pc ∷ pcs) = (is_free pc ≡ false) × NoneFree pcs

-- The main thread waits in the decrease, no token is left, and no thread is on its way to give one.
pub record IsStuck (y : System) : Type 0 where
  pub main : y.shared.main ≡ shrinking
  pub empties : y.shared.sem_empty ≡ 0
  pub fulls : y.shared.sem_full ≡ 0
  pub threads : NoneFree y.threads

NoneFree-set :
    (pcs : List Pc) (i : ℕ) (pc : Pc) → is_free pc ≡ false → NoneFree pcs → NoneFree (set pcs i pc)
NoneFree-set [] i pc h n = n
NoneFree-set (p ∷ pcs) zero pc h n = (h, n.1)
NoneFree-set (p ∷ pcs) (suc i) pc h n = (n.0, NoneFree-set pcs i pc h n.1)

NoneFree-get_or : (pcs : List Pc) (i : ℕ) → NoneFree pcs → is_free (get_or pcs i outside) ≡ false
NoneFree-get_or [] i n = refl
NoneFree-get_or (p ∷ pcs) zero n = n.0
NoneFree-get_or (p ∷ pcs) (suc i) n = NoneFree-get_or pcs i n.1

-- Every thread that is not on its way to give a token is blocked.
blocked :
    (pc : Pc) (s : Shared)
    → is_free pc ≡ false
    → s.main ≡ shrinking
    → s.sem_empty ≡ 0
    → s.sem_full ≡ 0
    → turn pc s ≡ none
unfolding turn
blocked outside s h m e f = refl
blocked (push_wait msg) s h m e f = ground arith
blocked (push_lock msg) s h m e f = ground arith
blocked push_post s h m e f = cc
blocked push_back s h m e f = cc
blocked pop_wait s h m e f = ground arith
blocked pop_lock s h m e f = ground arith
blocked pop_post s h m e f = cc
blocked pop_back s h m e f = cc

-- What a step may not change.
abbrev Same : System → System → Type 0
Same y z =
    (z.shared.ring ≡ y.shared.ring)
    × (z.shared.accepted ≡ y.shared.accepted)
    × (z.shared.delivered ≡ y.shared.delivered)

begin-IsStuck :
    (o : Pc) (y : System) (i : ℕ) (pc : Pc)
    → is_free pc ≡ false
    → IsStuck y
    → IsStuck (begin o y i pc) × Same y (begin o y i pc)
begin-IsStuck outside y i pc h s = (
  record {
    main = s.main;
    empties = s.empties;
    fulls = s.fulls;
    threads = NoneFree-set y.threads i pc h s.threads;
  },
  (refl, refl, refl),
)
begin-IsStuck (push_wait msg) y i pc h s = (s, (refl, refl, refl))
begin-IsStuck _ y i pc h s = (s, (refl, refl, refl))

step-IsStuck : (e : Event) (y : System) → IsStuck y → IsStuck (step e y) × Same y (step e y)
unfolding step resize_turn
step-IsStuck (push i msg) y s = begin-IsStuck _ y i (push_wait msg) refl s
step-IsStuck (pop i) y s = begin-IsStuck _ y i pop_wait refl s
step-IsStuck (go i) y s =
    rw
      (blocked (get_or y.threads i outside) y.shared (NoneFree-get_or y.threads i s.threads) s.main
        s.empties s.fulls)
      (s, (refl, refl, refl))
step-IsStuck increase y s = ground (arith, s.main, s.empties, s.fulls, s.threads)
step-IsStuck decrease y s = ground (arith, s.main, s.empties, s.fulls, s.threads)
step-IsStuck main_go y s = ground (arith, s.main, s.empties, s.fulls, s.threads)
step-IsStuck stop y s = ground (arith, s.main, s.empties, s.fulls, s.threads)

-- From a stuck program no events lead on: the main thread stays inside the decrease with the mutex,
-- and the queue, with all that was accepted and delivered, stays as it is.
pub stuck_forever :
    (es : List Event) (y : System)
    → IsStuck y
    → ((run es y).shared.main ≡ shrinking)
      × ((run es y).shared.ring ≡ y.shared.ring)
      × ((run es y).shared.accepted ≡ y.shared.accepted)
      × ((run es y).shared.delivered ≡ y.shared.delivered)
unfolding run
stuck_forever [] y s = (s.main, refl, refl, refl)
stuck_forever (e ∷ es) y s =
    let one = step-IsStuck e y s in
    let rest = stuck_forever es (step e y) one.0 in
    (rest.0, rest.1 ∙ one.1.0, rest.2 ∙ one.1.1, rest.3 ∙ one.1.2)
