-- ===== src/CondQueue/World/Progress.antt =====
-- Which calls of lab05/src/5.2/queue.c return, before and after the stop.
use osi_s.Prelude.{
  ℕ, zero, suc, ◌+◌, ◌-◌, ◌≡◌, ◌≢◌, refl, sym, ap, ◌∙◌, List, [], ◌∷◌, ◌++◌, true, false, none,
  append-nil, arith, replicate,
}
use osi_s.Ring.{Ring}
use osi_s.Ring.Contents.{slots}
use osi_s.Ring.Laws.{get_sizes, resize_sizes}
use osi_s.CondQueue.{
  refused, waits, returns, queue_push, queue_pop, queue_resize_increase, queue_resize_decrease,
}
use osi_s.CondQueue.World.{Event, push, pop, increase, decrease, stop, World, step, run}
use osi_s.CondQueue.World.History.{IsFifo, step-IsFifo}

-- Once the program has stopped, no call sleeps: a push is refused at once, and a pop returns.
pub stopped_returns :
    (msg : ℕ) (q : Ring)
    → (queue_push false msg q ≡ returns refused q)
      × (queue_pop false q ≢ waits)
      × (queue_pop false q ≡ returns none q → q.count ≡ 0)
unfolding queue_push queue_pop
stopped_returns msg q = (ground arith, ground arith, ground arith)

pop_stopped :
    (w : World) (n : ℕ)
    → w.running ≡ false
    → w.ring.count ≡ suc n
    → ((step pop w).running ≡ false)
      × ((step pop w).ring.count ≡ n)
      × ((step pop w).accepted ≡ w.accepted)
unfolding step queue_pop
pop_stopped w n r c = ground (arith, get_sizes w.ring)

drains :
    (n : ℕ) (w : World)
    → IsFifo w
    → w.running ≡ false
    → w.ring.count ≡ n
    → ((run (replicate n pop) w).delivered ≡ w.accepted)
      × ((run (replicate n pop) w).ring.count ≡ 0)
unfolding run
drains zero w f r c = (
  sym (
      f.history
      ∙ ap (λ k. w.delivered ++ slots w.ring.buffer w.ring.capacity w.ring.head 0 k) c
      ∙ append-nil w.delivered),
  c,
)
drains (suc n) w f r c =
    let p = pop_stopped w n r c in
    let rest = drains n (step pop w) (step-IsFifo pop w f) p.0 p.1 in (rest.0 ∙ p.2, rest.1)

-- After the stop, as many pops as the queue holds messages deliver every message that was ever
-- accepted, and leave the queue empty.
pub shutdown-delivers :
    (w : World)
    → IsFifo w
    → let w' = run (stop ∷ replicate w.ring.count pop) w in
      (w'.delivered ≡ w.accepted) × (w'.ring.count ≡ 0)
unfolding run step
shutdown-delivers w f = drains w.ring.count (step stop w) (step-IsFifo stop w f) refl refl

-- Events of a program whose producers are gone and that nobody stops.
abbrev pub Quiet : List Event → Type 0
Quiet [] = Unit
Quiet (push msg ∷ es) = ⊥
Quiet (stop ∷ es) = ⊥
Quiet (_ ∷ es) = Quiet es

record IsStarved (w : World) : Type 0 where
  empty : w.ring.count ≡ 0
  live : w.running ≡ true

step-IsStarved :
    (e : Event) (w : World)
    → Quiet (e ∷ [])
    → IsStarved w
    → IsStarved (step e w) × ((step e w).delivered ≡ w.delivered)
unfolding step queue_pop queue_resize_increase queue_resize_decrease
step-IsStarved (push msg) w h s = absurd h
step-IsStarved pop w h s = ground (arith, s.empty, s.live)
step-IsStarved increase w h s = ground (arith, resize_sizes (w.ring.capacity + 1) w.ring)
step-IsStarved decrease w h s = ground (arith, resize_sizes (w.ring.capacity - 1) w.ring)
step-IsStarved stop w h s = absurd h

Quiet-tail : (e : Event) (es : List Event) → Quiet (e ∷ es) → Quiet (e ∷ []) × Quiet es
Quiet-tail (push msg) es h = absurd h
Quiet-tail pop es h = (tt, h)
Quiet-tail increase es h = (tt, h)
Quiet-tail decrease es h = (tt, h)
Quiet-tail stop es h = absurd h

run-IsStarved :
    (es : List Event) (w : World)
    → Quiet es
    → IsStarved w
    → IsStarved (run es w) × ((run es w).delivered ≡ w.delivered)
unfolding run
run-IsStarved [] w h s = (s, refl)
run-IsStarved (e ∷ es) w h s =
    let parts = Quiet-tail e es h in
    let one = step-IsStarved e w parts.0 s in
    let rest = run-IsStarved es (step e w) parts.1 one.0 in (rest.0, rest.1 ∙ one.1)

-- While the program runs, a consumer that finds the queue empty sleeps on: after any events but a
-- push or the stop, resizes and pops of other consumers included, nothing more has been delivered
-- and its next attempt sleeps again.
pub starved-waits :
    (es : List Event) (w : World)
    → Quiet es
    → w.ring.count ≡ 0
    → w.running ≡ true
    → ((run es w).delivered ≡ w.delivered) × (queue_pop (run es w).running (run es w).ring ≡ waits)
unfolding queue_pop
starved-waits es w h c r =
    let s = run-IsStarved es w h (record { empty = c; live = r }) in
    (s.1, ground (arith, s.0.empty, s.0.live))
