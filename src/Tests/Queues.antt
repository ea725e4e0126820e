-- ===== src/Tests/Queues.antt =====
-- The theorems on lab05 at concrete inputs.
use osi_s.Prelude.{◌≡◌, refl, [], ◌∷◌, true, replicate, arith}
use osi_s.Ring.{Ring, put, queue_init}
use osi_s.Ring.Contents.{contents}
use osi_s.Ring.Laws.{IsValid, queue_init-IsValid, put-IsValid}
use osi_s.CondQueue.{waits, queue_push, queue_pop}
use osi_s.CondQueue.Spec.{view, push_spec, pop_spec, queue_push_refines, queue_pop_refines}
use osi_s.CondQueue.World.{World, start, push, pop, increase, decrease, stop, run}
use osi_s.CondQueue.World.History.{IsFifo, run-IsFifo, start-IsFifo}
use osi_s.CondQueue.World.Progress.{shutdown-delivers, starved-waits}
use osi_s.CondQueue.Threads.{p, c, upper_p, q, main}
use osi_s.CondQueue.Threads.Accounts.{creations, joins}
use osi_s.CondQueue.Threads.Joins.{main-joins}
use osi_s.Message.{Message, calculate_hash, accepts}

abbrev one_held : Ring
unfolding put
one_held = put 7 queue_init

one_held-IsValid : IsValid one_held
unfolding one_held put
one_held-IsValid = put-IsValid 7 queue_init queue_init-IsValid (omega arith)

queue_push_refines_example :
    view contents (queue_push true 8 one_held) ≡ push_spec 4 true 8 (contents one_held)
unfolding one_held put
queue_push_refines_example = queue_push_refines true 8 one_held one_held-IsValid

queue_pop_refines_example :
    view contents (queue_pop true one_held) ≡ pop_spec true (contents one_held)
queue_pop_refines_example = queue_pop_refines true one_held one_held-IsValid

run-IsFifo_example :
    IsFifo (run (push 1 ∷ push 2 ∷ increase ∷ pop ∷ decrease ∷ stop ∷ pop ∷ []) start)
run-IsFifo_example =
    run-IsFifo (push 1 ∷ push 2 ∷ increase ∷ pop ∷ decrease ∷ stop ∷ pop ∷ []) start start-IsFifo

abbrev busy : World
busy = run (push 1 ∷ push 2 ∷ []) start

shutdown-delivers_example :
    let w = run (stop ∷ replicate busy.ring.count pop) busy in
    (w.delivered ≡ busy.accepted) × (w.ring.count ≡ 0)
shutdown-delivers_example =
    shutdown-delivers busy (run-IsFifo (push 1 ∷ push 2 ∷ []) start start-IsFifo)

starved-waits_example :
    ((run (pop ∷ increase ∷ pop ∷ []) start).delivered ≡ [])
    × (queue_pop
          (run (pop ∷ increase ∷ pop ∷ []) start).running
          (run (pop ∷ increase ∷ pop ∷ []) start).ring
        ≡ waits)
starved-waits_example = starved-waits (pop ∷ increase ∷ pop ∷ []) start tt refl refl

main-joins_example :
    let (m, calls, freed) = main ((p, 11) ∷ (c, 12) ∷ (upper_p, 0) ∷ (p, 13) ∷ (q, 0) ∷ []) in
    (creations 13 calls ≡ joins 13 calls) × (m.prod_count ≡ 0) × (m.cons_count ≡ 0)
main-joins_example = main-joins ((p, 11) ∷ (c, 12) ∷ (upper_p, 0) ∷ (p, 13) ∷ (q, 0) ∷ []) 13

-- Two bytes, whose hash is 3 + 2 + 10 + 20.
abbrev small : Message
small = record { type = 3; hash = 35; size = 2; bytes = 10 ∷ 20 ∷ 0 ∷ [] }

small_accepted : accepts small ≡ true
unfolding accepts calculate_hash
small_accepted = refl
