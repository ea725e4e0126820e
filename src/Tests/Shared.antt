-- ===== src/Tests/Shared.antt =====
-- The theorems on the semaphores of lab05/src/5.1 and lab04 at concrete inputs.
use osi_s.Prelude.{ℕ, ◌⊎◌, ◌+◌, ◌≤◌, ◌≡◌, refl, List, [], ◌∷◌, ◌++◌, none, some, length, arith}
use osi_s.Ring.{put}
use osi_s.SemQueue.{queue_destroy, System, shrinking, turn, push_section, queue_resize_decrease}
use osi_s.SemQueue.Schedule.{Event, push, pop, go, decrease, main_go, stop, step, run}
use osi_s.SemQueue.Tokens.{IsBalanced}
use osi_s.SemQueue.Destroy.{run-queue_destroy}
use osi_s.SemQueue.Tokens.Runs.{run-IsBalanced, start, start-IsBalanced}
use osi_s.SemQueue.Deadlock.{IsStuck, stuck_forever}
use osi_s.SharedQueue.{Queue, max_queue_size, queue_init, attached, created, cleared}
use osi_s.SharedQueue.World.{World, enter_push, enter_pop, leave, kill, begin, nobody}
use osi_s.SharedQueue.World
use osi_s.SharedQueue.World.Steps.{IsSafe, stored, in_push, in_pop}
use osi_s.SharedQueue.World.Safety.{processes_order, killed_inside}
use osi_s.SharedQueue.Processes.{p, c, upper_p, q, main}
use osi_s.SharedQueue.Processes.Accounts.{forks, kills, waits}
use osi_s.SharedQueue.Processes.Killed.{processes_killed}

-- Two pushes of thread 0, then threads 0 and 1 inside a push and threads 2 and 3 inside a pop, each
-- before the mutex, and a decrease.
abbrev two_pushed : List Event
two_pushed =
    push 0 7
    ∷ go 0
    ∷ go 0
    ∷ go 0
    ∷ push 0 8
    ∷ go 0
    ∷ go 0
    ∷ go 0
    ∷ push 0 9
    ∷ go 0
    ∷ push 1 9
    ∷ go 1
    ∷ pop 2
    ∷ go 2
    ∷ pop 3
    ∷ go 3
    ∷ []

abbrev before_mutex : System
before_mutex = run two_pushed (start 4)

run-IsBalanced_example : IsBalanced before_mutex
run-IsBalanced_example = run-IsBalanced two_pushed (start 4) (start-IsBalanced 4)

abbrev decreased : System
decreased = step decrease before_mutex

decreased-IsStuck : IsStuck decreased
unfolding run step turn push_section queue_resize_decrease put
decreased-IsStuck = record {
  main = refl;
  empties = refl;
  fulls = refl;
  threads = (refl, (refl, (refl, (refl, tt))));
}

stuck_forever_example :
    let y = run (go 0 ∷ go 2 ∷ main_go ∷ stop ∷ go 3 ∷ []) decreased in
    (y.shared.main ≡ shrinking)
    × (y.shared.ring ≡ decreased.shared.ring)
    × (y.shared.accepted ≡ decreased.shared.accepted)
    × (y.shared.delivered ≡ decreased.shared.delivered)
stuck_forever_example =
    stuck_forever (go 0 ∷ go 2 ∷ main_go ∷ stop ∷ go 3 ∷ []) decreased decreased-IsStuck

abbrev fresh : Queue
fresh = cleared max_queue_size 0 1

fresh_created : queue_init attached created ≡ some fresh
unfolding queue_init
fresh_created = refl

processes_order_example :
    let w =
      World.run
        (enter_push 5 ∷ leave ∷ enter_pop ∷ leave ∷ enter_push 6 ∷ kill 2 ∷ enter_pop ∷ [])
        (begin fresh) in
    ((rest : List ℕ) × (w.pushed ≡ w.popped ++ rest) × (length rest ≤ max_queue_size))
    × (w.queue.lock + (in_push w.holder + in_pop w.holder) ≤ 1)
    × (((w.pushed ≡ w.popped ++ stored w.queue)
          × (length (stored w.queue) + w.queue.free_slots ≡ max_queue_size))
        ⊎ ((w.queue.lock ≡ 0) × (w.holder ≡ nobody)))
processes_order_example =
    processes_order fresh
      (enter_push 5 ∷ leave ∷ enter_pop ∷ leave ∷ enter_push 6 ∷ kill 2 ∷ enter_pop ∷ [])
      fresh_created

abbrev inside : World
inside = World.step (enter_push 5) (begin fresh)

inside-IsSafe : IsSafe inside
unfolding World.step
inside-IsSafe = record {
  storage = refl;
  head_in = omega arith;
  tail_at = refl;
  slots_in = omega arith;
  totals = omega arith;
  free_in = omega arith;
  used_in = omega arith;
  lock_in = omega arith;
  order = refl;
}

killed_inside_example :
    World.run (kill 1 ∷ enter_push 6 ∷ leave ∷ enter_pop ∷ []) inside ≡ World.step (kill 1) inside
unfolding World.step
killed_inside_example =
    killed_inside 1 (enter_push 6 ∷ leave ∷ enter_pop ∷ []) inside inside-IsSafe (omega arith)

processes_killed_example :
    let (m, calls) =
      main ((p, some 11) ∷ (c, none) ∷ (c, some 12) ∷ (upper_p, none) ∷ (q, none) ∷ []) in
    (forks 12 calls ≡ kills 12 calls)
    × (kills 12 calls ≡ waits 12 calls)
    × (m.producers.count ≡ 0)
    × (m.consumers.count ≡ 0)
processes_killed_example =
    processes_killed ((p, some 11) ∷ (c, none) ∷ (c, some 12) ∷ (upper_p, none) ∷ (q, none) ∷ []) 12

run-queue_destroy_example :
    let s = (run two_pushed (start 4)).shared in
    (s.accepted ≡ s.delivered ++ (queue_destroy s).0) × ((queue_destroy s).1.ring.count ≡ 0)
run-queue_destroy_example = run-queue_destroy two_pushed 4
