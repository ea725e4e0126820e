-- ===== src/Tests/Conversations.antt =====
-- The theorems on the child of lab03 and its parent at concrete inputs.
use osi_s.Prelude.{◌++◌, replicate, ◌*◌, ◌≤◌, ◌≡◌, refl, false, some, List, [], ◌∷◌, arith, length}
use osi_s.Statistics
use osi_s.Statistics.{sigusr2, sigalrm}
use osi_s.Statistics.Printing.{Arrivals, during, start, tick, main_loop, delivered, converse}
use osi_s.Statistics.Printing.Rate.{prints, main_loop-prints}
use osi_s.Statistics.Printing.Steps.{ask_child}
use osi_s.Statistics.Printing.Stops.{stop_child-prints}
use osi_s.Supervisor.{Parent, init, create_child, child, stop_child}

abbrev ticks : List (List Statistics.Signal)
ticks = replicate 7 (sigalrm ∷ [])

-- SIGUSR2 comes between the question and the inner loop of the seventh round, which has no sleep then.
abbrev early : List Arrivals
early =
    replicate 6 (during (sigalrm ∷ []))
    ++ (record (during []) { before_wait = sigusr2 ∷ [] } ∷ during [] ∷ [])

main_loop-prints_example : 6 * prints (main_loop early start).1 ≤ length early
main_loop-prints_example = main_loop-prints early

abbrev one : Parent
one = create_child (some 41) init

stop_child-prints_example :
    let (q, effects) = stop_child 0 one in
    let (c, out) = tick (delivered (child one 0).pid effects) (ask_child Statistics.init 6) in
    ((child q 0).is_running ≡ false)
    × (out ≡ [])
    × (prints (converse (child one 0).pid [] ticks c).1 ≡ 1)
unfolding create_child
stop_child-prints_example =
    stop_child-prints one 0 6 1 Statistics.init ticks (omega arith) (omega arith) refl refl
