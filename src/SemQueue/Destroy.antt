-- ===== src/SemQueue/Destroy.antt =====
-- The end of lab05/src/5.1: `queue_destroy` after any run of the threads.
use osi_s.Prelude.{ℕ, ◌≡◌, refl, sym, ap, ◌∙◌, List, ◌++◌}
use osi_s.Ring.Laws.{drain-contents}
use osi_s.SemQueue.{queue_destroy}
use osi_s.SemQueue.Schedule.{Event, run}
use osi_s.SemQueue.Tokens.Runs.{run-IsBalanced, start, start-IsBalanced}

-- However the threads were interleaved, and wherever they were stopped: each message that a push has
-- accepted was delivered by a pop or is freed by `queue_destroy`, once and in the order of the pushes,
-- and no message is left.
pub run-queue_destroy :
    (es : List Event) (n : ℕ)
    → let s = (run es (start n)).shared in
      (s.accepted ≡ s.delivered ++ (queue_destroy s).0) × ((queue_destroy s).1.ring.count ≡ 0)
unfolding queue_destroy
run-queue_destroy es n =
    let s = (run es (start n)).shared in
    let b = run-IsBalanced es (start n) (start-IsBalanced n) in
    let (freed, none_left) = drain-contents s.ring.count s.ring b.valid.head_in refl in
    (b.history ∙ ap (λ l. s.delivered ++ l) (sym freed), none_left)
