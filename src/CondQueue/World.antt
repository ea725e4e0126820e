-- ===== src/CondQueue/World.antt =====
-- Producers, consumers and the main thread over one queue (lab05/src/5.2), as a sequence of
-- atomic attempts in any order, with a history of what went in and what came out.
pub mod History
pub mod Progress
use osi_s.Prelude.{ℕ, List, [], ◌∷◌, ◌++◌, Bool, true, false, Option, none, some}
use osi_s.Ring.{Ring, queue_init}
use osi_s.CondQueue.{
  Status, added, refused, Attempt, waits, returns, queue_push, queue_pop, queue_resize_increase,
  queue_resize_decrease,
}

-- `push msg` and `pop` are one attempt of a producer or a consumer; `stop` is `running = 0`, by
-- the signal handler or the command 'q'.
pub data Event : Type 0 where
  push : ℕ → Event
  pop increase decrease stop : Event

pub record World : Type 0 where
  pub ring : Ring
  pub running : Bool
  pub accepted : List ℕ
  pub delivered : List ℕ

abbrev pub start : World
start = record { ring = queue_init; running = true; accepted = []; delivered = [] }

-- A message that `queue_push` took goes to `accepted`.
abbrev pub pushed : ℕ → World → Attempt Status Ring → World
pushed msg w waits = w
pushed msg w (returns added q) = record w { ring = q; accepted = w.accepted ++ (msg ∷ []) }
pushed msg w (returns refused q) = record w { ring = q }

-- A message that `queue_pop` returned goes to `delivered`.
abbrev pub popped : World → Attempt (Option ℕ) Ring → World
popped w waits = w
popped w (returns none q) = record w { ring = q }
popped w (returns (some msg) q) = record w { ring = q; delivered = w.delivered ++ (msg ∷ []) }

unfoldable pub step : Event → World → World
step (push msg) w = pushed msg w (queue_push w.running msg w.ring)
step pop w = popped w (queue_pop w.running w.ring)
step increase w = record w { ring = queue_resize_increase w.ring }
step decrease w = record w { ring = queue_resize_decrease w.ring }
step stop w = record w { running = false }

unfoldable pub run : List Event → World → World
unfolding step
run [] w = w
run (e ∷ es) w = run es (step e w)
