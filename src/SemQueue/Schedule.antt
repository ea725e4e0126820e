-- ===== src/SemQueue/Schedule.antt =====
-- lab05/src/5.1 as a whole: any number of threads and the main thread, a turn at a time, in any
-- order. A turn that is not possible changes nothing.
use osi_s.Prelude.{ℕ, List, [], ◌∷◌, false, Option, none, some, get_or, set}
use osi_s.SemQueue.{
  Pc, outside, push_wait, pop_wait, MainPc, ready, Shared, turn, queue_resize_increase,
  queue_resize_decrease, resize_turn, System,
}

-- `push i msg` and `pop i` are calls that thread `i` begins, `go i` is a turn of it, `increase` and
-- `decrease` are commands of the main thread and `main_go` is a turn of it inside one, `stop` is
-- `running = 0`.
pub data Event : Type 0 where
  push : ℕ → ℕ → Event
  pop go : ℕ → Event
  increase decrease main_go stop : Event

-- Thread `i` goes to `pc`.
abbrev pub at : System → ℕ → Pc → System
at y i pc = record y { threads = set y.threads i pc }

-- A call begins where the thread is outside.
abbrev pub begin : Pc → System → ℕ → Pc → System
begin outside y i pc = at y i pc
begin _ y i pc = y

abbrev pub moved : Option (Pc × Shared) → System → ℕ → System
moved none y i = y
moved (some (pc, s)) y i = record { shared = s; threads = set y.threads i pc }

abbrev pub command : MainPc → Shared → Shared → Shared
command ready s t = t
command _ s t = s

-- A thread beyond the end of the table is `outside` and cannot be moved.
unfoldable pub step : Event → System → System
step (push i msg) y = begin (get_or y.threads i outside) y i (push_wait msg)
step (pop i) y = begin (get_or y.threads i outside) y i pop_wait
step (go i) y = moved (turn (get_or y.threads i outside) y.shared) y i
step increase y = record y {
  shared = command y.shared.main y.shared (queue_resize_increase y.shared);
}
step decrease y = record y {
  shared = command y.shared.main y.shared (queue_resize_decrease y.shared);
}
step main_go y = record y { shared = resize_turn y.shared.main y.shared }
step stop y = record y { shared = record (y.shared) { running = false } }

unfoldable pub run : List Event → System → System
unfolding step
run [] y = y
run (e ∷ es) y = run es (step e y)
