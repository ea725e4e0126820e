-- ===== src/SharedQueue/World.antt =====
-- The processes of lab04/src/main.c on the one queue, as any sequence of events: a producer or a
-- consumer gets through its first `semop`, the one inside finishes, or it is killed there.
pub mod Safety
pub mod Steps
use osi_s.Prelude.{
  ℕ, ◌+◌, ◌-◌, ◌%◌, List, [], ◌∷◌, ◌++◌, Option, none, some, ltb, set, if◌then◌else◌,
}
use osi_s.SharedQueue.{
  Queue, max_queue_size, push_enter, push_leave, pop_enter, pop_leave, queue_init, attached,
  created,
}

-- Who is between the two `semop` calls.
pub data Holder : Type 0 where
  nobody popping : Holder
  pushing : ℕ → Holder

pub record World : Type 0 where
  pub queue : Queue
  pub holder : Holder
  pub pushed : List ℕ
  pub popped : List ℕ

pub data Event : Type 0 where
  enter_push : ℕ → Event
  enter_pop leave : Event
  kill : ℕ → Event

abbrev pub entered : World → Holder → Option Queue → World
entered w h none = w
entered w h (some q) = record w { queue = q; holder = h }

abbrev pub left : World → Holder → World
unfolding push_leave pop_leave
left w nobody = w
left w popping =
    let (msg, q) = pop_leave w.queue in
    record w { queue = q; holder = nobody; popped = w.popped ++ (msg ∷ []) }
left w (pushing msg) = record w {
  queue = push_leave msg w.queue;
  holder = nobody;
  pushed = w.pushed ++ (msg ∷ []);
}

-- The writes of `queue_push` and of `queue_pop` up to a SIGKILL behind the first `n` of them: the
-- slot, `tail`, `added_count`, `free_slots`, and `head`, `removed_count`, `free_slots`.
abbrev pub partly_pushed : ℕ → ℕ → Queue → Queue
partly_pushed n msg q = record q {
  buffer = if ltb 0 n then set q.buffer q.tail msg else q.buffer;
  tail = if ltb 1 n then (q.tail + 1) % max_queue_size else q.tail;
  added_count = if ltb 2 n then q.added_count + 1 else q.added_count;
  free_slots = if ltb 3 n then q.free_slots - 1 else q.free_slots;
}

abbrev pub partly_popped : ℕ → Queue → Queue
partly_popped n q = record q {
  head = if ltb 0 n then (q.head + 1) % max_queue_size else q.head;
  removed_count = if ltb 1 n then q.removed_count + 1 else q.removed_count;
  free_slots = if ltb 2 n then q.free_slots + 1 else q.free_slots;
}

abbrev pub killed : ℕ → World → Holder → World
killed n w nobody = w
killed n w popping = record w { queue = partly_popped n w.queue; holder = nobody }
killed n w (pushing msg) = record w { queue = partly_pushed n msg w.queue; holder = nobody }

-- `kill` is the SIGKILL of `remove_last_producer` or `remove_last_consumer` that reaches the
-- process inside behind its first `n` writes; a process outside leaves nothing behind.
unfoldable pub step : Event → World → World
unfolding push_enter pop_enter push_leave pop_leave
step (enter_push msg) w = entered w (pushing msg) (push_enter w.queue)
step enter_pop w = entered w popping (pop_enter w.queue)
step leave w = left w w.holder
step (kill n) w = killed n w w.holder

pub run : List Event → World → World
run [] w = w
run (e ∷ es) w = run es (step e w)

abbrev pub begin : Queue → World
begin q = record { queue = q; holder = nobody; pushed = []; popped = [] }
