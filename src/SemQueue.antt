-- ===== src/SemQueue.antt =====
-- lab05/src/5.1/queue.c: the queue guarded by a mutex and two counting semaphores. A call is a
-- series of turns: `sem_wait`, the section under the mutex, `sem_post`. A section is atomic, since
-- it never gives the mutex up; only `queue_resize_decrease` waits for a semaphore inside its own.
pub mod Tokens
pub mod Schedule
pub mod Deadlock
pub mod Destroy
use osi_s.Prelude.{
  ℕ, ◌+◌, ◌-◌, List, [], ◌∷◌, ◌++◌, Bool, true, false, not, ◌&&◌, Option, none, some, if◌then◌else◌,
  ◌==◌, leb, ltb, get_or, set, length, replicate,
}
use osi_s.Ring
use osi_s.Ring.{Ring, initial_queue_capacity, put, get, resize, drain}

-- Where a thread stands: outside, in `queue_push` or in `queue_pop`, before the named step.
pub data Pc : Type 0 where
  outside : Pc
  push_wait push_lock : ℕ → Pc  -- sem_wait(&sem_empty); the section
  push_post push_back : Pc  -- sem_post(&sem_full); sem_post(&sem_empty) of a refused push
  pop_wait pop_lock : Pc  -- sem_wait(&sem_full); the section
  pop_post pop_back : Pc  -- sem_post(&sem_empty); sem_post(&sem_full) of a pop that failed

-- The main thread: between commands; before the `sem_post` of `queue_resize_increase`; inside
-- `queue_resize_decrease`, with the mutex, at its `sem_wait`.
pub data MainPc : Type 0 where
  ready posting shrinking : MainPc

-- What the threads share, with the messages that went in and came out.
pub record Shared : Type 0 where
  pub ring : Ring
  pub running : Bool
  pub sem_empty : ℕ
  pub sem_full : ℕ
  pub main : MainPc
  pub accepted : List ℕ
  pub delivered : List ℕ

-- The mutex is held across turns only by a shrinking main thread.
abbrev pub locked : MainPc → Bool
locked shrinking = true
locked _ = false

-- The section of `queue_push`.
unfoldable pub push_section : ℕ → Shared → Pc × Shared
push_section msg s =
    if not s.running
    then (push_back, s)
    else (push_post, record s { ring = put msg s.ring; accepted = s.accepted ++ (msg ∷ []) })

-- The section of `queue_pop`.
unfoldable pub pop_section : Shared → Pc × Shared
pop_section s =
    if not s.running && s.ring.count == 0
    then (pop_back, s)
    else let (msg, q) = get s.ring in
      (pop_post, record s { ring = q; delivered = s.delivered ++ (msg ∷ []) })

-- One turn of a thread inside `queue_push` or `queue_pop`; `none` is a thread that is blocked.
unfoldable pub turn : Pc → Shared → Option (Pc × Shared)
unfolding push_section pop_section
turn outside s = none
turn (push_wait msg) s =
    if s.sem_empty == 0
    then none
    else some (push_lock msg, record s { sem_empty = s.sem_empty - 1 })
turn (push_lock msg) s = if locked s.main then none else some (push_section msg s)
turn push_post s = some (outside, record s { sem_full = s.sem_full + 1 })
turn push_back s = some (outside, record s { sem_empty = s.sem_empty + 1 })
turn pop_wait s =
    if s.sem_full == 0 then none else some (pop_lock, record s { sem_full = s.sem_full - 1 })
turn pop_lock s = if locked s.main then none else some (pop_section s)
turn pop_post s = some (outside, record s { sem_empty = s.sem_empty + 1 })
turn pop_back s = some (outside, record s { sem_full = s.sem_full + 1 })

-- `queue_resize_increase` up to its `sem_post`.
unfoldable pub queue_resize_increase : Shared → Shared
queue_resize_increase s = record s { ring = resize (s.ring.capacity + 1) s.ring; main = posting }

-- `queue_resize_decrease` up to its `sem_wait`, or to one of its early returns.
unfoldable pub queue_resize_decrease : Shared → Shared
queue_resize_decrease s =
    if leb s.ring.capacity 1
    then s
    else if leb (s.ring.capacity - 1) s.ring.count
    then s
    else record s { main = shrinking }

-- The rest of either resize; a `sem_wait` at zero leaves all as it is.
unfoldable pub resize_turn : MainPc → Shared → Shared
resize_turn ready s = s
resize_turn posting s = record s { sem_empty = s.sem_empty + 1; main = ready }
resize_turn shrinking s = if s.sem_empty == 0 then s else record s {
  sem_empty = s.sem_empty - 1;
  ring = resize (s.ring.capacity - 1) s.ring;
  main = ready;
}

-- `queue_destroy`: what `free` gets, in order, and what is left; MAX_THREADS is 12.
unfoldable pub queue_destroy : Shared → List ℕ × Shared
queue_destroy s =
    let (freed, q) = drain s.ring.count s.ring in
    (freed, record s { ring = q; sem_empty = s.sem_empty + 12; sem_full = s.sem_full + 12 })

-- The program: the shared state and where each thread stands.
pub record System : Type 0 where
  pub shared : Shared
  pub threads : List Pc

abbrev pub queue_init : Shared
queue_init = record {
  ring = Ring.queue_init;
  running = true;
  sem_empty = initial_queue_capacity;
  sem_full = 0;
  main = ready;
  accepted = [];
  delivered = [];
}
