-- ===== src/SharedQueue.antt =====
-- lab04/src/queue.c: the queue in System V shared memory, whose processes wait on a set of three
-- semaphores: free slots, stored messages, and the lock. One `semop` with two operations happens
-- whole or waits. A message is copied as one value, the number that its bytes spell.
pub mod World
pub mod Processes
use osi_s.Prelude.{
  ℕ, zero, suc, ◌+◌, ◌-◌, ◌%◌, List, [], ◌∷◌, Bool, true, false, ◌&&◌, Option, none, some, ltb,
  get_or, set, replicate, if◌then◌else◌,
}

abbrev pub max_queue_size : ℕ
max_queue_size = 10

-- `Queue` with the values of its semaphore set: `free` (0), `used` (1) and `lock` (2).
pub record Queue : Type 0 where
  pub buffer : List ℕ
  pub head : ℕ
  pub tail : ℕ
  pub added_count : ℕ
  pub removed_count : ℕ
  pub free_slots : ℕ
  pub free : ℕ
  pub used : ℕ
  pub lock : ℕ

-- What `shmget` answers for the new segment, a stale one removed: attached or not.
pub data Segment : Type 0 where
  attached lost : Segment

-- What `semget` answers: a new set that `SETALL` fills, a set of that key that another run left
-- with its values, or a failure of either call.
pub data Semaphores : Type 0 where
  created failed : Semaphores
  existing : ℕ → ℕ → ℕ → Semaphores

abbrev pub cleared : ℕ → ℕ → ℕ → Queue
cleared free used lock = record {
  buffer = replicate max_queue_size 0;
  head = 0;
  tail = 0;
  added_count = 0;
  removed_count = 0;
  free_slots = max_queue_size;
  free = free;
  used = used;
  lock = lock;
}

unfoldable pub queue_init : Segment → Semaphores → Option Queue
queue_init lost s = none
queue_init attached created = some (cleared max_queue_size 0 1)
queue_init attached failed = none
queue_init attached (existing free used lock) = some (cleared free used lock)

-- The first `semop` of `queue_push`; `none` waits.
unfoldable pub push_enter : Queue → Option Queue
push_enter q =
    if ltb 0 q.free && ltb 0 q.lock
    then some (record q { free = q.free - 1; lock = q.lock - 1 })
    else none

-- `queue_push` from there: the write and the second `semop`, which never waits.
unfoldable pub push_leave : ℕ → Queue → Queue
push_leave msg q = record q {
  buffer = set q.buffer q.tail msg;
  tail = (q.tail + 1) % max_queue_size;
  added_count = q.added_count + 1;
  free_slots = q.free_slots - 1;
  lock = q.lock + 1;
  used = q.used + 1;
}

unfoldable pub pop_enter : Queue → Option Queue
pop_enter q =
    if ltb 0 q.used && ltb 0 q.lock
    then some (record q { used = q.used - 1; lock = q.lock - 1 })
    else none

unfoldable pub pop_leave : Queue → ℕ × Queue
pop_leave q = (
  get_or q.buffer q.head 0,
  record q {
    head = (q.head + 1) % max_queue_size;
    removed_count = q.removed_count + 1;
    free_slots = q.free_slots + 1;
    lock = q.lock + 1;
    free = q.free + 1;
  },
)

-- The numbers of `print_status`: used, free, added, removed.
unfoldable pub print_status : Queue → ℕ × ℕ × ℕ × ℕ
print_status q = (max_queue_size - q.free_slots, q.free_slots, q.added_count, q.removed_count)
