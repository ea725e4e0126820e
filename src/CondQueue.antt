-- ===== src/CondQueue.antt =====
-- lab05/src/5.2/queue.c: the queue guarded by a mutex and two condition variables. A call holds
-- the mutex except inside `pthread_cond_wait`, so it is a series of attempts, each atomic: an
-- attempt waits, with nothing changed, or it returns. A waiting thread may try again at any time,
-- which covers signals, broadcasts and spurious wakeups.
pub mod Spec
pub mod World
pub mod Threads
use osi_s.Prelude.{ℕ, ◌+◌, ◌-◌, List, Bool, not, ◌&&◌, Option, none, some, if◌then◌else◌, ◌==◌, leb}
use osi_s.Ring.{Ring, put, get, resize, drain}

-- The results of `queue_push`, 0 and -1.
pub data Status : Type 0 where
  added refused : Status

-- One attempt of a call: it goes to sleep in `pthread_cond_wait`, or returns.
pub data Attempt {ℓ} (A Q : Type ℓ) : Type ℓ where
  waits : Attempt A Q
  returns : A → Q → Attempt A Q

unfoldable pub queue_push : Bool → ℕ → Ring → Attempt Status Ring
queue_push running msg q =
    if q.count == q.capacity && running
    then waits
    else if not running
    then returns refused q
    else returns added (put msg q)

unfoldable pub queue_pop : Bool → Ring → Attempt (Option ℕ) Ring
queue_pop running q =
    if q.count == 0 && running
    then waits
    else if not running && q.count == 0
    then returns none q
    else let (msg, q') = get q in returns (some msg) q'

unfoldable pub queue_resize_increase : Ring → Ring
queue_resize_increase q = resize (q.capacity + 1) q

unfoldable pub queue_resize_decrease : Ring → Ring
queue_resize_decrease q =
    if leb q.capacity 1
    then q
    else if leb (q.capacity - 1) q.count
    then q
    else resize (q.capacity - 1) q

-- `while (q->count > 0)`: the messages that `free` gets, in order, and the queue left.
unfoldable pub queue_destroy : Ring → List ℕ × Ring
queue_destroy q = drain q.count q
