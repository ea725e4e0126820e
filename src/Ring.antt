-- ===== src/Ring.antt =====
-- The message ring that lab05/src/5.2/queue.c and lab05/src/5.1/queue.c share: the fields of
-- `Queue` without its locks, and the bodies of its critical sections. A message is its address.
pub mod Contents
pub mod Copy
pub mod Laws
use osi_s.Prelude.{ℕ, zero, suc, ◌+◌, ◌-◌, ◌%◌, List, [], ◌∷◌, get_or, set, replicate}

-- `Queue` (lab05/src/5.2/queue.h). The ints count threads' calls and key presses and stay far
-- below 2^31, so they are plain numbers; `count - 1` runs only behind a test of `count`.
pub record Ring : Type 0 where
  pub buffer : List ℕ
  pub capacity : ℕ
  pub head : ℕ
  pub tail : ℕ
  pub count : ℕ
  pub added_count : ℕ
  pub removed_count : ℕ

abbrev pub initial_queue_capacity : ℕ
initial_queue_capacity = 4

-- `malloc` of `n` slots; no slot is read before it is written.
abbrev pub alloc : ℕ → List ℕ
alloc n = replicate n 0

-- `queue_init`
abbrev pub queue_init : Ring
queue_init = record {
  buffer = alloc initial_queue_capacity;
  capacity = initial_queue_capacity;
  head = 0;
  tail = 0;
  count = 0;
  added_count = 0;
  removed_count = 0;
}

-- The section of `queue_push` that stores the message.
unfoldable pub put : ℕ → Ring → Ring
put msg q = record q {
  buffer = set q.buffer q.tail msg;
  tail = (q.tail + 1) % q.capacity;
  count = q.count + 1;
  added_count = q.added_count + 1;
}

-- The section of `queue_pop` that takes the message.
unfoldable pub get : Ring → ℕ × Ring
get q = (
  get_or q.buffer q.head 0,
  record q {
    head = (q.head + 1) % q.capacity;
    count = q.count - 1;
    removed_count = q.removed_count + 1;
  },
)

-- `for (i..count) newbuf[i] = buffer[(head + i) % oldcap]`, with the rounds left first.
pub copy_loop : ℕ → Ring → ℕ → List ℕ → List ℕ
copy_loop zero q i newbuf = newbuf
copy_loop (suc n) q i newbuf =
    copy_loop n q (i + 1) (set newbuf i (get_or q.buffer ((q.head + i) % q.capacity) 0))

-- The reallocation that both resizes end with.
unfoldable pub resize : ℕ → Ring → Ring
unfolding copy_loop
resize newcap q = record q {
  buffer = copy_loop q.count q 0 (alloc newcap);
  capacity = newcap;
  head = 0;
  tail = q.count;
}

-- The loop of `queue_destroy` over the messages that are left; the result is what `free` gets.
unfoldable pub drain : ℕ → Ring → List ℕ × Ring
drain zero q = ([], q)
drain (suc n) q =
    let msg = get_or q.buffer q.head 0 in
    let (freed, q') =
      drain n (record q { head = (q.head + 1) % q.capacity; count = q.count - 1 }) in
    (msg ∷ freed, q')
