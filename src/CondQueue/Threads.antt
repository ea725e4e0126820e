-- ===== src/CondQueue/Threads.antt =====
-- lab05/src/5.2/main.c: the main thread, its tables of producers and consumers, and its command
-- loop. The thread and signalling calls that it makes are a trace. `pthread_create` is the
-- system's: the number that it stores comes with each command. The runs are those in which every
-- `pthread_create` succeeds, which the code does not test, and every `pthread_join` returns, which it
-- does not where the thread waits forever (CondQueue/World/Progress).
pub mod Joins
pub mod Accounts
use osi_s.Prelude.{
  ℕ, zero, suc, ◌+◌, ◌-◌, List, [], ◌∷◌, ◌++◌, Bool, true, false, ◌==◌, if◌then◌else◌, leb, get_or,
  set, replicate,
}
use osi_s.Ring.{Ring, queue_init}
use osi_s.CondQueue.{queue_resize_increase, queue_resize_decrease, queue_destroy}

abbrev pub max_prods : ℕ
max_prods = 6

pub data Call : Type 0 where
  created joined cancelled : ℕ → Call
  broadcast_not_full broadcast_not_empty : Call

-- The globals of main.c.
pub record Main : Type 0 where
  pub producers : List ℕ
  pub prod_count : ℕ
  pub consumers : List ℕ
  pub cons_count : ℕ
  pub running : Bool
  pub queue : Ring

abbrev pub init : Main
init = record {
  producers = replicate max_prods 0;
  prod_count = 0;
  consumers = replicate max_prods 0;
  cons_count = 0;
  running = true;
  queue = queue_init;
}

unfoldable pub create_producer : ℕ → Main → Main × List Call
create_producer thread m = if leb max_prods m.prod_count then (m, []) else (
  record m { producers = set m.producers m.prod_count thread; prod_count = m.prod_count + 1 },
  created thread ∷ [],
)

unfoldable pub create_consumer : ℕ → Main → Main × List Call
create_consumer thread m = if leb max_prods m.cons_count then (m, []) else (
  record m { consumers = set m.consumers m.cons_count thread; cons_count = m.cons_count + 1 },
  created thread ∷ [],
)

unfoldable pub remove_last_producer : Main → Main × List Call
remove_last_producer m =
    let last = get_or m.producers (m.prod_count - 1) 0 in
    if m.prod_count == 0 then (m, []) else (
      record m { prod_count = m.prod_count - 1 },
      broadcast_not_full ∷ cancelled last ∷ joined last ∷ [],
    )

unfoldable pub remove_last_consumer : Main → Main × List Call
remove_last_consumer m =
    let last = get_or m.consumers (m.cons_count - 1) 0 in
    if m.cons_count == 0 then (m, []) else (
      record m { cons_count = m.cons_count - 1 },
      broadcast_not_empty ∷ cancelled last ∷ joined last ∷ [],
    )

-- `while (prod_count > 0) remove_last_producer();`, on as many rounds as there are producers.
pub remove_producers : ℕ → Main → Main × List Call
remove_producers zero m = (m, [])
remove_producers (suc n) m =
    let (m', calls) = remove_last_producer m in
    let (m'', rest) = remove_producers n m' in (m'', calls ++ rest)

pub remove_consumers : ℕ → Main → Main × List Call
remove_consumers zero m = (m, [])
remove_consumers (suc n) m =
    let (m', calls) = remove_last_consumer m in
    let (m'', rest) = remove_consumers n m' in (m'', calls ++ rest)

unfoldable pub remove_all : Main → Main × List Call
unfolding remove_producers remove_consumers
remove_all m =
    let (m', producers) = remove_producers m.prod_count m in
    let (m'', consumers) = remove_consumers m'.cons_count m' in
    (m'', broadcast_not_empty ∷ broadcast_not_full ∷ (producers ++ consumers))

-- The keys of `main`. `print_status` (key 's') and an unknown key change nothing.
pub data Key : Type 0 where
  p c upper_p upper_c plus minus k s q other : Key

unfoldable pub command : Key → ℕ → Main → Main × List Call
command p thread m = create_producer thread m
command c thread m = create_consumer thread m
command upper_p thread m = remove_last_producer m
command upper_c thread m = remove_last_consumer m
command plus thread m = (record m { queue = queue_resize_increase m.queue }, [])
command minus thread m = (record m { queue = queue_resize_decrease m.queue }, [])
command k thread m = remove_all m
command s thread m = (m, [])
command q thread m = (record m { running = false }, [])
command other thread m = (m, [])

-- `while (running)` over the keys that `scanf` reads, each with the thread that a creation would
-- make; the end of the input ends the loop.
pub loop : List (Key × ℕ) → Main → Main × List Call
loop [] m = (m, [])
loop ((key, thread) ∷ keys) m =
    let (m', calls) = command key thread m in
    let (m'', rest) = loop keys m' in if m.running then (m'', calls ++ rest) else (m, [])

-- `main` from the loop on: the broadcasts, `remove_all`, and what `queue_destroy` frees.
unfoldable pub main : List (Key × ℕ) → Main × List Call × List ℕ
unfolding loop
main keys =
    let (m, calls) = loop keys init in
    let (m', rest) = remove_all m in
    (m', calls ++ (broadcast_not_empty ∷ broadcast_not_full ∷ rest), (queue_destroy m'.queue).0)
