-- ===== src/SharedQueue/Processes.antt =====
-- lab04/src/main.c: the parent, its tables of producers and consumers, and its command loop. The
-- calls on other processes are a trace; what `fork` returns, a pid or a failure, comes with each
-- command. The handler of SIGINT, which only ends the loop, is the key `q`.
pub mod Killed
pub mod Accounts
use osi_s.Prelude.{
  ℕ, zero, suc, ◌+◌, ◌-◌, List, [], ◌∷◌, ◌++◌, Bool, true, false, ◌==◌, if◌then◌else◌, leb, get_or,
  set, replicate, Option, none, some,
}

abbrev pub max_procs : ℕ
max_procs = 4

pub data Call : Type 0 where
  forked killed waited : ℕ → Call

-- `producers` with `prod_count`, or `consumers` with `cons_count`.
pub record Table : Type 0 where
  pub pids : List ℕ
  pub count : ℕ

pub record Main : Type 0 where
  pub producers : Table
  pub consumers : Table
  pub running : Bool

abbrev pub init : Main
init = record {
  producers = record { pids = replicate max_procs 0; count = 0 };
  consumers = record { pids = replicate max_procs 0; count = 0 };
  running = true;
}

abbrev pub added : Option ℕ → Table → Table × List Call
added none t = (t, [])
added (some pid) t =
    (record t { pids = set t.pids t.count pid; count = t.count + 1 }, forked pid ∷ [])

-- `create_producer` on its table; `create_consumer` is the same on the other.
unfoldable pub create : Option ℕ → Table → Table × List Call
create fork t = if leb max_procs t.count then (t, []) else added fork t

-- `remove_last_producer` on its table; `remove_last_consumer` is the same on the other.
unfoldable pub remove_last : Table → Table × List Call
remove_last t =
    let pid = get_or t.pids (t.count - 1) 0 in
    if t.count == 0
    then (t, [])
    else (record t { count = t.count - 1 }, killed pid ∷ waited pid ∷ [])

-- `while (prod_count) remove_last_producer();`, on as many rounds as there are entries.
unfoldable pub remove_table : ℕ → Table → Table × List Call
remove_table zero t = (t, [])
remove_table (suc n) t =
    let (t', calls) = remove_last t in let (t'', rest) = remove_table n t' in (t'', calls ++ rest)

unfoldable pub remove_all_procs : Main → Main × List Call
remove_all_procs m =
    let (p, first) = remove_table m.producers.count m.producers in
    let (c, second) = remove_table m.consumers.count m.consumers in
    (record m { producers = p; consumers = c }, first ++ second)

-- The keys of `main`; `print_status` and an unknown key change nothing.
pub data Key : Type 0 where
  p c upper_p upper_c k s q other : Key

unfoldable pub command : Key → Option ℕ → Main → Main × List Call
command p fork m = let (t, calls) = create fork m.producers in (record m { producers = t }, calls)
command c fork m = let (t, calls) = create fork m.consumers in (record m { consumers = t }, calls)
command upper_p fork m =
    let (t, calls) = remove_last m.producers in (record m { producers = t }, calls)
command upper_c fork m =
    let (t, calls) = remove_last m.consumers in (record m { consumers = t }, calls)
command k fork m = remove_all_procs m
command s fork m = (m, [])
command q fork m = (record m { running = false }, [])
command other fork m = (m, [])

unfoldable pub loop : List (Key × Option ℕ) → Main → Main × List Call
loop [] m = (m, [])
loop ((key, fork) ∷ keys) m =
    let (m', calls) = command key fork m in
    let (m'', rest) = loop keys m' in if m.running then (m'', calls ++ rest) else (m, [])

-- `main` after `queue_init`, up to `queue_destroy`.
unfoldable pub main : List (Key × Option ℕ) → Main × List Call
unfolding loop
main keys =
    let (m, calls) = loop keys init in let (m', rest) = remove_all_procs m in (m', calls ++ rest)
