-- ===== src/Supervisor.antt =====
-- lab03/src/parent.c: the table of child processes and the commands that work on it. The calls of
-- `fork`, `sigqueue`, `kill` and `waitpid` are the system's: a new process number and the numbers
-- of the processes that have exited are inputs, the signals sent are outputs.
pub mod Table
pub mod Reap
pub mod Commands
pub mod Listing
use osi_s.Prelude.{
  ℕ, zero, suc, ◌+◌, ◌-◌, ◌*◌, ◌%◌, ◌^◌, List, [], ◌∷◌, ◌++◌, Bool, true, false, Option, none, some,
  ◌==◌, if◌then◌else◌, ltb, leb, ◌&&◌, get_or, set, take, length, replicate,
}

abbrev pub capacity : ℕ
capacity = 8

-- `name` is the number that is printed into "C_%02d".
pub record ProcessInfo : Type 0 where
  pub pid : ℕ
  pub name : ℕ
  pub is_running : Bool

abbrev pub blank : ProcessInfo
blank = record { pid = 0; name = 0; is_running = false }

-- The globals of parent.c; `child_processes` is an array of `child_processes_capacity` entries.
pub record Parent : Type 0 where
  pub child_processes : List ProcessInfo
  pub child_processes_size : ℕ
  pub child_processes_capacity : ℕ

pub data Signal : Type 0 where
  sigusr1 sigusr2 sigterm : Signal

-- What the parent does to a process.
pub data Effect : Type 0 where
  sent : ℕ → Signal → Effect
  waited : ℕ → Effect

abbrev pub init : Parent
init = record {
  child_processes = replicate capacity blank;
  child_processes_size = 0;
  child_processes_capacity = capacity;
}

abbrev pub child : Parent → ℕ → ProcessInfo
child p i = get_or p.child_processes i blank

-- `realloc` to twice the capacity where the table is full; the new entries are not read before
-- they are written.
abbrev pub reserve : Parent → Parent
reserve p =
    if leb p.child_processes_capacity p.child_processes_size
    then record p {
      child_processes = p.child_processes ++ replicate p.child_processes_capacity blank;
      child_processes_capacity = p.child_processes_capacity * 2;
    }
    else p

-- `CreateChild` in the parent; `none` is a `fork` that failed.
unfoldable pub create_child : Option ℕ → Parent → Parent
create_child none p = p
create_child (some pid) p =
    let q = reserve p in
    let n = q.child_processes_size in
    record q {
      child_processes =
          set q.child_processes n (record { pid = pid; name = n; is_running = false });
      child_processes_size = n + 1;
    }

unfoldable pub start_child : ℕ → Parent → Parent × List Effect
start_child index p = if leb p.child_processes_size index then (p, []) else (
  record p {
    child_processes = set p.child_processes index (record (child p index) { is_running = true });
  },
  sent (child p index).pid sigusr2 ∷ [],
)

unfoldable pub stop_child : ℕ → Parent → Parent × List Effect
stop_child index p = if leb p.child_processes_size index then (p, []) else (
  record p {
    child_processes = set p.child_processes index (record (child p index) { is_running = false });
  },
  sent (child p index).pid sigusr1 ∷ [],
)

unfoldable pub delete_last_child : Parent → Parent × List Effect
delete_last_child p = if p.child_processes_size == 0 then (p, []) else (
  record p { child_processes_size = p.child_processes_size - 1 },
  sent (child p (p.child_processes_size - 1)).pid sigterm ∷ [],
)

-- `while (child_processes_size > 0) DeleteLastChild();`, with SIGCHLD blocked, so that no reaping
-- comes between.
pub delete_loop : ℕ → Parent → Parent × List Effect
delete_loop zero p = (p, [])
delete_loop (suc n) p =
    let (q, effects) = delete_last_child p in
    let (q', rest) = delete_loop n q in (q', effects ++ rest)

unfoldable pub delete_all_child : Parent → Parent × List Effect
unfolding delete_loop
delete_all_child p = delete_loop p.child_processes_size p

-- `WaitChild`
pub wait_loop : ℕ → Parent → Parent × List Effect
wait_loop zero p = (p, [])
wait_loop (suc n) p =
    let pid = (child p (p.child_processes_size - 1)).pid in
    let (q, rest) = wait_loop n (record p { child_processes_size = p.child_processes_size - 1 }) in
    (q, waited pid ∷ rest)

unfoldable pub wait_child : Parent → Parent × List Effect
unfolding wait_loop
wait_child p = wait_loop p.child_processes_size p

-- `CleanExit` up to `exit`.
unfoldable pub clean_exit : Parent → Parent × List Effect
clean_exit p =
    let (q, deleted) = delete_all_child p in let (q', rest) = wait_child q in (q', deleted ++ rest)

-- The search of `HandleExitChild` for an exited process, with the entries left first.
pub find_pid : ℕ → ℕ → Parent → ℕ → Option ℕ
find_pid zero i p pid = none
find_pid (suc n) i p pid =
    let rest = find_pid n (i + 1) p pid in if (child p i).pid == pid then some i else rest

-- `for (j = i; j < size - 1; j++) child_processes[j] = child_processes[j + 1]`
pub shift : ℕ → ℕ → List ProcessInfo → List ProcessInfo
shift zero j children = children
shift (suc n) j children = shift n (j + 1) (set children j (get_or children (j + 1) blank))

abbrev pub remove_found : Parent → Option ℕ → Parent
remove_found p none = p
remove_found p (some i) = record p {
  child_processes = shift (p.child_processes_size - 1 - i) i p.child_processes;
  child_processes_size = p.child_processes_size - 1;
}

-- `HandleExitChild` for one process that `waitpid` returns.
unfoldable pub reap : ℕ → Parent → Parent
unfolding find_pid shift
reap pid p = remove_found p (find_pid p.child_processes_size 0 p pid)

-- `HandleExitChild` for all processes that have exited.
unfoldable pub handle_exit_child : List ℕ → Parent → Parent
unfolding reap
handle_exit_child [] p = p
handle_exit_child (pid ∷ pids) p = handle_exit_child pids (reap pid p)

-- `HandleSignal`: a child that asks to print, by SIGUSR1, is told to resume.
unfoldable pub handle_signal : Signal → ℕ → List Effect
handle_signal sigusr1 child_pid = sent child_pid sigusr2 ∷ []
handle_signal _ child_pid = []

-- The second byte of the input line as an index, -1 without one; a size_t parameter takes it
-- modulo 2^64.
unfoldable pub parse_index : List ℕ → ℕ
parse_index (option ∷ digit ∷ line) =
    if leb b'0' digit && leb digit b'9' then digit - b'0' else 2 ^ 64 - 1
parse_index line = 2 ^ 64 - 1

-- The commands of `main`, and what may come between them: SIGCHLD with the exited processes.
pub data Input : Type 0 where
  plus : Option ℕ → Input
  minus list kill_all other : Input
  stop start : List ℕ → Input
  exited : List ℕ → Input

unfoldable pub command : Input → Parent → Parent × List Effect
command (plus pid) p = (create_child pid p, [])
command minus p = delete_last_child p
command list p = (p, [])
command kill_all p = delete_all_child p
command other p = (p, [])
command (stop line) p = stop_child (parse_index line) p
command (start line) p = start_child (parse_index line) p
command (exited pids) p = (handle_exit_child pids p, [])

-- The loop of `main` until the command 'q', which is `clean_exit`.
pub main_loop : List Input → Parent → Parent × List Effect
main_loop [] p = clean_exit p
main_loop (input ∷ inputs) p =
    let (q, effects) = command input p in
    let (q', rest) = main_loop inputs q in (q', effects ++ rest)
