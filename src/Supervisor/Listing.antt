-- ===== src/Supervisor/Listing.antt =====
-- `ListChild` of lab03/src/parent.c: what it prints after any commands and exits of children.
use osi_s.Prelude.{
  ℕ, zero, suc, ◌+◌, ◌-◌, Bool, true, false, none, some, List, [], ◌∷◌, ◌++◌, map, ◌==◌,
  if◌then◌else◌, length, take,
}
use osi_s.Supervisor.{
  ProcessInfo, Parent, child, Input, plus, minus, list, kill_all, other, stop, start, exited,
  command, parse_index,
}
use osi_s.Supervisor.Reap.{without}
use osi_s.Supervisor.Commands.{flag}

-- A line that `ListChild` prints, with the values in it.
pub data Line : Type 0 where
  parent_pid no_children : Line
  child_line : (name pid : ℕ) (is_running : Bool) → Line

abbrev pub line_of : ProcessInfo → Line
line_of c = child_line c.name c.pid c.is_running

unfoldable pub list_loop : ℕ → ℕ → Parent → List Line
list_loop zero i p = []
list_loop (suc n) i p = line_of (child p i) ∷ list_loop n (i + 1) p

unfoldable pub list_child : Parent → List Line
list_child p =
    parent_pid
    ∷ (if p.child_processes_size == 0
        then no_children ∷ []
        else list_loop p.child_processes_size 0 p)

-- What is printed of a list of children.
unfoldable pub shown : List ProcessInfo → List Line
shown [] = parent_pid ∷ no_children ∷ []
shown (c ∷ cs) = parent_pid ∷ line_of c ∷ map line_of cs

abbrev pub reaped : List ℕ → List ProcessInfo → List ProcessInfo
reaped [] cs = cs
reaped (pid ∷ pids) cs = reaped pids (without pid cs)

-- What a command means for the list of children: a new child comes last and has the number of
-- children as its name, '-' takes the last one off, a start or stop sets the flag of one place, and
-- an exit takes the first child of that number out.
unfoldable pub on_children : Input → List ProcessInfo → List ProcessInfo
on_children (plus none) cs = cs
on_children (plus (some pid)) cs =
    cs ++ (record { pid = pid; name = length cs; is_running = false } ∷ [])
on_children minus cs = take (length cs - 1) cs
on_children list cs = cs
on_children kill_all cs = []
on_children other cs = cs
on_children (stop line) cs = flag (parse_index line) false cs
on_children (start line) cs = flag (parse_index line) true cs
on_children (exited pids) cs = reaped pids cs

-- The commands of a run, one after the other, in the parent and on a list.
unfoldable pub run : List Input → Parent → Parent
run [] p = p
run (input ∷ inputs) p = run inputs (command input p).0

unfoldable pub run_children : List Input → List ProcessInfo → List ProcessInfo
run_children [] cs = cs
run_children (input ∷ inputs) cs = run_children inputs (on_children input cs)
