-- ===== src/SharedQueue/Processes/Killed.antt =====
-- The processes of lab04/src/main.c over whole runs of its command loop.
use osi_s.Prelude.{
  ℕ, ◌+◌, ◌≡◌, refl, ap₂, List, [], ◌∷◌, ◌++◌, Bool, true, false, if◌then◌else◌, arith, Option,
}
use osi_s.CondQueue.Threads.Accounts.{listed}
use osi_s.SharedQueue.Processes.{
  Call, Main, init, remove_table, remove_all_procs, Key, p, c, upper_p, upper_c, k, s, q, other,
  command, loop, main,
}
use osi_s.SharedQueue.Processes.Accounts.{
  forks, kills, waits, IsTable, held, Accounts, forks-append, kills-append, waits-append,
  create-Keeps, remove_last-Keeps, remove_table-Keeps, remove_table-empty,
}

Accounts-nil : (m : Main) → IsTable m.producers → IsTable m.consumers → Accounts m (m, [])
Accounts-nil m v w = (v, w, λ pid. (refl, refl))

remove_all_procs-Accounts :
    (m : Main) → IsTable m.producers → IsTable m.consumers → Accounts m (remove_all_procs m)
unfolding remove_all_procs
remove_all_procs-Accounts m v w =
    let one = remove_table-Keeps m.producers.count m.producers v in
    let two = remove_table-Keeps m.consumers.count m.consumers w in
    let a = (remove_table m.producers.count m.producers).1 in
    let b = (remove_table m.consumers.count m.consumers).1 in
    (
      one.0,
      two.0,
      λ pid. (
        omega (
          arith,
          one.1 pid,
          two.1 pid,
          forks-append pid a b,
          kills-append pid a b,
          waits-append pid a b,
        ),
        omega (
          arith,
          one.1 pid,
          two.1 pid,
          forks-append pid a b,
          kills-append pid a b,
          waits-append pid a b,
        ),
      ),
    )

command-Accounts :
    (key : Key) (fork : Option ℕ) (m : Main)
    → IsTable m.producers
    → IsTable m.consumers
    → Accounts m (command key fork m)
unfolding command
command-Accounts p fork m v w =
    let one = create-Keeps fork m.producers v in
    (one.0, w, λ pid. (omega (arith, one.1 pid), omega (arith, one.1 pid)))
command-Accounts c fork m v w =
    let one = create-Keeps fork m.consumers w in
    (v, one.0, λ pid. (omega (arith, one.1 pid), omega (arith, one.1 pid)))
command-Accounts upper_p fork m v w =
    let one = remove_last-Keeps m.producers v in
    (one.0, w, λ pid. (omega (arith, one.1 pid), omega (arith, one.1 pid)))
command-Accounts upper_c fork m v w =
    let one = remove_last-Keeps m.consumers w in
    (v, one.0, λ pid. (omega (arith, one.1 pid), omega (arith, one.1 pid)))
command-Accounts k fork m v w = remove_all_procs-Accounts m v w
command-Accounts s fork m v w = Accounts-nil m v w
command-Accounts q fork m v w = (v, w, λ pid. (refl, refl))
command-Accounts other fork m v w = Accounts-nil m v w

Accounts-append :
    (m m' m'' : Main) (a b : List Call)
    → Accounts m (m', a)
    → Accounts m' (m'', b)
    → Accounts m (m'', a ++ b)
Accounts-append m m' m'' a b (v, w, f) (v', w', g) = (
  v',
  w',
  λ pid. (
    omega (arith, f pid, g pid, forks-append pid a b, kills-append pid a b, waits-append pid a b),
    omega (arith, f pid, g pid, forks-append pid a b, kills-append pid a b, waits-append pid a b),
  ),
)

Accounts-if :
    (b : Bool) (m : Main) (r : Main × List Call)
    → Accounts m r
    → Accounts m (m, [])
    → Accounts m (if b then r else (m, []))
Accounts-if true m r f g = f
Accounts-if false m r f g = g

loop-Accounts :
    (keys : List (Key × Option ℕ)) (m : Main)
    → IsTable m.producers
    → IsTable m.consumers
    → Accounts m (loop keys m)
unfolding loop
loop-Accounts [] m v w = Accounts-nil m v w
loop-Accounts ((key, fork) ∷ keys) m v w =
    let one = command-Accounts key fork m v w in
    let m' = (command key fork m).0 in
    let rest = loop keys m' in
    Accounts-if m.running m (rest.0, (command key fork m).1 ++ rest.1)
      (Accounts-append m m' rest.0 (command key fork m).1 rest.1 one
        (loop-Accounts keys m' one.0 one.1))
      (Accounts-nil m v w)

held_of_empty :
    (pid : ℕ) (m : Main) → m.producers.count ≡ 0 → m.consumers.count ≡ 0 → held pid m ≡ 0
unfolding listed
held_of_empty pid m e f =
    ap₂ (λ a b. listed pid m.producers.pids a + listed pid m.consumers.pids b) e f

-- `main` kills and waits for every process exactly as often as it forked it, whatever keys are
-- typed and whichever forks fail, and the tables end empty.
pub processes_killed :
    (keys : List (Key × Option ℕ)) (pid : ℕ)
    → let (m, calls) = main keys in
      (forks pid calls ≡ kills pid calls)
      × (kills pid calls ≡ waits pid calls)
      × (m.producers.count ≡ 0)
      × (m.consumers.count ≡ 0)
unfolding main remove_all_procs
processes_killed keys pid =
    let v : IsTable init.producers = record { len = refl; max = omega arith } in
    let one = loop-Accounts keys init v v in
    let m = (loop keys init).0 in
    let two = remove_all_procs-Accounts m one.0 one.1 in
    let both =
      Accounts-append init m (remove_all_procs m).0 (loop keys init).1 (remove_all_procs m).1 one
        two in
    let p_gone = remove_table-empty m.producers.count m.producers refl in
    let c_gone = remove_table-empty m.consumers.count m.consumers refl in
    (
      omega (
        arith,
        (both.2 pid).0,
        held_of_empty pid init refl refl,
        held_of_empty pid (remove_all_procs m).0 p_gone c_gone,
      ),
      (both.2 pid).1,
      p_gone,
      c_gone,
    )
