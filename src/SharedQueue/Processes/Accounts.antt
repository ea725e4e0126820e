-- ===== src/SharedQueue/Processes/Accounts.antt =====
-- How lab04/src/main.c keeps account of its processes: each table by itself.
use osi_s.Prelude.{
  ℕ, zero, suc, ◌+◌, ◌≤◌, ◌≡◌, refl, ◌∙◌, List, [], ◌∷◌, ◌++◌, ◌==◌, if◌then◌else◌, leb, length,
  length-set, arith, Bool-cases, inl, inr, Option, none, some,
}
use osi_s.CondQueue.Threads.Accounts.{listed, listed_one, listed_created}
use osi_s.SharedQueue.Processes.{
  max_procs, Call, forked, killed, waited, Table, Main, create, remove_last, remove_table,
}

-- How often a pid is forked, killed and waited for in a trace.
abbrev pub forks : ℕ → List Call → ℕ
forks pid [] = 0
forks pid (forked x ∷ calls) = (if x == pid then 1 else 0) + forks pid calls
forks pid (_ ∷ calls) = forks pid calls

abbrev pub kills : ℕ → List Call → ℕ
kills pid [] = 0
kills pid (killed x ∷ calls) = (if x == pid then 1 else 0) + kills pid calls
kills pid (_ ∷ calls) = kills pid calls

abbrev pub waits : ℕ → List Call → ℕ
waits pid [] = 0
waits pid (waited x ∷ calls) = (if x == pid then 1 else 0) + waits pid calls
waits pid (_ ∷ calls) = waits pid calls

pub record IsTable (t : Table) : Type 0 where
  pub len : length t.pids ≡ max_procs
  pub max : t.count ≤ max_procs

-- What stands in a table before a trace and is forked in it is killed or stands in it after.
abbrev pub Keeps : Table → Table × List Call → Type 0
Keeps t r =
    IsTable r.0
    × ((pid : ℕ)
        → (listed pid t.pids t.count + forks pid r.1
            ≡ listed pid r.0.pids r.0.count + kills pid r.1)
          × (kills pid r.1 ≡ waits pid r.1))

abbrev pub held : ℕ → Main → ℕ
held pid m =
    listed pid m.producers.pids m.producers.count + listed pid m.consumers.pids m.consumers.count

abbrev pub Accounts : Main → Main × List Call → Type 0
Accounts m r =
    IsTable r.0.producers
    × IsTable r.0.consumers
    × ((pid : ℕ)
        → (held pid m + forks pid r.1 ≡ held pid r.0 + kills pid r.1)
          × (kills pid r.1 ≡ waits pid r.1))

pub forks-append : (pid : ℕ) (a b : List Call) → forks pid (a ++ b) ≡ forks pid a + forks pid b
forks-append pid [] b = omega arith
forks-append pid (forked x ∷ a) b = omega (arith, forks-append pid a b)
forks-append pid (killed x ∷ a) b = forks-append pid a b
forks-append pid (waited x ∷ a) b = forks-append pid a b

pub kills-append : (pid : ℕ) (a b : List Call) → kills pid (a ++ b) ≡ kills pid a + kills pid b
kills-append pid [] b = omega arith
kills-append pid (killed x ∷ a) b = omega (arith, kills-append pid a b)
kills-append pid (forked x ∷ a) b = kills-append pid a b
kills-append pid (waited x ∷ a) b = kills-append pid a b

pub waits-append : (pid : ℕ) (a b : List Call) → waits pid (a ++ b) ≡ waits pid a + waits pid b
waits-append pid [] b = omega arith
waits-append pid (waited x ∷ a) b = omega (arith, waits-append pid a b)
waits-append pid (killed x ∷ a) b = waits-append pid a b
waits-append pid (forked x ∷ a) b = waits-append pid a b

pub Keeps-nil : (t : Table) → IsTable t → Keeps t (t, [])
Keeps-nil t v = (v, λ pid. (refl, refl))

pub create-Keeps : (fork : Option ℕ) (t : Table) → IsTable t → Keeps t (create fork t)
unfolding create
create-Keeps none t v = elim (Bool-cases (leb max_procs t.count)) [
  | inl full ↦ rw full (Keeps-nil t v)
  | inr room ↦ rw room (Keeps-nil t v)
]
create-Keeps (some x) t v = elim (Bool-cases (leb max_procs t.count)) [
  | inl full ↦ rw full (Keeps-nil t v)
  | inr room ↦ rw room (
    record { len = length-set t.pids t.count x ∙ v.len; max = ground arith },
    λ pid. (omega (arith, listed_created pid t.pids t.count x (ground (arith, v.len))), refl),
  )
]

pub remove_last-Keeps : (t : Table) → IsTable t → Keeps t (remove_last t)
unfolding remove_last
remove_last-Keeps t v = elim (Bool-cases (t.count == 0)) [
  | inl empty ↦ rw empty (Keeps-nil t v)
  | inr busy ↦ rw busy (
    record { len = v.len; max = omega (arith, v.max) },
    λ pid. (omega (arith, listed_one pid t.pids t.count (ground arith)), refl),
  )
]

pub Keeps-append :
    (t u w : Table) (a b : List Call) → Keeps t (u, a) → Keeps u (w, b) → Keeps t (w, a ++ b)
Keeps-append t u w a b f g = (
  g.0,
  λ pid. (
    omega
        (arith, f.1 pid, g.1 pid, forks-append pid a b, kills-append pid a b, waits-append pid a b),
    omega
        (arith, f.1 pid, g.1 pid, forks-append pid a b, kills-append pid a b, waits-append pid a b),
  ),
)

pub remove_table-Keeps : (n : ℕ) (t : Table) → IsTable t → Keeps t (remove_table n t)
unfolding remove_table
remove_table-Keeps zero t v = Keeps-nil t v
remove_table-Keeps (suc n) t v =
    let one = remove_last-Keeps t v in
    Keeps-append t _ _ (remove_last t).1 _ one (remove_table-Keeps n (remove_last t).0 one.0)

pub remove_table-empty : (n : ℕ) (t : Table) → t.count ≡ n → (remove_table n t).0.count ≡ 0
unfolding remove_table remove_last
remove_table-empty zero t e = e
remove_table-empty (suc n) t e = remove_table-empty n (remove_last t).0 (ground arith)
