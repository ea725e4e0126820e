-- ===== src/Supervisor/Commands.antt =====
-- The commands of lab03/src/parent.c in any order, with exits of children between them.
use osi_s.Prelude.{
  ℕ, zero, suc, ◌-◌, ◌≤◌, ◌<◌, ◌≡◌, refl, ap, ◌∙◌, List, [], ◌∷◌, ◌++◌, Bool, true, false, Option,
  none, some, leb, get_or, set, take, length-set, append-nil, arith, Bool-cases, inl, inr,
}
use osi_s.Supervisor.{
  ProcessInfo, blank, Parent, child, create_child, start_child, stop_child, delete_last_child,
  delete_loop, delete_all_child, wait_loop, wait_child, clean_exit, reap, handle_exit_child, Effect,
  sent, waited, sigusr1, sigusr2, sigterm, Input, plus, minus, list, kill_all, other, stop, start,
  exited, command, main_loop, parse_index,
}
use osi_s.Supervisor.Table.{IsTable, live, live-create_child, delete_last_child-IsTable}
use osi_s.Supervisor.Reap.{live-reap}

-- The flag of one child, by its place.
abbrev pub flag : ℕ → Bool → List ProcessInfo → List ProcessInfo
flag i b [] = []
flag zero b (c ∷ cs) = record c { is_running = b } ∷ cs
flag (suc i) b (c ∷ cs) = c ∷ flag i b cs

take-flag :
    (n i : ℕ) (b : Bool) (cs : List ProcessInfo)
    → i < n
    → take n (set cs i (record (get_or cs i blank) { is_running = b })) ≡ flag i b (take n cs)
take-flag zero i b cs h = absurd (omega arith)
take-flag (suc n) i b [] h = refl
take-flag (suc n) zero b (c ∷ cs) h = refl
take-flag (suc n) (suc i) b (c ∷ cs) h = ap (◌∷◌ c) (take-flag n i b cs (omega arith))

-- Starting and stopping an index that the table does not have, such as the -1 of a line without one,
-- does nothing: no flag changes and no signal is sent.
pub start_stop_beyond :
    (i : ℕ) (p : Parent)
    → p.child_processes_size ≤ i
    → (start_child i p ≡ (p, [])) × (stop_child i p ≡ (p, []))
unfolding start_child stop_child
start_stop_beyond i p h = elim (Bool-cases (leb p.child_processes_size i)) [
  | inl beyond ↦ rw beyond (refl, refl)
  | inr inside ↦ absurd (ground arith)
]

-- Starting and stopping a child that the table has work on it alone: it gets the signal, and its
-- flag is set.
pub start_stop_lem :
    (i : ℕ) (p : Parent)
    → i < p.child_processes_size
    → (live (start_child i p).0 ≡ flag i true (live p))
      × ((start_child i p).1 ≡ sent (child p i).pid sigusr2 ∷ [])
      × (live (stop_child i p).0 ≡ flag i false (live p))
      × ((stop_child i p).1 ≡ sent (child p i).pid sigusr1 ∷ [])
unfolding start_child stop_child
start_stop_lem i p h = elim (Bool-cases (leb p.child_processes_size i)) [
  | inl beyond ↦ absurd (ground arith)
  | inr inside ↦ rw inside (
    take-flag p.child_processes_size i true p.child_processes h,
    refl,
    take-flag p.child_processes_size i false p.child_processes h,
    refl,
  )
]

start_stop-IsTable :
    (i : ℕ) (p : Parent) → IsTable p → IsTable (start_child i p).0 × IsTable (stop_child i p).0
unfolding start_child stop_child
start_stop-IsTable i p t = elim (Bool-cases (leb p.child_processes_size i)) [
  | inl beyond ↦ rw beyond (t, t)
  | inr inside ↦ rw inside (
    record {
      storage = length-set p.child_processes i _ ∙ t.storage;
      fits = t.fits;
      some_room = t.some_room;
    },
    record {
      storage = length-set p.child_processes i _ ∙ t.storage;
      fits = t.fits;
      some_room = t.some_room;
    },
  )
]

delete_loop-IsTable : (n : ℕ) (p : Parent) → IsTable p → IsTable (delete_loop n p).0
unfolding delete_loop
delete_loop-IsTable zero p t = t
delete_loop-IsTable (suc n) p t =
    delete_loop-IsTable n (delete_last_child p).0 (delete_last_child-IsTable p t)

handle_exit_child-IsTable :
    (pids : List ℕ) (p : Parent) → IsTable p → IsTable (handle_exit_child pids p)
unfolding handle_exit_child
handle_exit_child-IsTable [] p t = t
handle_exit_child-IsTable (pid ∷ pids) p t =
    handle_exit_child-IsTable pids (reap pid p) (live-reap pid p t).0

create_child-IsTable : (pid : Option ℕ) (p : Parent) → IsTable p → IsTable (create_child pid p)
create_child-IsTable none p t = unfold create_child in t
create_child-IsTable (some pid) p t = (live-create_child pid p t).0

-- Every command, and every exit of children, keeps the table inside its storage.
pub command-IsTable : (input : Input) (p : Parent) → IsTable p → IsTable (command input p).0
unfolding command
command-IsTable (plus pid) p t = create_child-IsTable pid p t
command-IsTable minus p t = (delete_last_child-IsTable p t)
command-IsTable list p t = t
command-IsTable kill_all p t =
    unfold delete_all_child in delete_loop-IsTable p.child_processes_size p t
command-IsTable other p t = t
command-IsTable (stop line) p t = (start_stop-IsTable (parse_index line) p t).1
command-IsTable (start line) p t = (start_stop-IsTable (parse_index line) p t).0
command-IsTable (exited pids) p t = handle_exit_child-IsTable pids p t

-- The processes that a trace terminates and waits for.
abbrev pub terminated : List Effect → List ℕ
terminated [] = []
terminated (sent pid sigterm ∷ es) = pid ∷ terminated es
terminated (_ ∷ es) = terminated es

abbrev pub waits : List Effect → List ℕ
waits [] = []
waits (waited pid ∷ es) = pid ∷ waits es
waits (_ ∷ es) = waits es

-- The numbers of the first `n` children, the last first.
abbrev pub pids_from_last : ℕ → List ProcessInfo → List ℕ
pids_from_last zero cs = []
pids_from_last (suc n) cs = (get_or cs n blank).pid ∷ pids_from_last n cs

delete_step :
    (n : ℕ) (p : Parent)
    → p.child_processes_size ≡ suc n
    → delete_last_child p
      ≡ (record p { child_processes_size = n }, sent (child p n).pid sigterm ∷ [])
unfolding delete_last_child
delete_step n p e = ground (arith, ap (λ k. child p (k - 1)) e, last)
  where
    last : child p (suc n - 1) ≡ child p n
    last = ap (child p) {x = suc n - 1} (omega arith)

delete_loop_lem :
    (n : ℕ) (p : Parent)
    → p.child_processes_size ≡ n
    → (terminated (delete_loop n p).1 ≡ pids_from_last n p.child_processes)
      × (waits (delete_loop n p).1 ≡ [])
      × ((delete_loop n p).0.child_processes_size ≡ 0)
unfolding delete_loop
delete_loop_lem zero p e = (refl, refl, e)
delete_loop_lem (suc n) p e =
    let rest = delete_loop_lem n (record p { child_processes_size = n }) refl in
    rw (delete_step n p e) (ap (◌∷◌ ((child p n).pid)) rest.0, rest.1, rest.2)

pub delete_all_child_size : (p : Parent) → (delete_all_child p).0.child_processes_size ≡ 0
unfolding delete_all_child
delete_all_child_size p = (delete_loop_lem p.child_processes_size p refl).2

terminated-append :
    (a b : List Effect)
    → waits b ≡ []
    → terminated b ≡ []
    → (terminated (a ++ b) ≡ terminated a) × (waits (a ++ b) ≡ waits a)
terminated-append [] b w t = (t, w)
terminated-append (waited pid ∷ a) b w t =
    let r = terminated-append a b w t in (r.0, ap (◌∷◌ pid) r.1)
terminated-append (sent pid sigterm ∷ a) b w t =
    let r = terminated-append a b w t in (ap (◌∷◌ pid) r.0, r.1)
terminated-append (sent pid sigusr1 ∷ a) b w t = terminated-append a b w t
terminated-append (sent pid sigusr2 ∷ a) b w t = terminated-append a b w t

-- `WaitChild` on an empty table does nothing.
wait_child_empty : (p : Parent) → p.child_processes_size ≡ 0 → wait_child p ≡ (p, [])
unfolding wait_child
wait_child_empty p e = ap (λ n. wait_loop n p) e ∙ unfold wait_loop in refl

-- `CleanExit` terminates every child on record, the last first, and waits for none: the deletion
-- empties the table before `WaitChild` looks at it.
clean_exit-waits_for_none :
    (p : Parent)
    → (terminated (clean_exit p).1 ≡ pids_from_last p.child_processes_size p.child_processes)
      × (waits (clean_exit p).1 ≡ [])
      × ((clean_exit p).0.child_processes_size ≡ 0)
unfolding clean_exit delete_all_child
clean_exit-waits_for_none p =
    let done = delete_loop_lem p.child_processes_size p refl in
    let q = delete_loop p.child_processes_size p in
    let none_left = wait_child_empty q.0 done.2 in
    rw none_left (rw append-nil done.0, rw append-nil done.1, done.2)

-- Whatever commands come and whatever children exit between them, the table stays inside its
-- storage, and it is empty when the program ends.
main_loop-IsTable :
    (inputs : List Input) (p : Parent)
    → IsTable p
    → IsTable (main_loop inputs p).0 × ((main_loop inputs p).0.child_processes_size ≡ 0)
unfolding main_loop
main_loop-IsTable [] p t = (cleaned, (clean_exit-waits_for_none p).2)
  where
    cleaned : IsTable (clean_exit p).0
    cleaned =
        unfold clean_exit delete_all_child in
        rw
          (wait_child_empty (delete_loop p.child_processes_size p).0
            (delete_loop_lem p.child_processes_size p refl).2)
          (delete_loop-IsTable p.child_processes_size p t)
main_loop-IsTable (input ∷ inputs) p t =
    main_loop-IsTable inputs (command input p).0 (command-IsTable input p t)
