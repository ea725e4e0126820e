-- ===== src/Supervisor/Reap.antt =====
-- `HandleExitChild` of lab03/src/parent.c on the list of live entries.
use osi_s.Prelude.{
  ℕ, zero, suc, ◌+◌, ◌-◌, ◌≤◌, ◌<◌, ◌≡◌, ◌≢◌, refl, sym, ap, ◌∙◌, List, [], ◌∷◌, none, some, ◌==◌,
  if◌then◌else◌, ltb, get_or, set, take, length, length-set, length-take, get_or-set_self,
  get_or-set_ne, ℕ_discrete, arith, Bool-cases, inl, inr, Option-cases,
}
use osi_s.Supervisor.{ProcessInfo, blank, Parent, child, find_pid, shift, remove_found, reap}
use osi_s.Supervisor.Table.{IsTable, live, list_ext, get_or-take}

-- The children without the first of that number.
abbrev pub without : ℕ → List ProcessInfo → List ProcessInfo
without pid [] = []
without pid (c ∷ cs) = if c.pid == pid then cs else c ∷ without pid cs

abbrev remove_at : ℕ → List ProcessInfo → List ProcessInfo
remove_at i [] = []
remove_at zero (c ∷ cs) = cs
remove_at (suc i) (c ∷ cs) = c ∷ remove_at i cs

length-remove_at :
    (i : ℕ) (cs : List ProcessInfo) → i < length cs → length (remove_at i cs) + 1 ≡ length cs
length-remove_at i [] h = absurd (omega arith)
length-remove_at zero (c ∷ cs) h = omega arith
length-remove_at (suc i) (c ∷ cs) h = omega (arith, length-remove_at i cs (omega arith))

get_or-remove_at :
    (i k : ℕ) (cs : List ProcessInfo)
    → get_or (remove_at i cs) k blank ≡ get_or cs (if ltb k i then k else k + 1) blank
get_or-remove_at i k [] = refl
get_or-remove_at zero k (c ∷ cs) = ap (λ n. get_or (c ∷ cs) n blank) {x = suc k} (ground arith)
get_or-remove_at (suc i) zero (c ∷ cs) = ap (λ n. get_or (c ∷ cs) n blank) {x = zero} (ground arith)
get_or-remove_at (suc i) (suc k) (c ∷ cs) =
    get_or-remove_at i k cs
    ∙ ap (λ n. get_or (c ∷ cs) n blank) {x = suc (if ltb k i then k else k + 1)} (ground arith)

without-remove_at :
    (pid i : ℕ) (cs : List ProcessInfo)
    → i < length cs
    → (get_or cs i blank).pid ≡ pid
    → ((k : ℕ) → k < i → (get_or cs k blank).pid ≢ pid)
    → without pid cs ≡ remove_at i cs
without-remove_at pid i [] h e n = absurd (omega arith)
without-remove_at pid zero (c ∷ cs) h e n = ground arith
without-remove_at pid (suc i) (c ∷ cs) h e n = ground (
  arith,
  n 0 (omega arith),
  without-remove_at pid i cs (omega arith) e (λ k b. n (suc k) (omega arith)),
)

without_absent :
    (pid : ℕ) (cs : List ProcessInfo)
    → ((k : ℕ) → k < length cs → (get_or cs k blank).pid ≢ pid)
    → without pid cs ≡ cs
without_absent pid [] n = refl
without_absent pid (c ∷ cs) n =
    ground (arith, n 0 (omega arith), without_absent pid cs (λ k b. n (suc k) (omega arith)))

-- Where the search ends.
find_none :
    (n i : ℕ) (p : Parent) (pid : ℕ)
    → find_pid n i p pid ≡ none
    → (k : ℕ) → i ≤ k
    → k < i + n
    → (child p k).pid ≢ pid
unfolding find_pid
find_none zero i p pid h k a b = absurd (omega arith)
find_none (suc n) i p pid h k a b = elim (ℕ_discrete i k) [
  | yes e ↦ λ q. ground (arith, ap (λ j. (child p j).pid) e)
  | no ne ↦ find_none n (i + 1) p pid (ground arith) k (omega arith) (omega arith)
]

record Hit (n i : ℕ) (p : Parent) (pid j : ℕ) : Type 0 where
  from : i ≤ j
  until : j < i + n
  here : (child p j).pid ≡ pid
  first : (k : ℕ) → i ≤ k → k < j → (child p k).pid ≢ pid

find_some : (n i : ℕ) (p : Parent) (pid j : ℕ) → find_pid n i p pid ≡ some j → Hit n i p pid j
unfolding find_pid
find_some zero i p pid j h = absurd (ground arith)
find_some (suc n) i p pid j h = elim (Bool-cases ((child p i).pid == pid)) [
  | inl e ↦
      let q : i ≡ j = ground arith in
      record {
        from = omega arith;
        until = omega arith;
        here = ap (λ k. (child p k).pid) (sym q) ∙ ground arith;
        first = λ k a b. absurd (omega arith);
      }
  | inr e ↦
      let later = find_some n (i + 1) p pid j (ground arith) in
      record {
        from = omega (arith, later.from);
        until = omega (arith, later.until);
        here = later.here;
        first = λ k a b. elim (ℕ_discrete i k) [
          | yes same ↦ λ q. ground (arith, ap (λ m. (child p m).pid) same)
          | no ne ↦ later.first k (omega arith) b
        ];
      }
]

-- Every entry after the gap moves down by one.
get_or-shift :
    (n j : ℕ) (cs : List ProcessInfo) (k : ℕ)
    → j + n ≤ length cs
    → get_or (shift n j cs) k blank
      ≡ get_or cs (if ltb k j then k else if ltb k (j + n) then k + 1 else k) blank
unfolding shift
get_or-shift zero j cs k h = ap (λ m. get_or cs m blank) {x = k} (ground arith)
get_or-shift (suc n) j cs k h =
    let next = get_or cs (j + 1) blank in
    let moved = set cs j next in
    let rest = get_or-shift n (j + 1) moved k (omega (arith, length-set cs j next)) in
    elim (ℕ_discrete j k) [
      | yes e ↦
          rest
          ∙ ap (λ m. get_or moved m blank) {y = j} (ground arith)
          ∙ get_or-set_self cs j next blank (omega arith)
          ∙ ap (λ m. get_or cs m blank) {x = j + 1} (ground arith)
      | no ne ↦
          let at = if ltb k (j + 1) then k else if ltb k (j + 1 + n) then k + 1 else k in
          rest
          ∙ get_or-set_ne cs j at next blank (λ e. ground arith)
          ∙ ap (λ m. get_or cs m blank) {x = at} (ground arith)
    ]

length-shift : (n j : ℕ) (cs : List ProcessInfo) → length (shift n j cs) ≡ length cs
unfolding shift
length-shift zero j cs = refl
length-shift (suc n) j cs = length-shift n (j + 1) _ ∙ length-set cs j (get_or cs (j + 1) blank)

shift-remove_at :
    (p : Parent) (i : ℕ)
    → IsTable p
    → i < p.child_processes_size
    → live (remove_found p (some i)) ≡ remove_at i (live p)
shift-remove_at p i t h = list_ext _ _ (omega (arith, long, long')) λ k b.
    get_or-take (size - 1) k moved (omega (arith, long))
    ∙ get_or-shift (size - 1 - i) i p.child_processes k (omega (arith, t.storage, t.fits))
    ∙ ap (λ m. get_or p.child_processes m blank) {y = if ltb k i then k else k + 1}
        (ground (arith, long))
    ∙ sym (get_or-take size (if ltb k i then k else k + 1) p.child_processes (ground (arith, long)))
    ∙ sym (get_or-remove_at i k (live p))
  where
    size : ℕ
    size = p.child_processes_size

    moved : List ProcessInfo
    moved = shift (size - 1 - i) i p.child_processes

    long : length (take (size - 1) moved) ≡ size - 1
    long = omega (
      arith,
      length-take (size - 1) moved,
      length-shift (size - 1 - i) i p.child_processes,
      t.storage,
      t.fits,
    )

    whole : length (live p) ≡ size
    whole = omega (arith, length-take size p.child_processes, t.storage, t.fits)

    long' : length (remove_at i (live p)) + 1 ≡ size
    long' = omega (arith, length-remove_at i (live p) (omega (arith, whole)), whole)

-- An exited process leaves the table of children: the first entry with its number is gone, the
-- others keep their order, and a number that is not in the table changes nothing.
pub live-reap :
    (pid : ℕ) (p : Parent)
    → IsTable p
    → IsTable (reap pid p) × (live (reap pid p) ≡ without pid (live p))
unfolding reap
live-reap pid p t = elim (Option-cases (find_pid p.child_processes_size 0 p pid)) [
  | inl e ↦ rw e (
    t,
    sym (
        without_absent pid (live p) λ k b q.
          find_none p.child_processes_size 0 p pid e k (omega arith) (omega (arith, whole))
            (sym (entry k (omega (arith, whole))) ∙ q)),
  )
  | inr found ↦
      let i = found.0 in
      let hit = find_some p.child_processes_size 0 p pid i found.1 in
      rw (found.1) (
        record {
          storage = length-shift (p.child_processes_size - 1 - i) i p.child_processes ∙ t.storage;
          fits = omega (arith, t.fits);
          some_room = t.some_room;
        },
        shift-remove_at p i t (omega (arith, hit.until))
            ∙ sym (
                without-remove_at pid i (live p) (omega (arith, hit.until, whole))
                  (entry i (omega (arith, hit.until)) ∙ hit.here)
                  (λ k b q.
                    hit.first k (omega arith) b (sym (entry k (omega (arith, hit.until))) ∙ q))),
      )
]
  where
    whole : length (live p) ≡ p.child_processes_size
    whole = omega (arith, length-take p.child_processes_size p.child_processes, t.storage, t.fits)

    entry : (k : ℕ) → k < p.child_processes_size → (get_or (live p) k blank).pid ≡ (child p k).pid
    entry k b =
        ap (λ (c : ProcessInfo). c.pid) (get_or-take p.child_processes_size k p.child_processes b)
