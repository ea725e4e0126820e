-- ===== src/Supervisor/Table.antt =====
-- The table of lab03/src/parent.c as the list of its live entries: what each operation does to that
-- list.
use osi_s.Prelude.{
  ℕ, zero, suc, ◌+◌, ◌-◌, ◌≤◌, ◌<◌, ◌≡◌, refl, ap, ap₂, ◌∙◌, List, [], ◌∷◌, ◌++◌, false, some, ◌==◌,
  leb, get_or, set, take, length, replicate, length-append, length-set, length-replicate, arith,
  Bool-cases, inl, inr,
}
use osi_s.Supervisor.{
  ProcessInfo, blank, Parent, child, reserve, create_child, delete_last_child, sent, sigterm,
}

pub record IsTable (p : Parent) : Type 0 where
  pub storage : length p.child_processes ≡ p.child_processes_capacity
  pub fits : p.child_processes_size ≤ p.child_processes_capacity
  pub some_room : 0 < p.child_processes_capacity

-- The children on record, in order.
abbrev pub live : Parent → List ProcessInfo
live p = take p.child_processes_size p.child_processes

-- Lists that agree at every index and in length are equal.
pub list_ext :
    (xs ys : List ProcessInfo)
    → length xs ≡ length ys
    → ((k : ℕ) → k < length xs → get_or xs k blank ≡ get_or ys k blank)
    → xs ≡ ys
list_ext [] [] e h = refl
list_ext [] (y ∷ ys) e h = absurd (omega arith)
list_ext (x ∷ xs) [] e h = absurd (omega arith)
list_ext (x ∷ xs) (y ∷ ys) e h =
    ap₂ ◌∷◌ (h 0 (omega arith)) (list_ext xs ys (omega arith) (λ k b. h (suc k) (omega arith)))

pub get_or-take :
    (n k : ℕ) (xs : List ProcessInfo) → k < n → get_or (take n xs) k blank ≡ get_or xs k blank
get_or-take zero k xs h = absurd (omega arith)
get_or-take (suc n) k [] h = refl
get_or-take (suc n) zero (x ∷ xs) h = refl
get_or-take (suc n) (suc k) (x ∷ xs) h = get_or-take n k xs (omega arith)

get_or-append_left :
    (k : ℕ) (xs ys : List ProcessInfo)
    → k < length xs
    → get_or (xs ++ ys) k blank ≡ get_or xs k blank
get_or-append_left k [] ys h = absurd (omega arith)
get_or-append_left zero (x ∷ xs) ys h = refl
get_or-append_left (suc k) (x ∷ xs) ys h = get_or-append_left k xs ys (omega arith)

take-append_left :
    (n : ℕ) (xs ys : List ProcessInfo) → n ≤ length xs → take n (xs ++ ys) ≡ take n xs
take-append_left zero xs ys h = refl
take-append_left (suc n) [] ys h = absurd (omega arith)
take-append_left (suc n) (x ∷ xs) ys h = ap (◌∷◌ x) (take-append_left n xs ys (omega arith))

take-set_end :
    (n : ℕ) (xs : List ProcessInfo) (v : ProcessInfo)
    → n < length xs
    → take (suc n) (set xs n v) ≡ take n xs ++ (v ∷ [])
take-set_end n [] v h = absurd (omega arith)
take-set_end zero (x ∷ xs) v h = refl
take-set_end (suc n) (x ∷ xs) v h = ap (◌∷◌ x) (take-set_end n xs v (omega arith))

reserve-IsTable :
    (p : Parent)
    → IsTable p
    → IsTable (reserve p)
      × (live (reserve p) ≡ live p)
      × ((reserve p).child_processes_size ≡ p.child_processes_size)
      × (p.child_processes_size < (reserve p).child_processes_capacity)
reserve-IsTable p t = elim (Bool-cases (leb p.child_processes_capacity p.child_processes_size)) [
  | inl full ↦ rw full (
    record {
      storage = omega (
        arith,
        t.storage,
        length-append p.child_processes (replicate p.child_processes_capacity blank),
        length-replicate p.child_processes_capacity blank,
      );
      fits = omega (arith, t.fits);
      some_room = omega (arith, t.some_room);
    },
    take-append_left p.child_processes_size p.child_processes _ (omega (arith, t.fits, t.storage)),
    refl,
    omega (arith, t.fits, t.some_room),
  )
  | inr room ↦ rw room (t, refl, refl, ground arith)
]

-- A new child stands at the end of the table, stopped and named after its place; the others stay,
-- also where the table has to grow.
pub live-create_child :
    (pid : ℕ) (p : Parent)
    → IsTable p
    → IsTable (create_child (some pid) p)
      × (live (create_child (some pid) p)
          ≡ live p
            ++ (record { pid = pid; name = p.child_processes_size; is_running = false } ∷ []))
unfolding create_child
live-create_child pid p t =
    let r = reserve-IsTable p t in
    let q = reserve p in
    let new : ProcessInfo = record {
      pid = pid;
      name = q.child_processes_size;
      is_running = false;
    } in
    (
      record {
        storage = length-set q.child_processes q.child_processes_size new ∙ r.0.storage;
        fits = omega (arith, r.3, r.2);
        some_room = r.0.some_room;
      },
      ap (λ n. take n (set q.child_processes q.child_processes_size new))
            {x = q.child_processes_size + 1} {y = suc q.child_processes_size} (omega arith)
          ∙ take-set_end q.child_processes_size q.child_processes new
              (omega (arith, r.0.storage, r.2, r.3))
          ∙ ap₂ (λ l n. l ++ (record { pid = pid; name = n; is_running = false } ∷ [])) r.1 r.2,
    )

take-split_end :
    (n : ℕ) (xs : List ProcessInfo)
    → n < length xs
    → take (suc n) xs ≡ take n xs ++ (get_or xs n blank ∷ [])
take-split_end n [] h = absurd (omega arith)
take-split_end zero (x ∷ xs) h = refl
take-split_end (suc n) (x ∷ xs) h = ap (◌∷◌ x) (take-split_end n xs (omega arith))

pub delete_last_child-IsTable : (p : Parent) → IsTable p → IsTable (delete_last_child p).0
unfolding delete_last_child
delete_last_child-IsTable p t = elim (Bool-cases (p.child_processes_size == 0)) [
  | inl none_left ↦ rw none_left t
  | inr some_left ↦
      rw some_left
        (record { storage = t.storage; fits = omega (arith, t.fits); some_room = t.some_room })
]

-- From a table that is not empty, deleting takes the last child off and terminates that child.
pub live-delete_last_child :
    (p : Parent)
    → IsTable p
    → 0 < p.child_processes_size
    → let (q, effects) = delete_last_child p in
      (last : ProcessInfo) × IsTable q
      × (live p ≡ live q ++ (last ∷ []))
      × (effects ≡ sent last.pid sigterm ∷ [])
unfolding delete_last_child
live-delete_last_child p t h = elim (Bool-cases (p.child_processes_size == 0)) [
  | inl none_left ↦ absurd (ground arith)
  | inr some_left ↦ rw some_left (
    child p (p.child_processes_size - 1),
    record { storage = t.storage; fits = omega (arith, t.fits); some_room = t.some_room },
    ap (λ n. take n p.child_processes) {y = suc (p.child_processes_size - 1)} (omega arith)
        ∙ take-split_end (p.child_processes_size - 1) p.child_processes
            (omega (arith, t.fits, t.storage)),
    refl,
  )
]
