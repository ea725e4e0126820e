-- ===== src/CondQueue/Threads/Accounts.antt =====
-- How lab05/src/5.2/main.c keeps account of its threads: each command on one thread.
use osi_s.Prelude.{
  ℕ, zero, suc, ◌+◌, ◌-◌, ◌≤◌, ◌<◌, ◌≡◌, refl, ap, ap₂, ◌∙◌, List, [], ◌∷◌, ◌++◌, ◌==◌,
  if◌then◌else◌, leb, get_or, set, length, length-set, get_or-set_self, get_or-set_ne, arith,
  Bool-cases, inl, inr,
}
use osi_s.CondQueue.Threads.{
  max_prods, Call, created, joined, cancelled, broadcast_not_full, broadcast_not_empty, Main,
  create_producer, create_consumer, remove_last_producer, remove_last_consumer,
}

-- How often a thread is created, and joined, in a trace.
abbrev pub creations : ℕ → List Call → ℕ
creations t [] = 0
creations t (created u ∷ calls) = (if u == t then 1 else 0) + creations t calls
creations t (_ ∷ calls) = creations t calls

abbrev pub joins : ℕ → List Call → ℕ
joins t [] = 0
joins t (joined u ∷ calls) = (if u == t then 1 else 0) + joins t calls
joins t (_ ∷ calls) = joins t calls

-- How often a thread stands in the first `n` entries of a table.
unfoldable pub listed : ℕ → List ℕ → ℕ → ℕ
listed t xs zero = 0
listed t xs (suc n) = listed t xs n + (if get_or xs n 0 == t then 1 else 0)

abbrev pub alive : ℕ → Main → ℕ
alive t m = listed t m.producers m.prod_count + listed t m.consumers m.cons_count

pub record IsTable (m : Main) : Type 0 where
  pub prod_len : length m.producers ≡ max_prods
  pub cons_len : length m.consumers ≡ max_prods
  pub prod_max : m.prod_count ≤ max_prods
  pub cons_max : m.cons_count ≤ max_prods

-- A step from `m` with trace `calls` keeps the tables and their account of threads.
abbrev pub Accounts : Main → Main × List Call → Type 0
Accounts m r = IsTable r.0 × ((t : ℕ) → alive t m + creations t r.1 ≡ alive t r.0 + joins t r.1)

pub creations-append :
    (t : ℕ) (a b : List Call) → creations t (a ++ b) ≡ creations t a + creations t b
creations-append t [] b = omega arith
creations-append t (created u ∷ a) b = omega (arith, creations-append t a b)
creations-append t (joined u ∷ a) b = creations-append t a b
creations-append t (cancelled u ∷ a) b = creations-append t a b
creations-append t (broadcast_not_full ∷ a) b = creations-append t a b
creations-append t (broadcast_not_empty ∷ a) b = creations-append t a b

pub joins-append : (t : ℕ) (a b : List Call) → joins t (a ++ b) ≡ joins t a + joins t b
joins-append t [] b = omega arith
joins-append t (joined u ∷ a) b = omega (arith, joins-append t a b)
joins-append t (created u ∷ a) b = joins-append t a b
joins-append t (cancelled u ∷ a) b = joins-append t a b
joins-append t (broadcast_not_full ∷ a) b = joins-append t a b
joins-append t (broadcast_not_empty ∷ a) b = joins-append t a b

pub listed-set : (t : ℕ) (xs : List ℕ) (i v n : ℕ) → n ≤ i → listed t (set xs i v) n ≡ listed t xs n
unfolding listed
listed-set t xs i v zero h = refl
listed-set t xs i v (suc n) h =
    ap₂ (λ a b. a + (if b == t then 1 else 0)) (listed-set t xs i v n (omega arith))
      (get_or-set_ne xs i n v 0 (λ e. omega arith))

pub listed_one :
    (t : ℕ) (xs : List ℕ) (n : ℕ)
    → 0 < n
    → listed t xs n ≡ listed t xs (n - 1) + (if get_or xs (n - 1) 0 == t then 1 else 0)
unfolding listed
listed_one t xs zero h = absurd (omega arith)
listed_one t xs (suc n) h =
    ap (λ k. listed t xs k + (if get_or xs k 0 == t then 1 else 0)) (omega arith)

pub listed_created :
    (t : ℕ) (xs : List ℕ) (n v : ℕ)
    → n < length xs
    → listed t (set xs n v) (n + 1) ≡ listed t xs n + (if v == t then 1 else 0)
unfolding listed
listed_created t xs n v h =
    ap (listed t (set xs n v)) {y = suc n} (omega arith)
    ∙ ap₂ (λ a b. a + (if b == t then 1 else 0)) (listed-set t xs n v n (omega arith))
        (get_or-set_self xs n v 0 h)

pub Accounts-nil : (m : Main) → IsTable m → Accounts m (m, [])
Accounts-nil m v = (v, λ t. refl)

pub create_producer-Accounts :
    (thread : ℕ) (m : Main) → IsTable m → Accounts m (create_producer thread m)
unfolding create_producer
create_producer-Accounts thread m v = elim (Bool-cases (leb max_prods m.prod_count)) [
  | inl full ↦ rw full (Accounts-nil m v)
  | inr room ↦ rw room (
    record {
      prod_len = length-set m.producers m.prod_count thread ∙ v.prod_len;
      cons_len = v.cons_len;
      prod_max = ground arith;
      cons_max = v.cons_max;
    },
    λ t.
        omega
          (arith, listed_created t m.producers m.prod_count thread (ground (arith, v.prod_len))),
  )
]

pub create_consumer-Accounts :
    (thread : ℕ) (m : Main) → IsTable m → Accounts m (create_consumer thread m)
unfolding create_consumer
create_consumer-Accounts thread m v = elim (Bool-cases (leb max_prods m.cons_count)) [
  | inl full ↦ rw full (Accounts-nil m v)
  | inr room ↦ rw room (
    record {
      prod_len = v.prod_len;
      cons_len = length-set m.consumers m.cons_count thread ∙ v.cons_len;
      prod_max = v.prod_max;
      cons_max = ground arith;
    },
    λ t.
        omega
          (arith, listed_created t m.consumers m.cons_count thread (ground (arith, v.cons_len))),
  )
]

pub remove_last_producer-Accounts : (m : Main) → IsTable m → Accounts m (remove_last_producer m)
unfolding remove_last_producer
remove_last_producer-Accounts m v = elim (Bool-cases (m.prod_count == 0)) [
  | inl none_left ↦ rw none_left (Accounts-nil m v)
  | inr some_left ↦ rw some_left (
    record {
      prod_len = v.prod_len;
      cons_len = v.cons_len;
      prod_max = omega (arith, v.prod_max);
      cons_max = v.cons_max;
    },
    λ t. omega (arith, listed_one t m.producers m.prod_count (ground arith)),
  )
]

pub remove_last_consumer-Accounts : (m : Main) → IsTable m → Accounts m (remove_last_consumer m)
unfolding remove_last_consumer
remove_last_consumer-Accounts m v = elim (Bool-cases (m.cons_count == 0)) [
  | inl none_left ↦ rw none_left (Accounts-nil m v)
  | inr some_left ↦ rw some_left (
    record {
      prod_len = v.prod_len;
      cons_len = v.cons_len;
      prod_max = v.prod_max;
      cons_max = omega (arith, v.cons_max);
    },
    λ t. omega (arith, listed_one t m.consumers m.cons_count (ground arith)),
  )
]

-- Two steps, one after the other.
pub Accounts-append :
    (m m' m'' : Main) (a b : List Call)
    → Accounts m (m', a)
    → Accounts m' (m'', b)
    → Accounts m (m'', a ++ b)
Accounts-append m m' m'' a b f g =
    (g.0, λ t. omega (arith, f.1 t, g.1 t, creations-append t a b, joins-append t a b))
