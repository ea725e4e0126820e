-- ===== src/CondQueue/Threads/Joins.antt =====
-- The threads of lab05/src/5.2/main.c over whole runs of its command loop.
use osi_s.Prelude.{
  ℕ, zero, suc, ◌+◌, ◌≤◌, ◌≡◌, refl, ap₂, ◌∙◌, List, [], ◌∷◌, Bool, true, false, if◌then◌else◌,
  arith,
}
use osi_s.CondQueue.Threads.{
  Call, broadcast_not_full, broadcast_not_empty, Main, init, remove_last_producer,
  remove_last_consumer, remove_producers, remove_consumers, remove_all, Key, p, c, upper_p, upper_c,
  plus, minus, k, s, q, other, command, loop, main,
}
use osi_s.CondQueue.Threads.Accounts.{
  creations, joins, listed, alive, IsTable, Accounts, creations-append, joins-append, Accounts-nil,
  create_producer-Accounts, create_consumer-Accounts, remove_last_producer-Accounts,
  remove_last_consumer-Accounts, Accounts-append,
}

remove_producers-Accounts : (n : ℕ) (m : Main) → IsTable m → Accounts m (remove_producers n m)
unfolding remove_producers
remove_producers-Accounts zero m v = Accounts-nil m v
remove_producers-Accounts (suc n) m v =
    let one = remove_last_producer-Accounts m v in
    Accounts-append m _ _ (remove_last_producer m).1 _ one
      (remove_producers-Accounts n (remove_last_producer m).0 one.0)

remove_consumers-Accounts : (n : ℕ) (m : Main) → IsTable m → Accounts m (remove_consumers n m)
unfolding remove_consumers
remove_consumers-Accounts zero m v = Accounts-nil m v
remove_consumers-Accounts (suc n) m v =
    let one = remove_last_consumer-Accounts m v in
    Accounts-append m _ _ (remove_last_consumer m).1 _ one
      (remove_consumers-Accounts n (remove_last_consumer m).0 one.0)

remove_all-Accounts : (m : Main) → IsTable m → Accounts m (remove_all m)
unfolding remove_all
remove_all-Accounts m v =
    let one = remove_producers-Accounts m.prod_count m v in
    let m' = (remove_producers m.prod_count m).0 in
    Accounts-append m m' _ (remove_producers m.prod_count m).1 _ one
      (remove_consumers-Accounts m'.cons_count m' one.0)

alive_of_empty : (t : ℕ) (m : Main) → m.prod_count ≡ 0 → m.cons_count ≡ 0 → alive t m ≡ 0
unfolding listed
alive_of_empty t m e f = ap₂ (λ a b. listed t m.producers a + listed t m.consumers b) e f

prod_count-remove_producers :
    (n : ℕ) (m : Main) → m.prod_count ≡ n → (remove_producers n m).0.prod_count ≡ 0
unfolding remove_producers remove_last_producer
prod_count-remove_producers zero m e = e
prod_count-remove_producers (suc n) m e =
    prod_count-remove_producers n (remove_last_producer m).0 (ground arith)

cons_count-remove_consumers :
    (n : ℕ) (m : Main)
    → m.cons_count ≡ n
    → ((remove_consumers n m).0.cons_count ≡ 0)
      × ((remove_consumers n m).0.prod_count ≡ m.prod_count)
unfolding remove_consumers remove_last_consumer
cons_count-remove_consumers zero m e = (e, refl)
cons_count-remove_consumers (suc n) m e =
    let rest = cons_count-remove_consumers n (remove_last_consumer m).0 (ground arith) in
    (rest.0, rest.1 ∙ ground arith)

remove_all-empty :
    (m : Main) → ((remove_all m).0.prod_count ≡ 0) × ((remove_all m).0.cons_count ≡ 0)
unfolding remove_all
remove_all-empty m =
    let m' = (remove_producers m.prod_count m).0 in
    let c = cons_count-remove_consumers m'.cons_count m' refl in
    (c.1 ∙ prod_count-remove_producers m.prod_count m refl, c.0)

command-Accounts :
    (key : Key) (thread : ℕ) (m : Main) → IsTable m → Accounts m (command key thread m)
unfolding command
command-Accounts p thread m v = create_producer-Accounts thread m v
command-Accounts c thread m v = create_consumer-Accounts thread m v
command-Accounts upper_p thread m v = remove_last_producer-Accounts m v
command-Accounts upper_c thread m v = remove_last_consumer-Accounts m v
command-Accounts plus thread m v = (
  record {
    prod_len = v.prod_len;
    cons_len = v.cons_len;
    prod_max = v.prod_max;
    cons_max = v.cons_max;
  },
  λ t. refl,
)
command-Accounts minus thread m v = (
  record {
    prod_len = v.prod_len;
    cons_len = v.cons_len;
    prod_max = v.prod_max;
    cons_max = v.cons_max;
  },
  λ t. refl,
)
command-Accounts k thread m v = remove_all-Accounts m v
command-Accounts s thread m v = Accounts-nil m v
command-Accounts q thread m v = (
  record {
    prod_len = v.prod_len;
    cons_len = v.cons_len;
    prod_max = v.prod_max;
    cons_max = v.cons_max;
  },
  λ t. refl,
)
command-Accounts other thread m v = Accounts-nil m v

Accounts-if :
    (b : Bool) (m : Main) (r : Main × List Call)
    → Accounts m r
    → Accounts m (m, [])
    → Accounts m (if b then r else (m, []))
Accounts-if true m r f g = f
Accounts-if false m r f g = g

loop-Accounts : (keys : List (Key × ℕ)) (m : Main) → IsTable m → Accounts m (loop keys m)
unfolding loop
loop-Accounts [] m v = Accounts-nil m v
loop-Accounts ((key, thread) ∷ keys) m v =
    let one = command-Accounts key thread m v in
    let m' = (command key thread m).0 in
    Accounts-if m.running m _
      (Accounts-append m m' _ (command key thread m).1 _ one (loop-Accounts keys m' one.0))
      (Accounts-nil m v)

init-IsTable : IsTable init
init-IsTable = omega arith

-- In a run in which every `pthread_create` succeeds and every `pthread_join` returns, `main` joins
-- every thread exactly as often as it created it, whatever keys were typed, and the tables end empty.
pub main-joins :
    (keys : List (Key × ℕ)) (t : ℕ)
    → let (m, calls, freed) = main keys in
      (creations t calls ≡ joins t calls) × (m.prod_count ≡ 0) × (m.cons_count ≡ 0)
unfolding main
main-joins keys t =
    let one = loop-Accounts keys init init-IsTable in
    let two = remove_all-Accounts (loop keys init).0 one.0 in
    let gone = remove_all-empty (loop keys init).0 in
    let rest = (remove_all (loop keys init).0).1 in
    let tail = broadcast_not_empty ∷ broadcast_not_full ∷ rest in
    (
      omega (
        arith,
        one.1 t,
        two.1 t,
        alive_of_empty t init refl refl,
        alive_of_empty t (remove_all (loop keys init).0).0 gone.0 gone.1,
        creations-append t (loop keys init).1 tail,
        joins-append t (loop keys init).1 tail,
      ),
      gone.0,
      gone.1,
    )

-- No table overflows: after any keys at most six producers and six consumers are on record.
pub loop-bounds :
    (keys : List (Key × ℕ))
    → ((loop keys init).0.prod_count ≤ 6) × ((loop keys init).0.cons_count ≤ 6)
loop-bounds keys = let v = (loop-Accounts keys init init-IsTable).0 in (v.prod_max, v.cons_max)
