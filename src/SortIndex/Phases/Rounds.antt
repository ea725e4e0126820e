-- ===== src/SortIndex/Phases/Rounds.antt =====
-- All phases on a chunk with a power of two of blocks (lab06/src/sort_index.c).
use osi_s.Prelude.{
  take_all, ℕ, zero, suc, ◌+◌, ◌*◌, ◌/◌, ◌^◌, ◌<◌, ◌≡◌, refl, sym, ap, ◌∙◌, subst, List, Bool,
  length, Perm, arith,
}
use mathlib.Core.List.Perm
use native.Mathlib.Nat.{two-pow-succ, one-le-pow, mul-div_cancel_left}
use osi_s.SortIndex.{
  slice, merge_round, merge_rounds, local_sort, level_loop, level_count, sort_chunk,
}
use osi_s.SortIndex.Merge.{Order, IsSorted}
use osi_s.SortIndex.Phases.{Among, AllBelow, AllSorted}
use osi_s.SortIndex.Phases.Pairs.{merge_round-AllSorted}
use osi_s.SortIndex.Phases.Blocks.{Sorts, local_sort-AllSorted}

-- An order of `n` works that leaves none out.
pub record Covers (n : ℕ) (order : List ℕ) : Type 0 where
  pub below : AllBelow n order
  pub all : (k : ℕ) → k < n → Among k order

level_loop-pow : (n f acc : ℕ) → n < f → level_loop f (2 ^ n) acc ≡ acc + n
unfolding level_loop
level_loop-pow n zero acc h = absurd (omega arith)
level_loop-pow zero (suc f) acc h = omega arith
level_loop-pow (suc n) (suc f) acc h =
    ground (arith, half, big, ap (λ t. level_loop f t (acc + 1)) half, level_loop-pow n f (acc + 1))
  where
    half : 2 ^ suc n / 2 ≡ 2 ^ n
    half = omega (arith, two-pow-succ n)

    big : 1 < 2 ^ suc n
    big = omega (arith, two-pow-succ n, one-le-pow n 2 (omega arith))

n-lt-pow : (n : ℕ) → n < 2 ^ n
n-lt-pow zero = omega arith
n-lt-pow (suc n) = omega (arith, two-pow-succ n, n-lt-pow n)

-- With 2^n blocks there are n rounds.
level_count-pow : (n : ℕ) → level_count (2 ^ n) ≡ n
unfolding level_count
level_count-pow n = level_loop-pow n (2 ^ n) 0 (n-lt-pow n) ∙ omega arith

pow_add : (a b : ℕ) → 2 ^ (a + b) ≡ 2 ^ a * 2 ^ b
pow_add zero b = ap (λ k. 2 ^ k) {x = 0 + b} {y = b} (omega arith) ∙ omega arith
pow_add (suc a) b =
    ap (λ k. 2 ^ k) {x = suc a + b} {y = suc (a + b)} (omega arith)
    ∙ omega (arith, two-pow-succ (a + b), pow_add a b, ap (λ k. k * 2 ^ b) (two-pow-succ a))

-- In round `s` of `s + n + 1` there are 2^n pairs.
pairs : (s n : ℕ) → 2 ^ (s + suc n) / 2 ^ (s + 1) ≡ 2 ^ n
pairs s n =
    ap (λ k. 2 ^ k / 2 ^ (s + 1)) {x = s + suc n} {y = s + 1 + n} (omega arith)
    ∙ ap (λ k. k / 2 ^ (s + 1)) (pow_add (s + 1) n)
    ∙ mul-div_cancel_left (2 ^ n) {n = 2 ^ (s + 1)} (one-le-pow (s + 1) 2 (omega arith))

-- The width of the runs doubles from round to round.
run_doubles : (s per : ℕ) → 2 * (2 ^ s * per) ≡ 2 ^ (s + 1) * per
run_doubles s per =
    omega (arith, ap (λ k. k * per) (two-pow-succ s))
    ∙ ap (λ k. 2 ^ k * per) {x = suc s} {y = s + 1} (omega arith)

module _ {A : Type 0} (leq : A → A → Bool) (o : Order leq) (qsort : List A → List A)
    (order : ℕ → ℕ → List ℕ) (covers : (s n : ℕ) → Covers n (order s n)) where
  merge_rounds-AllSorted :
      (n s blocks per : ℕ) (base : List A)
      → blocks ≡ 2 ^ (s + n)
      → length base ≡ 2 ^ n * (2 ^ s * per)
      → AllSorted leq o (2 ^ s * per) (2 ^ n) base
      → let after = merge_rounds leq qsort n order s blocks per base in
        (length after ≡ length base) × Perm after base × AllSorted leq o (length base) 1 after
  unfolding merge_rounds
  merge_rounds-AllSorted zero s blocks per base e len sorted = (
    refl,
    Perm.rfl,
    subst (λ w. AllSorted leq o w 1 base) {x = 2 ^ s * per} (omega (arith, len)) sorted,
  )
  merge_rounds-AllSorted (suc n) s blocks per base e len sorted =
      let rest = merge_rounds-AllSorted n (s + 1) blocks per mid later wide runs in
      subst
        (λ k.
          let after =
            merge_rounds leq qsort n order (s + 1) blocks per
              (merge_round leq qsort (order s k) span base) in
          (length after ≡ length base) × Perm after base × AllSorted leq o (length base) 1 after)
        (sym num_pairs)
        (
          rest.0 ∙ one.0,
          Perm.trans rest.1 one.1,
          subst (λ w. AllSorted leq o w 1 (merge_rounds leq qsort n order (s + 1) blocks per mid))
              one.0 rest.2,
        )
    where
      span : ℕ
      span = 2 ^ s * per

      num_pairs : blocks / 2 ^ (s + 1) ≡ 2 ^ n
      num_pairs = ap (λ k. k / 2 ^ (s + 1)) e ∙ pairs s n

      mid : List A
      mid = merge_round leq qsort (order s (2 ^ n)) span base

      one : (length mid ≡ length base) × Perm mid base × AllSorted leq o (2 * span) (2 ^ n) mid
      one =
          merge_round-AllSorted leq o qsort (order s (2 ^ n)) span (2 ^ n) base
            (len ∙ omega (arith, ap (λ k. k * span) (two-pow-succ n))) (covers s (2 ^ n)).below
            (covers s (2 ^ n)).all
            (subst (λ k. AllSorted leq o span k base) (omega (arith, two-pow-succ n)) sorted)

      later : blocks ≡ 2 ^ (s + 1 + n)
      later = e ∙ ap (λ k. 2 ^ k) {x = s + suc n} {y = s + 1 + n} (omega arith)

      wide : length mid ≡ 2 ^ n * (2 ^ (s + 1) * per)
      wide =
          one.0
          ∙ len
          ∙ omega
              (arith, ap (λ k. k * span) (two-pow-succ n), ap (λ k. 2 ^ n * k) (run_doubles s per))

      runs : AllSorted leq o (2 ^ (s + 1) * per) (2 ^ n) mid
      runs = subst (λ w. AllSorted leq o w (2 ^ n) mid) (run_doubles s per) one.2

  -- A chunk of 2^n blocks of `per` elements ends sorted, with the elements that it had: for any
  -- `qsort` that sorts, and any order of the blocks and of the pairs of each round that leaves none
  -- out, repetitions included.
  pub sort_chunk-IsSorted :
      (n per : ℕ) (blocks_order : List ℕ) (base : List A)
      → Sorts leq qsort
      → Covers (2 ^ n) blocks_order
      → length base ≡ 2 ^ n * per
      → let after = sort_chunk leq qsort blocks_order order (2 ^ n) per base in
        IsSorted leq after × Perm after base
  unfolding sort_chunk
  sort_chunk-IsSorted n per blocks_order base q c len =
      subst
        (λ levels.
          let after = merge_rounds leq qsort levels order 0 (2 ^ n) per mid in
          IsSorted leq after × Perm after base)
        (sym (level_count-pow n))
        (
          subst (IsSorted leq) (take_all (length mid) done (omega (arith, rounds.0))) (
              subst (λ at. IsSorted leq (slice at (length mid) done)) {x = 0 * length mid} {y = 0}
                (omega arith) (rounds.2 0 (omega arith))),
          Perm.trans rounds.1 local.1,
        )
    where
      mid : List A
      mid = local_sort leq qsort blocks_order per base

      local : (length mid ≡ length base) × Perm mid base × AllSorted leq o per (2 ^ n) mid
      local = local_sort-AllSorted leq o qsort q blocks_order per (2 ^ n) base len c.below c.all

      done : List A
      done = merge_rounds leq qsort n order 0 (2 ^ n) per mid

      unit : per ≡ 2 ^ 0 * per
      unit = omega arith

      rounds : (length done ≡ length mid) × Perm done mid × AllSorted leq o (length mid) 1 done
      rounds =
          merge_rounds-AllSorted n 0 (2 ^ n) per mid
            (ap (λ k. 2 ^ k) {x = n} {y = 0 + n} (omega arith))
            (local.0 ∙ len ∙ ap (λ k. 2 ^ n * k) unit)
            (subst (λ w. AllSorted leq o w (2 ^ n) mid) unit local.2)
