-- ===== src/SortIndex.antt =====
-- lab06/src/sort_index.c: the sort of one mapped chunk by threads. Blocks are sorted with `qsort`,
-- then merged pairwise in rounds between barriers. Inside a phase the threads claim blocks or pairs
-- under a mutex, and a phase is a sequence of such works in any order, which `order` gives: works on
-- parts that do not overlap can be put in a sequence. A pair that two threads merge is merged
-- twice here, one time after the other; that the two merges can overlap in time is not modelled.
pub mod Compare
pub mod Slices
pub mod Merge
pub mod Phases
pub mod Claims
pub mod Worker
pub mod Chunks
pub mod Settings
pub mod Unsorted
pub mod Files
pub mod Calendar
pub mod Program
use osi_s.Prelude.{
  ℕ, zero, suc, ◌+◌, ◌*◌, ◌/◌, ◌^◌, ◌≡◌, List, [], ◌∷◌, ◌++◌, Bool, true, false, if◌then◌else◌, ltb,
  take, drop, length,
}

-- `struct index_s`; a `time_mark` is a double, whose type is a parameter.
pub record Index (T : Type 0) : Type 0 where
  pub time_mark : T
  pub recno : ℕ

-- The results -1, 0 and 1 of `cmp_index_s`.
pub data Cmp : Type 0 where
  below equal above : Cmp

-- What `<` on doubles that are no NaN satisfies.
pub record Marks : Type 1 where
  pub Mark : Type 0
  pub before : Mark → Mark → Bool
  pub before_trans : (a b c : Mark) → before a b ≡ true → before b c ≡ true → before a c ≡ true
  pub before_irrefl : (a : Mark) → before a a ≡ false
  pub before_total : (a b : Mark) → before a b ≡ false → before b a ≡ false → a ≡ b

module _ (marks : Marks) where
  open marks use {Mark, before}

  unfoldable pub cmp_index_s : Index Mark → Index Mark → Cmp
  cmp_index_s a b =
      if before a.time_mark b.time_mark
      then below
      else if before b.time_mark a.time_mark
      then above
      else if ltb a.recno b.recno
      then below
      else if ltb b.recno a.recno
      then above
      else equal

-- `cmp <= 0`
abbrev pub not_above : Cmp → Bool
not_above above = false
not_above _ = true

module _ {A : Type 0} (leq : A → A → Bool) where
  -- The three loops of `do_merge` over `left[l..]`, `right[r..]` and what `tmp` holds.
  pub merge_loop : List A → List A → List A → List A
  merge_loop [] right tmp = tmp ++ right
  merge_loop (x ∷ left) [] tmp = tmp ++ x ∷ left
  merge_loop (x ∷ left) (y ∷ right) tmp = elim (leq x y) [
    | true ↦ merge_loop left (y ∷ right) (tmp ++ x ∷ [])
    | false ↦ merge_loop (x ∷ left) right (tmp ++ y ∷ [])
  ]

-- Writing `m` over the elements from index `at` on.
unfoldable pub store {ℓ} : {A : Type ℓ} → ℕ → List A → List A → List A
store at m base = take at base ++ (m ++ drop (at + length m) base)

-- The `n` elements from index `at` on.
abbrev pub slice {ℓ} : {A : Type ℓ} → ℕ → ℕ → List A → List A
slice at n base = take n (drop at base)

module _ {A : Type 0} (leq : A → A → Bool) (qsort : List A → List A) where
  unfoldable pub do_merge : ℕ → ℕ → List A → List A
  unfolding merge_loop
  do_merge idx span base =
      let left = idx * (2 * span) in
      store left (merge_loop leq (slice left span base) (slice (left + span) span base) []) base

  -- `qsort(base + per*next, per, …)`
  unfoldable pub sort_block : ℕ → ℕ → List A → List A
  sort_block next per base = store (per * next) (qsort (slice (per * next) per base)) base

  -- The first phase of `worker_thread`, over the blocks in the order in which they are sorted.
  pub local_sort : List ℕ → ℕ → List A → List A
  local_sort [] per base = base
  local_sort (next ∷ order) per base = local_sort order per (sort_block next per base)

  -- One round, over the pairs in the order in which they are merged.
  pub merge_round : List ℕ → ℕ → List A → List A
  merge_round [] span base = base
  merge_round (j ∷ order) span base = merge_round order span (do_merge j span base)

  -- `for (s..levels)`, with the rounds left first. Round `s` merges the pairs in the order
  -- `order s num_pairs`.
  pub merge_rounds : ℕ → (ℕ → ℕ → List ℕ) → ℕ → ℕ → ℕ → List A → List A
  merge_rounds zero order s blocks per base = base
  merge_rounds (suc n) order s blocks per base =
      let span = 2 ^ s * per in
      let num_pairs = blocks / 2 ^ (s + 1) in
      merge_rounds n order (s + 1) blocks per (merge_round (order s num_pairs) span base)

-- `for (tmp = blocks; tmp > 1; tmp >>= 1) levels++`; the fuel is `blocks` itself.
pub level_loop : ℕ → ℕ → ℕ → ℕ
level_loop zero tmp levels = levels
level_loop (suc f) tmp levels =
    let rest = level_loop f (tmp / 2) (levels + 1) in if ltb 1 tmp then rest else levels

unfoldable pub level_count : ℕ → ℕ
unfolding level_loop
level_count blocks = level_loop blocks blocks 0

module _ {A : Type 0} (leq : A → A → Bool) (qsort : List A → List A) where
  -- All phases on one chunk.
  unfoldable pub sort_chunk : List ℕ → (ℕ → ℕ → List ℕ) → ℕ → ℕ → List A → List A
  unfolding local_sort merge_rounds level_count
  sort_chunk blocks_order pairs_order blocks per base =
      merge_rounds leq qsort (level_count blocks) pairs_order 0 blocks per
        (local_sort leq qsort blocks_order per base)
