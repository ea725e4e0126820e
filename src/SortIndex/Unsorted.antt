-- ===== src/SortIndex/Unsorted.antt =====
-- A chunk whose blocks are too small for an entry (lab06/src/sort_index.c): no phase of the sort moves
-- anything.
use native.Mathlib.Nat.{div-lt_iff_lt-mul}
use osi_s.Prelude.{
  ◌^◌, take-append-drop, ℕ, zero, suc, ◌+◌, ◌*◌, ◌/◌, ◌<◌, ◌≡◌, refl, sym, ap, ◌∙◌, subst, Bool,
  some, List, [], ◌∷◌, ◌++◌, arith, length, take, drop, same,
}
use osi_s.SortIndex.{
  level_count, sort_chunk, do_merge, sort_block, local_sort, merge_round, merge_rounds, store,
  merge_loop,
}
use osi_s.SortIndex.Settings.{Settings, check_arguments, IsAccepted, check_arguments-IsAccepted}

module _ {A : Type 0} (order : A → A → Bool) (qsort : List A → List A) (empty : qsort [] ≡ []) where
  store_nothing : (at : ℕ) (base : List A) → store at [] base ≡ base
  unfolding store
  store_nothing at base =
      ap (λ i. take at base ++ drop i base) (omega arith) ∙ take-append-drop at base

  sort_block_zero : (j : ℕ) (base : List A) → sort_block order qsort j 0 base ≡ base
  unfolding sort_block
  sort_block_zero j base = ap (λ m. store (0 * j) m base) empty ∙ store_nothing (0 * j) base

  local_sort_zero : (js : List ℕ) (base : List A) → local_sort order qsort js 0 base ≡ base
  unfolding local_sort
  local_sort_zero [] base = refl
  local_sort_zero (j ∷ js) base =
      ap (local_sort order qsort js 0) (sort_block_zero j base) ∙ local_sort_zero js base

  do_merge_zero : (j : ℕ) (base : List A) → do_merge order qsort j 0 base ≡ base
  unfolding do_merge merge_loop
  do_merge_zero j base = store_nothing (j * 0) base

  merge_round_zero : (js : List ℕ) (base : List A) → merge_round order qsort js 0 base ≡ base
  unfolding merge_round
  merge_round_zero [] base = refl
  merge_round_zero (j ∷ js) base =
      ap (merge_round order qsort js 0) (do_merge_zero j base) ∙ merge_round_zero js base

  merge_rounds_zero :
      (n : ℕ) (pairs : ℕ → ℕ → List ℕ) (s blocks : ℕ) (base : List A)
      → merge_rounds order qsort n pairs s blocks 0 base ≡ base
  unfolding merge_rounds
  merge_rounds_zero zero pairs s blocks base = refl
  merge_rounds_zero (suc n) pairs s blocks base =
      let js = pairs s (blocks / 2 ^ (s + 1)) in
      ap (merge_rounds order qsort n pairs (s + 1) blocks 0)
        (ap (λ w. merge_round order qsort js w base) (omega arith) ∙ merge_round_zero js base)
      ∙ merge_rounds_zero n pairs (s + 1) blocks base

-- With arguments that `main` accepts, on fewer than 2^27 cores, whose blocks have less than 16 bytes, no
-- entry is moved: a chunk stays as unsorted as it was, for any `qsort` that keeps the number of
-- elements.
check_arguments_small :
    (A : Type 0) (order : A → A → Bool) (qsort : List A → List A) (pagesize cores ms bl th : ℕ)
    (S : Settings) (works : List ℕ) (pairs : ℕ → ℕ → List ℕ) (base : List A)
    → ((l : List A) → length (qsort l) ≡ length l)
    → check_arguments pagesize cores ms bl th ≡ some S
    → cores < 134217728
    → ms < 16 * S.blocks
    → sort_chunk order qsort works pairs S.blocks (S.block_size / 16) base ≡ base
unfolding sort_chunk
check_arguments_small A order qsort pagesize cores ms bl th S works pairs base same e c h =
    ap (λ per. sort_chunk order qsort works pairs S.blocks per base) per_zero
    ∙ ap (merge_rounds order qsort (level_count S.blocks) pairs 0 S.blocks 0)
        (local_sort_zero order qsort (nothing_left (qsort []) (same [])) works base)
    ∙ merge_rounds_zero order qsort (nothing_left (qsort []) (same [])) (level_count S.blocks) pairs
        0 S.blocks base
  where
    a : IsAccepted ms S
    a = check_arguments-IsAccepted pagesize cores ms bl th S e c

    less : S.block_size < 16
    less =
        subst (λ b. b < 16) (sym a.size)
          ((div-lt_iff_lt-mul {k = S.blocks} {x = ms} {y = 16} a.positive).1 h)

    per_zero : S.block_size / 16 ≡ 0
    per_zero = omega (arith, less)

    nothing_left : (l : List A) → length l ≡ 0 → l ≡ []
    nothing_left [] q = refl
    nothing_left (x ∷ l) q = absurd (omega arith)
