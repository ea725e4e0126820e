-- ===== src/SortIndex/Phases/Blocks.antt =====
-- The first phase of `worker_thread`: the blocks are sorted by `qsort`, which is the C library's.
use osi_s.Prelude.{
  ℕ, ◌*◌, ◌<◌, ◌≡◌, refl, sym, ◌∙◌, subst, List, [], ◌∷◌, Bool, length, Perm, arith,
}
use mathlib.Core.List.Perm
use native.Mathlib.Nat.{mul_comm}
use osi_s.SortIndex.{store, slice, sort_block, local_sort}
use osi_s.SortIndex.Merge.{Order, IsSorted}
use osi_s.SortIndex.Slices.{length-slice}
use osi_s.SortIndex.Phases.{
  Among, AllBelow, Work, AllSorted, Phase, part_before, store-Work, Phase-Work, Sorted-cons,
}

-- What `qsort` promises: the same elements, as many, in the order of the comparison.
pub record Sorts {A : Type 0} (leq : A → A → Bool) (qsort : List A → List A) : Type 0 where
  pub perm : (l : List A) → Perm (qsort l) l
  pub same_length : (l : List A) → length (qsort l) ≡ length l
  pub sorts : (l : List A) → IsSorted leq (qsort l)

module _ {A : Type 0} (leq : A → A → Bool) (o : Order leq) (qsort : List A → List A)
    (q : Sorts leq qsort) where
  sort_block_lem :
      (j per n : ℕ) (base : List A)
      → length base ≡ n * per
      → j < n
      → Work per j base (sort_block leq qsort j per base)
        × IsSorted leq (slice (j * per) per (sort_block leq qsort j per base))
  unfolding sort_block
  sort_block_lem j per n base len h =
      subst
        (λ at.
          Work per j base (store at (qsort (slice at per base)) base)
          × IsSorted leq (slice (j * per) per (store at (qsort (slice at per base)) base)))
        (mul_comm j per) (done.0, subst (IsSorted leq) (sym done.1) (q.sorts _))
    where
      part : List A
      part = slice (j * per) per base

      size : length (qsort part) ≡ per
      size =
          q.same_length part
          ∙ length-slice (j * per) per base (omega (arith, part_before j n per h))

      done :
          Work per j base (store (j * per) (qsort part) base)
          × (slice (j * per) per (store (j * per) (qsort part) base) ≡ qsort part)
      done = store-Work per j n (qsort part) base len h size (q.perm part)

  local_sort_lem :
      (order : List ℕ) (per n : ℕ) (base : List A)
      → length base ≡ n * per
      → AllBelow n order
      → Phase leq o qsort per n (λ _. Unit {0}) base (local_sort leq qsort order per base)
        × ((k : ℕ)
            → Among k order
            → IsSorted leq (slice (k * per) per (local_sort leq qsort order per base)))
  unfolding local_sort
  local_sort_lem [] per n base len h = (
    record { same_length = refl; perm = Perm.rfl; ok = λ k _. tt; kept = λ k _ s. s },
    λ k a. absurd a,
  )
  local_sort_lem (j ∷ order) per n base len h =
      let mid = sort_block leq qsort j per base in
      let one = sort_block_lem j per n base len h.0 in
      let rest = local_sort_lem order per n mid (one.0.length_same ∙ len) h.1 in
      (
        Phase-Work leq o qsort per n j (λ _. Unit {0}) base mid _ one.0 one.1 rest.0,
        Sorted-cons leq o qsort per n j order (λ _. Unit {0}) mid _ h.0 one.1 rest.0 rest.1,
      )

  -- The first phase leaves every block sorted, in any order of the blocks that leaves none out, and
  -- rearranges the array.
  pub local_sort-AllSorted :
      (order : List ℕ) (per n : ℕ) (base : List A)
      → length base ≡ n * per
      → AllBelow n order
      → ((k : ℕ) → k < n → Among k order)
      → let after = local_sort leq qsort order per base in
        (length after ≡ length base) × Perm after base × AllSorted leq o per n after
  local_sort-AllSorted order per n base len below all =
      let done = local_sort_lem order per n base len below in
      (done.0.same_length, done.0.perm, λ k h. done.1 k (all k h))
