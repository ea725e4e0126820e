-- ===== src/SortIndex/Worker.antt =====
-- `worker_thread` of lab06/src/sort_index.c as a whole: the phases with the works that the threads
-- claim.
use osi_s.Prelude.{
  ℕ, ◌*◌, ◌^◌, Perm, dec_lt, ◌≤◌, ◌<◌, ◌≡◌, List, [], ◌∷◌, length, arith, inl, inr, ℕ_discrete,
}
use osi_s.SortIndex.Phases.{AllBelow, Among}
use osi_s.SortIndex.{Index, Marks, sort_chunk}
use osi_s.SortIndex.Compare.{leq, cmp_index_s-Order}
use osi_s.SortIndex.Merge.{IsSorted}
use osi_s.SortIndex.Phases.Blocks.{Sorts}
use osi_s.SortIndex.Phases.Rounds.{Covers, sort_chunk-IsSorted}
use osi_s.SortIndex.Claims.{block_works, pair_works, times, block_works_once, pair_works_twice}

times-AllBelow : (n : ℕ) (js : List ℕ) → ((k : ℕ) → n ≤ k → times k js ≡ 0) → AllBelow n js
times-AllBelow n [] h = tt
times-AllBelow n (j ∷ js) h = (
  elim (dec_lt j n) [ yes p ↦ p | no p ↦ absurd (ground (arith, h j (omega arith))) ],
  times-AllBelow n js (λ k p. omega (arith, h k p)),
)

times-Among : (k : ℕ) (js : List ℕ) → 0 < times k js → Among k js
times-Among k [] h = absurd (omega arith)
times-Among k (j ∷ js) h = elim (ℕ_discrete k j) [
  | yes e ↦ inl e
  | no ne ↦ inr (times-Among k js (ground arith))
]

-- Orders that have every work as often as the threads do it leave none out and name no other.
pub block_works-Covers :
    (threads blocks : ℕ) (order : List ℕ)
    → threads ≤ blocks
    → ((k : ℕ) → times k order ≡ times k (block_works threads blocks))
    → Covers blocks order
block_works-Covers threads blocks order h e = record {
  below =
      times-AllBelow blocks order λ k p. ground (arith, e k, block_works_once threads blocks k h);
  all = λ k p. times-Among k order (ground (arith, e k, block_works_once threads blocks k h));
}

pub pair_works-Covers :
    (threads num_pairs : ℕ) (order : List ℕ)
    → ((k : ℕ) → times k order ≡ times k (pair_works threads num_pairs))
    → Covers num_pairs order
pair_works-Covers threads num_pairs order e = record {
  below =
      times-AllBelow num_pairs order
        λ k p. ground (arith, e k, pair_works_twice threads num_pairs k);
  all = λ k p. times-Among k order (ground (arith, e k, pair_works_twice threads num_pairs k));
}

-- The sort of one chunk by `threads` threads on 2^n blocks of `per` entries, with the works that
-- the threads claim, one after the other in any order, leaves the entries in the order of
-- `cmp_index_s` and rearranges them: for any `qsort` that sorts, and where the chunk has exactly
-- 2^n * per entries.
pub worker-IsSorted :
    (marks : Marks) (qsort : List (Index (Marks.Mark marks)) → List (Index (Marks.Mark marks)))
    (threads n per : ℕ) (base : List (Index (Marks.Mark marks))) (blocks_order : List ℕ)
    (pairs_order : ℕ → ℕ → List ℕ)
    → Sorts (leq marks) qsort
    → ((k : ℕ) → times k blocks_order ≡ times k (block_works threads (2 ^ n)))
    → ((s m k : ℕ) → times k (pairs_order s m) ≡ times k (pair_works threads m))
    → threads ≤ 2 ^ n
    → length base ≡ 2 ^ n * per
    → let after = sort_chunk (leq marks) qsort blocks_order pairs_order (2 ^ n) per base in
      IsSorted (leq marks) after × Perm after base
worker-IsSorted marks qsort threads n per base blocks_order pairs_order q b p few len =
    sort_chunk-IsSorted (leq marks) (cmp_index_s-Order marks) qsort pairs_order
      (λ s m. pair_works-Covers threads m (pairs_order s m) (p s m)) n per blocks_order base q
      (block_works-Covers threads (2 ^ n) blocks_order few b) len
