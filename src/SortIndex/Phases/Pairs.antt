-- ===== src/SortIndex/Phases/Pairs.antt =====
-- A merge round of `worker_thread`: pairs of sorted parts are merged.
use osi_s.Prelude.{
  Perm, take-append-drop, ℕ, zero, suc, ◌+◌, ◌*◌, ◌≤◌, ◌<◌, ◌≡◌, refl, sym, ap₂, ◌∙◌, subst, Bool,
  List, [], ◌∷◌, ◌++◌, arith, length, take, drop,
}
use mathlib.Core.List.Perm
use osi_s.SortIndex.{merge_loop, slice, do_merge, merge_round}
use osi_s.SortIndex.Merge.{
  Order, IsBelow, IsSorted, merge_loop-IsSorted, merge_loop-perm, length-merge_loop,
}
use osi_s.SortIndex.Slices.{length-slice, slice_halves}
use osi_s.SortIndex.Phases.{
  Among, AllBelow, Work, AllSorted, Phase, part_before, store-Work, Work-ok, Phase-Work,
  Sorted-cons,
}

module _ {A : Type 0} (leq : A → A → Bool) (o : Order leq) where
  IsBelow-take : (n : ℕ) (x : A) (xs : List A) → IsBelow leq x xs → IsBelow leq x (take n xs)
  IsBelow-take zero x xs h = tt
  IsBelow-take (suc n) x [] h = tt
  IsBelow-take (suc n) x (y ∷ xs) h = (h.0, IsBelow-take n x xs h.1)

  IsSorted-take : (n : ℕ) (xs : List A) → IsSorted leq xs → IsSorted leq (take n xs)
  IsSorted-take zero xs h = tt
  IsSorted-take (suc n) [] h = tt
  IsSorted-take (suc n) (x ∷ xs) h = (IsBelow-take n x xs h.0, IsSorted-take n xs h.1)

  IsSorted-drop : (n : ℕ) (xs : List A) → IsSorted leq xs → IsSorted leq (drop n xs)
  IsSorted-drop zero xs h = h
  IsSorted-drop (suc n) [] h = tt
  IsSorted-drop (suc n) (x ∷ xs) h = IsSorted-drop n xs h.1

  -- A part that is ready for `do_merge`: both halves are sorted.
  abbrev pub IsReady : ℕ → List A → Type 0
  IsReady span part = IsSorted leq (take span part) × IsSorted leq (drop span part)

  module _ (qsort : List A → List A) where
    do_merge_lem :
        (j span n : ℕ) (base : List A)
        → length base ≡ n * (2 * span)
        → j < n
        → IsReady span (slice (j * (2 * span)) (2 * span) base)
        → Work (2 * span) j base (do_merge leq qsort j span base)
          × IsSorted leq (slice (j * (2 * span)) (2 * span) (do_merge leq qsort j span base))
    unfolding do_merge
    do_merge_lem j span n base len h ready =
        let done = store-Work (2 * span) j n m base len h size same in
        (done.0, subst (IsSorted leq) (sym done.1) sorted)
      where
        at : ℕ
        at = j * (2 * span)

        l : List A
        l = slice at span base

        r : List A
        r = slice (at + span) span base

        m : List A
        m = merge_loop leq l r []

        halves :
            (take span (slice at (2 * span) base) ≡ l) × (drop span (slice at (2 * span) base) ≡ r)
        halves = slice_halves at span base

        inside : at + 2 * span ≤ length base
        inside = omega (arith, part_before j n (2 * span) h)

        size : length m ≡ 2 * span
        size = omega (
          arith,
          length-merge_loop leq l r,
          length-slice at span base (omega (arith, inside)),
          length-slice (at + span) span base (omega (arith, inside)),
        )

        whole : l ++ r ≡ slice at (2 * span) base
        whole =
            ap₂ ◌++◌ (sym halves.0) (sym halves.1)
            ∙ take-append-drop span (slice at (2 * span) base)

        same : Perm m (slice at (2 * span) base)
        same = subst (Perm m) whole (merge_loop-perm leq l r)

        sorted : IsSorted leq m
        sorted =
            merge_loop-IsSorted leq o l r (subst (IsSorted leq) halves.0 ready.0)
              (subst (IsSorted leq) halves.1 ready.1)

    merge_round_lem :
        (order : List ℕ) (span n : ℕ) (base : List A)
        → length base ≡ n * (2 * span)
        → AllBelow n order
        → ((k : ℕ) → k < n → IsReady span (slice (k * (2 * span)) (2 * span) base))
        → Phase leq o qsort (2 * span) n (IsReady span) base (merge_round leq qsort order span base)
          × ((k : ℕ)
              → Among k order
              → IsSorted leq
                  (slice (k * (2 * span)) (2 * span) (merge_round leq qsort order span base)))
    unfolding merge_round
    merge_round_lem [] span n base len h ready = (
      record { same_length = refl; perm = Perm.rfl; ok = ready; kept = λ k _ s. s },
      λ k a. absurd a,
    )
    merge_round_lem (j ∷ order) span n base len h ready =
        let mid = do_merge leq qsort j span base in
        let one = do_merge_lem j span n base len h.0 (ready j h.0) in
        let rest = merge_round_lem order span n mid (one.0.length_same ∙ len) h.1 (λ k b.
          Work-ok leq o qsort (2 * span) j (IsReady span) base mid halves one.0 one.1 k
            (ready k b)) in
        (
          Phase-Work leq o qsort (2 * span) n j (IsReady span) base mid _ one.0 one.1 rest.0,
          Sorted-cons leq o qsort (2 * span) n j order (IsReady span) mid _ h.0 one.1 rest.0 rest.1,
        )
      where
        halves : (part : List A) → IsSorted leq part → IsReady span part
        halves part s = (IsSorted-take span part s, IsSorted-drop span part s)

    -- One round leaves every pair sorted, if each half was: in any order of the pairs that leaves
    -- none out, also if some are merged twice. It rearranges the array.
    pub merge_round-AllSorted :
        (order : List ℕ) (span n : ℕ) (base : List A)
        → length base ≡ n * (2 * span)
        → AllBelow n order
        → ((k : ℕ) → k < n → Among k order)
        → AllSorted leq o span (2 * n) base
        → let after = merge_round leq qsort order span base in
          (length after ≡ length base) × Perm after base × AllSorted leq o (2 * span) n after
    merge_round-AllSorted order span n base len below all sorted =
        let done = merge_round_lem order span n base len below ready in
        (done.0.same_length, done.0.perm, λ k h. done.1 k (all k h))
      where
        ready : (k : ℕ) → k < n → IsReady span (slice (k * (2 * span)) (2 * span) base)
        ready k h =
            let halves = slice_halves (k * (2 * span)) span base in
            (
              subst (IsSorted leq) (sym halves.0) (
                  subst (λ i. IsSorted leq (slice i span base)) (even k)
                    (sorted (2 * k) (omega arith))),
              subst (IsSorted leq) (sym halves.1) (
                  subst (λ i. IsSorted leq (slice i span base)) (odd k)
                    (sorted (2 * k + 1) (omega arith))),
            )
          where
            even : (k : ℕ) → 2 * k * span ≡ k * (2 * span)
            even k = omega arith

            odd : (k : ℕ) → (2 * k + 1) * span ≡ k * (2 * span) + span
            odd k = omega arith
