-- ===== src/SortIndex/Merge.antt =====
-- The loops of `do_merge` of lab06/src/sort_index.c on two runs.
use osi_s.Prelude.{
  ◌+◌, ◌≡◌, refl, List, [], ◌∷◌, ◌++◌, Bool, true, false, length, append-nil, append_assoc, Perm,
  perm_middle, arith, Bool-cases, inl, inr,
}
use mathlib.Core.List.Perm
use osi_s.SortIndex.{merge_loop}

-- What the sort needs of its comparison.
pub record Order {A : Type 0} (leq : A → A → Bool) : Type 0 where
  pub total : (a b : A) → leq a b ≡ false → leq b a ≡ true
  pub trans : (a b c : A) → leq a b ≡ true → leq b c ≡ true → leq a c ≡ true

module _ {A : Type 0} (leq : A → A → Bool) where
  abbrev pub IsBelow : A → List A → Type 0
  IsBelow x [] = Unit
  IsBelow x (y ∷ ys) = (leq x y ≡ true) × IsBelow x ys

  abbrev pub IsSorted : List A → Type 0
  IsSorted [] = Unit
  IsSorted (x ∷ xs) = IsBelow x xs × IsSorted xs

  -- The merge without its accumulator.
  merged : List A → List A → List A
  merged [] r = r
  merged (x ∷ l) [] = x ∷ l
  merged (x ∷ l) (y ∷ r) = elim (leq x y) [
    | true ↦ x ∷ merged l (y ∷ r)
    | false ↦ y ∷ merged (x ∷ l) r
  ]

  merge_loop-merged : (l r tmp : List A) → merge_loop leq l r tmp ≡ tmp ++ merged l r
  unfolding merge_loop merged
  merge_loop-merged [] r tmp = refl
  merge_loop-merged (x ∷ l) [] tmp = refl
  merge_loop-merged (x ∷ l) (y ∷ r) tmp = ground (
    arith,
    merge_loop-merged l (y ∷ r) (tmp ++ x ∷ []),
    merge_loop-merged (x ∷ l) r (tmp ++ y ∷ []),
    append_assoc tmp (x ∷ []) (merged l (y ∷ r)),
    append_assoc tmp (y ∷ []) (merged (x ∷ l) r),
  )

  merged_left :
      (x y : A) (l r : List A) → leq x y ≡ true → merged (x ∷ l) (y ∷ r) ≡ x ∷ merged l (y ∷ r)
  unfolding merged
  merged_left x y l r p = ground arith

  merged_right :
      (x y : A) (l r : List A) → leq x y ≡ false → merged (x ∷ l) (y ∷ r) ≡ y ∷ merged (x ∷ l) r
  unfolding merged
  merged_right x y l r p = ground arith

  merged-perm : (l r : List A) → Perm (merged l r) (l ++ r)
  unfolding merged
  merged-perm [] r = Perm.rfl
  merged-perm (x ∷ l) [] = rw (append-nil l) Perm.rfl
  merged-perm (x ∷ l) (y ∷ r) = elim (Bool-cases (leq x y)) [
    | inl p ↦ rw (merged_left x y l r p) (Perm.cons x (merged-perm l (y ∷ r)))
    | inr p ↦
        rw (merged_right x y l r p)
          (Perm.trans (Perm.cons y (merged-perm (x ∷ l) r)) (Perm.symm (perm_middle (x ∷ l) r)))
  ]

  length-merged : (l r : List A) → length (merged l r) ≡ length l + length r
  unfolding merged
  length-merged [] r = omega arith
  length-merged (x ∷ l) [] = omega arith
  length-merged (x ∷ l) (y ∷ r) = ground (arith, length-merged l (y ∷ r), length-merged (x ∷ l) r)

  module _ (o : Order leq) where
    IsBelow-trans : (x y : A) (ys : List A) → leq x y ≡ true → IsBelow y ys → IsBelow x ys
    IsBelow-trans x y [] p h = tt
    IsBelow-trans x y (z ∷ ys) p h = (o.trans x y z p h.0, IsBelow-trans x y ys p h.1)

    IsBelow-merged : (x : A) (l r : List A) → IsBelow x l → IsBelow x r → IsBelow x (merged l r)
    unfolding merged
    IsBelow-merged x [] r p q = q
    IsBelow-merged x (a ∷ l) [] p q = p
    IsBelow-merged x (a ∷ l) (b ∷ r) p q = elim (Bool-cases (leq a b)) [
      | inl e ↦ rw (merged_left a b l r e) (p.0, IsBelow-merged x l (b ∷ r) p.1 q)
      | inr e ↦ rw (merged_right a b l r e) (q.0, IsBelow-merged x (a ∷ l) r p q.1)
    ]

    merged-IsSorted : (l r : List A) → IsSorted l → IsSorted r → IsSorted (merged l r)
    unfolding merged
    merged-IsSorted [] r p q = q
    merged-IsSorted (x ∷ l) [] p q = p
    merged-IsSorted (x ∷ l) (y ∷ r) p q = elim (Bool-cases (leq x y)) [
      | inl e ↦ rw (merged_left x y l r e) (
        IsBelow-merged x l (y ∷ r) p.0 (e, IsBelow-trans x y r e q.0),
        merged-IsSorted l (y ∷ r) p.1 q,
      )
      | inr e ↦
          let e' = o.total x y e in
          rw (merged_right x y l r e) (
            IsBelow-merged y (x ∷ l) r (e', IsBelow-trans y x l e' p.0) q.0,
            merged-IsSorted (x ∷ l) r p q.1,
          )
    ]

    -- The loops of `do_merge` make one sorted run of two.
    pub merge_loop-IsSorted :
        (l r : List A) → IsSorted l → IsSorted r → IsSorted (merge_loop leq l r [])
    merge_loop-IsSorted l r p q = rw (merge_loop-merged l r []) (merged-IsSorted l r p q)

  -- They lose and invent nothing, whatever the runs.
  pub merge_loop-perm : (l r : List A) → Perm (merge_loop leq l r []) (l ++ r)
  merge_loop-perm l r = rw (merge_loop-merged l r []) (merged-perm l r)

  pub length-merge_loop : (l r : List A) → length (merge_loop leq l r []) ≡ length l + length r
  length-merge_loop l r = rw (merge_loop-merged l r []) (length-merged l r)
