-- ===== src/SortIndex/Compare.antt =====
-- `cmp_index_s` of lab06/src/sort_index.c as an order on entries.
use osi_s.Prelude.{
  ◌≤◌, ◌↔◌, ◌⊎◌, subst, ◌≡◌, sym, ◌∙◌, Bool, true, false, arith, Bool-cases, inl, inr,
}
use osi_s.SortIndex.{Index, Cmp, below, equal, above, Marks, cmp_index_s, not_above}
use osi_s.SortIndex.Merge.{Order}

-- The other answer.
abbrev pub mirror : Cmp → Cmp
mirror below = above
mirror equal = equal
mirror above = below

module _ (marks : Marks) where
  open marks use {Mark, before, before_trans, before_irrefl, before_total}

  abbrev pub leq : Index Mark → Index Mark → Bool
  leq a b = not_above (cmp_index_s marks a b)

  leq_total : (a b : Index Mark) → leq a b ≡ false → leq b a ≡ true
  unfolding cmp_index_s
  leq_total a b h = ground (arith, before_total a.time_mark b.time_mark)

  -- Before in time, or at the same time and not after by number.
  leq_cases :
      (a b : Index Mark)
      → leq a b ≡ true
      → (before a.time_mark b.time_mark ≡ true)
        ⊎ ((a.time_mark ≡ b.time_mark) × (a.recno ≤ b.recno))
  unfolding cmp_index_s
  leq_cases a b h = elim (Bool-cases (before a.time_mark b.time_mark)) [
    | inl e ↦ inl e
    | inr e ↦ inr (ground (arith, before_total a.time_mark b.time_mark), ground arith)
  ]

  leq_of_before : (a b : Index Mark) → before a.time_mark b.time_mark ≡ true → leq a b ≡ true
  unfolding cmp_index_s
  leq_of_before a b h = ground arith

  leq_of_same : (a b : Index Mark) → a.time_mark ≡ b.time_mark → a.recno ≤ b.recno → leq a b ≡ true
  unfolding cmp_index_s
  leq_of_same a b e h = ground (
    arith,
    subst (λ t. before t b.time_mark ≡ false) (sym e) (before_irrefl b.time_mark),
    subst (λ t. before b.time_mark t ≡ false) (sym e) (before_irrefl b.time_mark),
  )

  leq_trans : (a b c : Index Mark) → leq a b ≡ true → leq b c ≡ true → leq a c ≡ true
  leq_trans a b c p q = elim (leq_cases a b p) [
    | inl x ↦ elim (leq_cases b c q) [
      | inl y ↦ leq_of_before a c (before_trans _ _ _ x y)
      | inr y ↦ leq_of_before a c (subst (λ t. before a.time_mark t ≡ true) y.0 x)
    ]
    | inr x ↦ elim (leq_cases b c q) [
      | inl y ↦ leq_of_before a c (subst (λ t. before t c.time_mark ≡ true) (sym x.0) y)
      | inr y ↦ leq_of_same a c (x.0 ∙ y.0) (omega (arith, x.1, y.1))
    ]
  ]

  pub cmp_index_s-Order : Order leq
  cmp_index_s-Order = record { total = leq_total; trans = leq_trans }

  never_both : (a b : Mark) → before a b ≡ true → before b a ≡ false
  never_both a b p = elim (Bool-cases (before b a)) [
    | inl q ↦ absurd (ground (arith, before_trans a b a p q, before_irrefl a))
    | inr q ↦ q
  ]

  -- Which entry comes first does not depend on the order of the arguments, and two entries compare as
  -- equal exactly if they have one time and one number.
  pub cmp_index_s-mirror :
      (a b : Index Mark)
      → (cmp_index_s marks b a ≡ mirror (cmp_index_s marks a b))
        × ((cmp_index_s marks a b ≡ equal) ↔ (a ≡ b))
  unfolding cmp_index_s
  cmp_index_s-mirror a b = (
    ground (arith, never_both a.time_mark b.time_mark),
    (
      λ h. Index_ext (ground (arith, before_total a.time_mark b.time_mark)) (ground arith),
      λ e. subst (λ c. cmp_index_s marks a c ≡ equal) e (ground (arith, before_irrefl a.time_mark)),
    ),
  )
    where
      Index_ext : {x y : Index Mark} → x.time_mark ≡ y.time_mark → x.recno ≡ y.recno → x ≡ y
      Index_ext p q = λ i. record { time_mark = p i; recno = q i }
