-- ===== src/Trash/Paths/Apart.antt =====
-- Which paths lie apart from each other.
use osi_s.Prelude.{
  ℕ, ◌≡◌, ◌⊎◌, refl, sym, ap, ◌∙◌, subst, [], ◌∷◌, ◌++◌, append_assoc, append-nil, Bool, true,
  false, ◌||◌, ==_iff, Text, bytes, same, starts_with, starts_with-append, starts_with_self,
  same_iff, arith, Bool-cases, inl, inr, ap₂,
}
use osi_s.Trash.{under}
use osi_s.Trash.Paths.{trash_root, file_path, info_path}

same-append : (p a b : Text) → same (p ++ a) (p ++ b) ≡ same a b
unfolding same
same-append [] a b = refl
same-append (c ∷ p) a b = ground (arith, same-append p a b)

starts_with_left : (a b p : Text) → starts_with (a ++ b) p ≡ true → starts_with a p ≡ true
unfolding starts_with
starts_with_left [] b p h = refl
starts_with_left (c ∷ a) b [] h = cc
starts_with_left (c ∷ a) b (d ∷ p) h = ground (arith, starts_with_left a b p)

-- Of a text and a prefix of a longer one, one begins the other.
prefix_split :
    (p r z : Text)
    → starts_with p (r ++ z) ≡ true
    → (starts_with p r ≡ true) ⊎ (starts_with r p ≡ true)
unfolding starts_with
prefix_split p [] z h = inr refl
prefix_split [] (d ∷ r) z h = inl refl
prefix_split (c ∷ p) (d ∷ r) z h = ground (arith, prefix_split p r z)

prefix_snoc :
    (r a : Text) (c : ℕ)
    → starts_with r (a ++ (c ∷ [])) ≡ true
    → (starts_with r a ≡ true) ⊎ (r ≡ a ++ (c ∷ []))
unfolding starts_with
prefix_snoc [] a c h = inl refl
prefix_snoc (d ∷ []) [] c h = ground (arith, ==_iff d c)
prefix_snoc (d ∷ e ∷ r) [] c h = ground arith
prefix_snoc (d ∷ r) (b ∷ a) c h = elim (prefix_snoc r a c (ground arith)) [
  | inl x ↦ inl (ground arith)
  | inr x ↦ inr (ap₂ ◌∷◌ (ground arith) x)
]

-- What is under a path goes on from it, by nothing or by '/'.
abbrev goes_on : Text → Bool
goes_on rest = same [] rest || starts_with (b'/' ∷ []) rest

under-append : (a rest : Text) → under a (a ++ rest) ≡ goes_on rest
unfolding under
under-append a rest =
    ap₂ ◌||◌ (ap (λ x. same x (a ++ rest)) (sym (append-nil a)) ∙ same-append a [] rest)
      (starts_with-append a (b'/' ∷ []) rest)

-- The same continuation is under any path.
pub under_moved : (a b rest : Text) → under a (a ++ rest) ≡ under b (b ++ rest)
under_moved a b rest = under-append a rest ∙ sym (under-append b rest)

starts_with_split : (a p : Text) → starts_with a p ≡ true → (rest : Text) × (p ≡ a ++ rest)
unfolding starts_with
starts_with_split [] p h = (p, refl)
starts_with_split (c ∷ a) [] h = cc
starts_with_split (c ∷ a) (d ∷ p) h =
    let tail = starts_with_split a p (ground arith) in (tail.0, ap₂ ◌∷◌ (ground arith) tail.1)

pub under_split : (a p : Text) → under a p ≡ true → (rest : Text) × (p ≡ a ++ rest)
unfolding under
under_split a p h = elim (Bool-cases (same a p)) [
  | inl e ↦ ([], sym ((same_iff a p).0 e) ∙ sym (append-nil a))
  | inr n ↦
      let more = starts_with_split (a ++ (b'/' ∷ [])) p (ground arith) in
      (b'/' ∷ more.0, more.1 ∙ append_assoc a (b'/' ∷ []) more.0)
]

pub under_self : (a : Text) → under a a ≡ true
unfolding under
under_self a = rw ((same_iff a a).1 refl) refl

-- What is under a path begins with it.
under-starts_with : (a p : Text) → under a p ≡ true → starts_with a p ≡ true
under-starts_with a p h =
    let s = under_split a p h in
    subst (λ q. starts_with a q ≡ true) (sym s.1) (starts_with_self a s.0)

under_cases : (a p : Text) → under a p ≡ true → (a ≡ p) ⊎ (starts_with (a ++ (b'/' ∷ [])) p ≡ true)
unfolding under
under_cases a p h = elim (Bool-cases (same a p)) [
  | inl e ↦ inl ((same_iff a p).0 e)
  | inr n ↦ inr (ground arith)
]

below_under : (a p : Text) → starts_with (a ++ (b'/' ∷ [])) p ≡ true → under a p ≡ true
unfolding under
below_under a p h = ground arith

self_prefix : (a : Text) → starts_with a a ≡ true
self_prefix a = ap (starts_with a) (sym (append-nil a)) ∙ starts_with_self a []

refuted : (b : Bool) → (b ≡ true → ⊥) → b ≡ false
refuted true h = absurd (h refl)
refuted false h = refl

module _ (base : Text) where
  file_root : (id : Text) → file_path base id ≡ trash_root base ++ (bytes "/files/" ++ id)
  unfolding file_path
  file_root id = sym (append_assoc base (bytes "/.trash") (bytes "/files/" ++ id))

  info_root :
      (id : Text) → info_path base id ≡ trash_root base ++ (bytes "/info/" ++ (id ++ bytes ".info"))
  unfolding info_path
  info_root id = sym (append_assoc base (bytes "/.trash") (bytes "/info/" ++ (id ++ bytes ".info")))

  file_differs : (id jd : Text) → starts_with (file_path base id) (info_path base jd) ≡ false
  unfolding file_path info_path starts_with
  file_differs id jd = starts_with-append base _ _

  -- Files and notes lie apart in the trash.
  pub file-info : (id jd : Text) → under (file_path base id) (info_path base jd) ≡ false
  file-info id jd = refuted _ λ h. cc (sym (file_differs id jd) ∙ under-starts_with _ _ h)

  pub info-file : (id jd : Text) → same (info_path base id) (file_path base jd) ≡ false
  unfolding info_path file_path same
  info-file id jd = same-append base _ _

  -- A path outside the trash is not under a file or a note of it.
  pub file-outside :
      (id p : Text) → starts_with (trash_root base) p ≡ false → under (file_path base id) p ≡ false
  file-outside id p h = refuted _ λ u. cc (
      sym h
      ∙ starts_with_left (trash_root base) (bytes "/files/" ++ id) p
          (subst (λ q. starts_with q p ≡ true) (file_root id) (under-starts_with _ _ u)))

  pub info-outside :
      (id p : Text) → starts_with (trash_root base) p ≡ false → same (info_path base id) p ≡ false
  info-outside id p h = refuted _ λ u. cc (
      sym h
      ∙ subst (λ q. starts_with (trash_root base) q ≡ true)
          (sym (info_root id) ∙ (same_iff _ p).0 u)
          (starts_with_self (trash_root base) (bytes "/info/" ++ (id ++ bytes ".info"))))

  -- Nor is anything of the trash under a path that neither is in the trash nor holds it.
  pub outside-trash :
      (p z : Text)
      → starts_with (trash_root base) p ≡ false
      → under p (trash_root base) ≡ false
      → under p (trash_root base ++ z) ≡ false
  outside-trash p z h k = refuted _ λ u. elim (under_cases p (trash_root base ++ z) u) [
    | inl e ↦ cc (
        sym h
        ∙ subst (λ q. starts_with (trash_root base) q ≡ true) (sym e)
            (starts_with_self (trash_root base) z))
    | inr b ↦ elim (prefix_split (p ++ (b'/' ∷ [])) (trash_root base) z b) [
      | inl long ↦ cc (sym k ∙ below_under p (trash_root base) long)
      | inr short ↦ elim (prefix_snoc (trash_root base) p b'/' short) [
        | inl inside ↦ cc (sym h ∙ inside)
        | inr whole ↦ cc (
            sym k
            ∙ below_under p (trash_root base) (
                subst (λ q. starts_with q (trash_root base) ≡ true) whole
                  (self_prefix (trash_root base))))
      ]
    ]
  ]

  pub outside-file :
      (p id : Text)
      → starts_with (trash_root base) p ≡ false
      → under p (trash_root base) ≡ false
      → under p (file_path base id) ≡ false
  outside-file p id h k = ap (under p) (file_root id) ∙ outside-trash p (bytes "/files/" ++ id) h k

  pub outside-info :
      (p id : Text)
      → starts_with (trash_root base) p ≡ false
      → under p (trash_root base) ≡ false
      → under p (info_path base id) ≡ false
  outside-info p id h k =
      ap (under p) (info_root id) ∙ outside-trash p (bytes "/info/" ++ (id ++ bytes ".info")) h k
