-- ===== src/Trash/Purge.antt =====
-- Purging from the trash of CourseWork: src/cli/purge.c.
use osi_s.Prelude.{
  length, ltb, ℕ, ◌≡◌, refl, sym, ap, ◌∙◌, subst, List, [], ◌∷◌, Bool, true, false, ◌&&◌, Option,
  none, some, if◌then◌else◌, Text, same, starts_with, arith, Bool-cases, inl, inr, same_iff,
}
use osi_s.Trash.{Disk, IsLawful, Node, regular, directory, link, under, AllUnder}
use osi_s.Trash.Paths.{trash_root, info_dir, file_path, info_path}
use osi_s.Trash.Paths.Apart.{info-file, under_self, file-outside, info-outside}
use osi_s.Trash.Commands.{
  cmd_purge, purge_file, remove_tree, remove_all, remove_tree_cb, tried, entry_id, go_on,
  purge_loop, if_entry, step_purge, cmd_purge_all, opened,
}

abbrev pub is_short : Option Text → Bool
is_short none = true
is_short (some id) = ltb (length id) 64

-- The names whose part before ".info" fits into `id`.
abbrev pub all_short : List Text → Bool
all_short [] = true
all_short (name ∷ names) = is_short (entry_id name) && all_short names

module _ (D : Disk) (L : IsLawful D) where
  open D use {State, lstat, stat, walk}

  not_same : (dir p q : Text) → under dir p ≡ false → under dir q ≡ true → same q p ≡ false
  not_same dir p q h k = elim (Bool-cases (same q p)) [
    | inl e ↦ cc (sym h ∙ subst (λ x. under dir x ≡ true) ((same_iff q p).0 e) k)
    | inr e ↦ e
  ]

  -- A step that may fail keeps what it and its continuation keep.
  go_on-keeps :
      (P : State → Type 0) (s : State) (o : Option State) (f : State → State × Bool)
      → P s
      → ((t : State) → o ≡ some t → P (f t).0)
      → P (go_on D s o f).0
  go_on-keeps P s none f h k = h
  go_on-keeps P s (some t) f h k = k t refl

  tried-keeps :
      (P : State → Type 0) (s : State) (o : Option State)
      → P s
      → ((t : State) → o ≡ some t → P t)
      → P (tried D s o).0
  tried-keeps P s none h k = h
  tried-keeps P s (some t) h k = k t refl

  unlink_other :
      (s t : State) (q p : Text) → D.unlink s q ≡ some t → same q p ≡ false → lstat t p ≡ lstat s p
  unlink_other s t q p e h = L.lstat-unlink s t q p e ∙ ap (λ b. if b then none else lstat s p) h

  callback_other :
      (s t : State) (q p : Text) (d : Bool)
      → remove_tree_cb D s (q, d) ≡ some t
      → same q p ≡ false
      → lstat t p ≡ lstat s p
  callback_other s t q p true e h =
      L.lstat-rmdir s t q p e ∙ ap (λ b. if b then none else lstat s p) h
  callback_other s t q p false e h = unlink_other s t q p e h

  -- Removing a tree touches nothing that is not under its root.
  remove_all_other :
      (dir p : Text) (es : List (Text × Bool)) (s : State)
      → AllUnder dir es
      → under dir p ≡ false
      → lstat (remove_all D es s).0 p ≡ lstat s p
  unfolding remove_all
  remove_all_other dir p [] s a h = refl
  remove_all_other dir p ((q, d) ∷ es) s (a, as') h =
      let rest = remove_all_other dir p es in
      go_on-keeps (λ x. lstat x p ≡ lstat s p) s (remove_tree_cb D s (q, d)) (remove_all D es) refl
        (λ t e. rest t as' h ∙ callback_other s t q p d e (not_same dir p q h a))

  purge_file_other :
      (path p : Text) (s : State) (o : Option Node)
      → under path p ≡ false
      → lstat (purge_file D path s o).0 p ≡ lstat s p
  unfolding purge_file remove_tree
  purge_file_other path p s none h = refl
  purge_file_other path p s (some directory) h =
      remove_all_other path p (walk s path) s (L.walk_under s path) h
  purge_file_other path p s (some (regular text)) h =
      tried-keeps (λ x. lstat x p ≡ lstat s p) s (D.unlink s path) refl
        (λ t e. unlink_other s t path p e (not_same path p path h (under_self path)))
  purge_file_other path p s (some (link target)) h =
      tried-keeps (λ x. lstat x p ≡ lstat s p) s (D.unlink s path) refl
        (λ t e. unlink_other s t path p e (not_same path p path h (under_self path)))

  -- `cmd_purge` changes nothing but the file of that name with what is below it, and its note,
  -- however its calls end.
  pub cmd_purge_other :
      (base id p : Text) (s : State)
      → under (file_path base id) p ≡ false
      → same (info_path base id) p ≡ false
      → lstat (cmd_purge D base id s).0 p ≡ lstat s p
  unfolding cmd_purge
  cmd_purge_other base id p s h k =
      let t = (purge_file D (file_path base id) s (stat s (file_path base id))).0 in
      tried-keeps (λ x. lstat x p ≡ lstat s p) t (D.unlink t (info_path base id))
        (purge_file_other (file_path base id) p s _ h)
        (λ u e.
          unlink_other t u (info_path base id) p e k ∙ purge_file_other (file_path base id) p s _ h)

  purge_loop_outside :
      (base p : Text) (names : List Text) (status : ℕ) (s : State)
      → all_short names ≡ true
      → starts_with (trash_root base) p ≡ false
      → lstat (purge_loop D base names status s).0 p ≡ lstat s p
  unfolding purge_loop
  purge_loop_outside base p [] status s k h = refl
  purge_loop_outside base p (name ∷ names) status s k h =
      at_entry (λ c t. purge_loop_outside base p names c t (ground arith) h) (entry_id name)
        (ground arith)
    where
      at_entry :
          ((c : ℕ) (t : State) → lstat (purge_loop D base names c t).0 p ≡ lstat t p)
          → (o : Option Text) → is_short o ≡ true
          → lstat
              (if_entry D o
                (λ id.
                  if ltb (length id) 64
                  then step_purge D (cmd_purge D base id s) status (purge_loop D base names)
                  else D.overrun s id)
                (purge_loop D base names status s)).0
              p
            ≡ lstat s p
      at_entry later none k = later status s
      at_entry later (some id) k = rw (k) (
          later _ _
          ∙ cmd_purge_other base id p s (file-outside base id p h) (info-outside base id p h))

  -- If the names in the directory of the notes fit into `id`, `cmd_purge_all` changes nothing outside
  -- the trash, whatever stands in it and whichever calls fail.
  pub cmd_purge_all_outside :
      (base p : Text) (s : State)
      → ((names : List Text) → D.names s (info_dir base) ≡ some names → all_short names ≡ true)
      → starts_with (trash_root base) p ≡ false
      → lstat (cmd_purge_all D base s).0 p ≡ lstat s p
  unfolding cmd_purge_all
  cmd_purge_all_outside base p s k h = either (D.names s (info_dir base)) refl
    where
      either :
          (o : Option (List Text))
          → D.names s (info_dir base) ≡ o
          → lstat (opened D base s o).0 p ≡ lstat s p
      either none e = unfold opened in refl
      either (some names) e = unfold opened in purge_loop_outside base p names 0 s (k names e) h

  -- When `cmd_purge` returns 0 for a file, neither the file nor its note is left.
  pub cmd_purge_gone :
      (base id text : Text) (s u : State)
      → stat s (file_path base id) ≡ some (regular text)
      → cmd_purge D base id s ≡ (u, 0)
      → (lstat u (file_path base id) ≡ none) × (lstat u (info_path base id) ≡ none)
  unfolding cmd_purge purge_file
  cmd_purge_gone base id text s u st e =
      removed_both (D.unlink s file) (D.unlink (tried D s (D.unlink s file)).0 note) refl refl (
        subst
          (λ o.
            let (t, one) = purge_file D file s o in
            let (x, two) = tried D t (D.unlink t note) in
            ◌≡◌ {A = State × ℕ} (x, if one && two then 0 else 1) (u, 0))
          st e)
    where
      file : Text
      file = file_path base id

      note : Text
      note = info_path base id

      removed_both :
          (o o' : Option State)
          → D.unlink s file ≡ o
          → D.unlink (tried D s o).0 note ≡ o'
          → ◌≡◌ {A = State × ℕ}
              (
                (tried D (tried D s o).0 o').0,
                if (tried D s o).1 && (tried D (tried D s o).0 o').1 then 0 else 1,
              )
              (u, 0)
          → (lstat u file ≡ none) × (lstat u note ≡ none)
      removed_both none none p q r = absurd (omega (arith, ap (λ x. x.1) r))
      removed_both none (some w) p q r = absurd (omega (arith, ap (λ x. x.1) r))
      removed_both (some t) none p q r = absurd (omega (arith, ap (λ x. x.1) r))
      removed_both (some t) (some w) p q r =
          subst (λ x. (lstat x file ≡ none) × (lstat x note ≡ none)) (ap (λ x. x.0) r)
            (
              unlink_other t w note file q (info-file base id id)
                  ∙ L.lstat-unlink s t file file p
                  ∙ ap (λ b. if b then none else lstat s file) ((same_iff file file).1 refl),
              L.lstat-unlink t w note note q
                  ∙ ap (λ b. if b then none else lstat t note) ((same_iff note note).1 refl),
            )
