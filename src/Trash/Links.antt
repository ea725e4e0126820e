-- ===== src/Trash/Links.antt =====
-- Restoring in the trash of CourseWork over what stands at the original path, and where it fails.
use osi_s.Prelude.{
  ℕ, ◌≡◌, ◌≤◌, refl, sym, ap, ◌∙◌, subst, [], ◌∷◌, append-nil, true, false, Option, none, some,
  if◌then◌else◌, Text, bytes, starts_with, has, length, arith, same_iff,
}
use osi_s.Trash.{Disk, IsLawful, Node, regular, link, under}
use osi_s.Trash.Info.{info_text, read_original}
use osi_s.Trash.Paths.{trash_root, file_path, info_path}
use osi_s.Trash.Paths.Apart.{info-file, info-outside, under_self}
use osi_s.Trash.Delete
use osi_s.Trash.Delete.{Env, ensure_directories, generate_unique_name}
use osi_s.Trash.Commands.{cmd_restore, restore_from, restore_to, restored, contents, if_there}
use osi_s.Trash.Restore.{unlink_lem, restore_lem, absolute_ne}

module _ (D : Disk) (L : IsLawful D) where
  open D use {State, lstat, stat, rename, write}

  rename_place : (s t : State) (a b : Text) → rename s a b ≡ some t → lstat t b ≡ lstat s a
  rename_place s t a b e =
      ap (lstat t) (sym (append-nil b))
      ∙ L.lstat-rename_new s t a b [] e
          (subst (λ q. under b q ≡ true) (sym (append-nil b)) (under_self b))
      ∙ ap (lstat s) (append-nil a)

  -- A link that is deleted and restored replaces what it led to: the note holds the real path of its
  -- target, and the link is put there. It holds if that path is absolute, has no newline and at most
  -- 241 bytes, and both lie outside the trash; and if the system carries out the calls.
  pub restore-unlink_link :
      (env : Env) (dirname : Text → Text) (path target real : Text) (n d : Node) (s t u v w : State)
      → let id = generate_unique_name env.stamp (env.basename path) in
        let ready = ensure_directories D env.base s in
        starts_with (bytes "/") path ≡ true
        → starts_with (bytes "/") real ≡ true
        → has b'\n' real ≡ false
        → length real ≤ 241
        → starts_with (trash_root env.base) path ≡ false
        → starts_with (trash_root env.base) real ≡ false
        → lstat ready path ≡ some (link target)
        → D.realpath ready path ≡ some real
        → stat ready path ≡ some n
        → rename ready path (file_path env.base id) ≡ some t
        → write t (info_path env.base id) (info_text real env.time (env.size n)) ≡ some u
        → stat u (dirname real) ≡ some d
        → rename u (file_path env.base id) real ≡ some v
        → D.unlink v (info_path env.base id) ≡ some w
        → (Delete.unlink D env path s ≡ (u, true))
          × (cmd_restore D dirname env.base id u ≡ (w, 0))
          × (lstat w real ≡ some (link target))
  restore-unlink_link env dirname path target real n d s t u v w abs rabs clean short out rout
        at_link to_real st e1 e2 dir e3 e4 =
      let id = generate_unique_name env.stamp (env.basename path) in
      let file = file_path env.base id in
      let note = info_path env.base id in
      let text = info_text real env.time (env.size n) in
      let ready = ensure_directories D env.base s in
      (
        unlink_lem D L env path real n s t u abs out to_real st e1 e2,
        restore_lem D L dirname env.base id real env.time (env.size n) d u v w
            (λ e. absolute_ne D L (subst (λ q. starts_with (bytes "/") q ≡ true) e rabs)) clean
            short
            (L.stat_regular u note text (
              L.lstat-write t u note text note e2
              ∙ ap (λ b. if b then some (regular text) else lstat t note)
                  ((same_iff note note).1 refl)))
            dir e3 e4,
        L.lstat-unlink v w note real e4
            ∙ ap (λ b. if b then none else lstat v real) (info-outside env.base id real rout)
            ∙ rename_place u v file real e3
            ∙ (L.lstat-write t u note text file e2
                ∙ ap (λ b. if b then some (regular text) else lstat t file)
                    (info-file env.base id id))
            ∙ rename_place ready t path file e1
            ∙ at_link,
      )

  -- A restore that returns 1 has changed nothing.
  pub cmd_restore_fails :
      (dirname : Text → Text) (base id : Text) (s u : State)
      → cmd_restore D dirname base id s ≡ (u, 1)
      → u ≡ s
  unfolding cmd_restore
  cmd_restore_fails dirname base id s u = from (contents D (stat s (info_path base id)))
    where
      end : (o : Option State) → ◌≡◌ {A = State × ℕ} (restored D base id s o) (u, 1) → u ≡ s
      end none e = sym (ap (λ x. x.0) e)
      end (some t) e = absurd (omega (arith, ap (λ x. x.1) e))

      there :
          (path : Text) (o : Option Node)
          → ◌≡◌ {A = State × ℕ}
              (if_there D o (s, 1) (restored D base id s (rename s (file_path base id) path)))
              (u, 1)
          → u ≡ s
      there path none e = sym (ap (λ x. x.0) e)
      there path (some d) e = end _ e

      to : (path : Text) → restore_to D dirname base id path s ≡ (u, 1) → u ≡ s
      to [] e = unfold restore_to in sym (ap (λ x. x.0) e)
      to (c ∷ cs) e = there (c ∷ cs) (stat s (dirname (c ∷ cs))) (unfold restore_to in e)

      from : (o : Option Text) → restore_from D dirname base id o s ≡ (u, 1) → u ≡ s
      from none e = unfold restore_from in sym (ap (λ x. x.0) e)
      from (some text) e = to (read_original text) (unfold restore_from in e)
