-- ===== src/Trash/Restore.antt =====
-- Deleting with the interceptor of CourseWork and restoring with its command.
use osi_s.Prelude.{
  take_all, ◌≡◌, ◌≢◌, ◌≤◌, refl, sym, ap, ◌∙◌, subst, [], ◌∷◌, ◌++◌, true, false, Option, none,
  some, if◌then◌else◌, Text, bytes, same, starts_with, has, length, arith, Bool-cases, inl, inr,
  same_iff,
}
use osi_s.Trash.{Disk, IsLawful, Node, regular, under}
use osi_s.Trash.Info.{info_text}
use osi_s.Trash.Info.Laws.{read_original-info_text}
use osi_s.Trash.Paths.{trash_root, file_path, info_path}
use osi_s.Trash.Paths.Apart.{file-info, outside-info, under_split, under_moved}
use osi_s.Trash.Delete
use osi_s.Trash.Delete.{
  Env, ensure_directories, move_found, moved, move_to_trash, try_move, build_abs_path,
  generate_unique_name, attempt, orig_real, or_real,
}
use osi_s.Trash.Commands.{cmd_restore, restore_from, restore_to}

module _ (D : Disk) (L : IsLawful D) where
  open D use {State, lstat, stat, rename, write}

  -- A move away and back with a note written between and removed after it changes nothing, outside
  -- the note and the place where the moved things stood.
  move_back :
      (base id path text : Text) (s t u v w : State) (p : Text)
      → starts_with (trash_root base) path ≡ false
      → under path (trash_root base) ≡ false
      → ((q : Text) → under (file_path base id) q ≡ true → lstat s q ≡ none)
      → lstat s (info_path base id) ≡ none
      → rename s path (file_path base id) ≡ some t
      → write t (info_path base id) text ≡ some u
      → rename u (file_path base id) path ≡ some v
      → D.unlink v (info_path base id) ≡ some w
      → lstat w p ≡ lstat s p
  move_back base id path text s t u v w p out hold fresh new e1 e2 e3 e4 =
      elim (Bool-cases (under path p)) [
        | inl moved ↦
            let cut = under_split path p moved in
            let rest = cut.0 in
            let here : under path (path ++ rest) ≡ true =
              subst (λ q. under path q ≡ true) cut.1 moved in
            let there : under file (file ++ rest) ≡ true = under_moved file path rest ∙ here in
            subst (λ q. lstat w q ≡ lstat s q) (sym cut.1)
              (kept (path ++ rest) (not_note (path ++ rest) here)
                ∙ L.lstat-rename_new u v file path rest e3 here
                ∙ (L.lstat-write t u note text (file ++ rest) e2
                    ∙ ap (λ b. if b then some (regular text) else lstat t (file ++ rest))
                        (info_apart (file ++ rest) there))
                ∙ L.lstat-rename_new s t path file rest e1 there)
        | inr still ↦ elim (Bool-cases (under file p)) [
          | inl gone ↦
              kept p (info_apart p gone)
              ∙ L.lstat-rename_old u v file path p e3 gone still
              ∙ sym (fresh p gone)
          | inr other ↦ elim (Bool-cases (same note p)) [
            | inl here ↦
                L.lstat-unlink v w note p e4
                ∙ ap (λ b. if b then none else lstat v p) here
                ∙ sym (ap (lstat s) (sym ((same_iff note p).0 here)) ∙ new)
            | inr elsewhere ↦
                kept p elsewhere
                ∙ L.lstat-rename_other u v file path p e3 other still
                ∙ (L.lstat-write t u note text p e2
                    ∙ ap (λ b. if b then some (regular text) else lstat t p) elsewhere)
                ∙ L.lstat-rename_other s t path file p e1 still other
          ]
        ]
      ]
    where
      file : Text
      file = file_path base id

      note : Text
      note = info_path base id

      kept : (q : Text) → same note q ≡ false → lstat w q ≡ lstat v q
      kept q h = L.lstat-unlink v w note q e4 ∙ ap (λ b. if b then none else lstat v q) h

      info_apart : (q : Text) → under file q ≡ true → same note q ≡ false
      info_apart q h = elim (Bool-cases (same note q)) [
        | inl e ↦ cc (
            sym (file-info base id id)
            ∙ subst (λ r. under file r ≡ true) (sym ((same_iff note q).0 e)) h)
        | inr e ↦ e
      ]

      not_note : (q : Text) → under path q ≡ true → same note q ≡ false
      not_note q h = elim (Bool-cases (same note q)) [
        | inl e ↦ cc (
            sym (outside-info base path id out hold)
            ∙ subst (λ r. under path r ≡ true) (sym ((same_iff note q).0 e)) h)
        | inr e ↦ e
      ]

  move_found_lem :
      (env : Env) (path orig : Text) (n : Node) (s t u : State)
      → let id = generate_unique_name env.stamp (env.basename path) in
        starts_with (trash_root env.base) path ≡ false
        → rename s path (file_path env.base id) ≡ some t
        → write t (info_path env.base id) (info_text orig env.time (env.size n)) ≡ some u
        → move_found D env path orig s (some n) ≡ (u, true)
  unfolding move_found moved
  move_found_lem env path orig n s t u out e1 e2 = rw (out, e1, e2) refl

  pub absolute_ne : starts_with (bytes "/") [] ≢ true
  unfolding starts_with
  absolute_ne h = cc

  absolute :
      (dir : Option Text) (path : Text)
      → starts_with (bytes "/") path ≡ true
      → build_abs_path D dir path ≡ some path
  unfolding build_abs_path starts_with
  absolute dir [] h = cc
  absolute dir (c ∷ cs) h = ground arith

  pub unlink_lem :
      (env : Env) (path orig : Text) (n : Node) (s t u : State)
      → let id = generate_unique_name env.stamp (env.basename path) in
        let ready = ensure_directories D env.base s in
        starts_with (bytes "/") path ≡ true
        → starts_with (trash_root env.base) path ≡ false
        → D.realpath ready path ≡ some orig
        → stat ready path ≡ some n
        → rename ready path (file_path env.base id) ≡ some t
        → write t (info_path env.base id) (info_text orig env.time (env.size n)) ≡ some u
        → Delete.unlink D env path s ≡ (u, true)
  unfolding Delete.unlink
  unlink_lem env path orig n s t u abs out real st e1 e2 =
      ap (λ o. or_real D (λ x. D.unlink x path) (try_move D env o s)) (absolute env.cwd path abs)
      ∙ ap (or_real D (λ x. D.unlink x path)) moves
    where
      ready : State
      ready = ensure_directories D env.base s

      moves : try_move D env (some path) s ≡ (u, true)
      moves =
          unfold try_move move_to_trash in
          rw (real, st) (move_found_lem env path orig n ready t u out e1 e2)

  pub restore_lem :
      (dirname : Text → Text) (base id path time size : Text) (d : Node) (u v w : State)
      → path ≢ []
      → has b'\n' path ≡ false
      → length path ≤ 241
      → stat u (info_path base id) ≡ some (regular (info_text path time size))
      → stat u (dirname path) ≡ some d
      → rename u (file_path base id) path ≡ some v
      → D.unlink v (info_path base id) ≡ some w
      → cmd_restore D dirname base id u ≡ (w, 0)
  unfolding cmd_restore restore_from
  restore_lem dirname base id path time size d u v w ne clean short st dir e3 e4 = rw st (
      ap (λ o. restore_to D dirname base id o u)
        (read_original-info_text path time size ne clean ∙ take_all 241 path short)
      ∙ restore_to_lem path ne dir e3)
    where
      restore_to_lem :
          (q : Text)
          → q ≢ []
          → stat u (dirname q) ≡ some d
          → rename u (file_path base id) q ≡ some v
          → restore_to D dirname base id q u ≡ (w, 0)
      restore_to_lem [] h k r = absurd (h refl)
      restore_to_lem (c ∷ cs) h k r = unfold restore_to in rw (k, r, e4) refl

  -- A round trip. Deleting `path` with the interceptor succeeds, restoring it by the name that it was
  -- given succeeds too, and at every path everything is again as it was when the directories of the
  -- trash stood. It holds for a file, a directory or what else `stat` shows, if: the path is its own
  -- real path, has no newline and at most 241 bytes, and lies apart from the trash; nothing stood
  -- under the new name before; and the system carries out the calls.
  pub restore-unlink :
      (env : Env) (dirname : Text → Text) (path : Text) (n d : Node) (s t u v w : State) (p : Text)
      → let id = generate_unique_name env.stamp (env.basename path) in
        let ready = ensure_directories D env.base s in
        starts_with (bytes "/") path ≡ true
        → has b'\n' path ≡ false
        → length path ≤ 241
        → starts_with (trash_root env.base) path ≡ false
        → under path (trash_root env.base) ≡ false
        → D.realpath ready path ≡ some path
        → stat ready path ≡ some n
        → ((q : Text) → under (file_path env.base id) q ≡ true → lstat ready q ≡ none)
        → lstat ready (info_path env.base id) ≡ none
        → rename ready path (file_path env.base id) ≡ some t
        → write t (info_path env.base id) (info_text path env.time (env.size n)) ≡ some u
        → stat u (dirname path) ≡ some d
        → rename u (file_path env.base id) path ≡ some v
        → D.unlink v (info_path env.base id) ≡ some w
        → (Delete.unlink D env path s ≡ (u, true))
          × (cmd_restore D dirname env.base id u ≡ (w, 0))
          × (lstat w p ≡ lstat ready p)
  restore-unlink env dirname path n d s t u v w p abs clean short out hold real st fresh new e1 e2
        dir e3 e4 =
      let id = generate_unique_name env.stamp (env.basename path) in
      let note = info_text path env.time (env.size n) in
      (
        unlink_lem env path path n s t u abs out real st e1 e2,
        restore_lem dirname env.base id path env.time (env.size n) d u v w (not_empty abs) clean
            short
            (L.stat_regular u (info_path env.base id) note (
              L.lstat-write t u (info_path env.base id) note (info_path env.base id) e2
              ∙ ap (λ b. if b then some (regular note) else lstat t (info_path env.base id))
                  ((same_iff _ _).1 refl)))
            dir e3 e4,
        move_back env.base id path note (ensure_directories D env.base s) t u v w p out hold fresh
            new e1 e2 e3 e4,
      )
    where
      not_empty : starts_with (bytes "/") path ≡ true → path ≢ []
      not_empty h e = absolute_ne (subst (λ q. starts_with (bytes "/") q ≡ true) e h)
