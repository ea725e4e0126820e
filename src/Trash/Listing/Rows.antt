-- ===== src/Trash/Listing/Rows.antt =====
-- The rows that CourseWork/src/cli/list.c prints for what the interceptor has put into the trash.
use osi_s.Prelude.{
  ℕ, ◌-◌, ◌≡◌, refl, ap, ◌∙◌, ◌≢◌, true, false, Option, none, some, List, [], ◌∷◌, ◌++◌,
  append_assoc, arith, ltb, if◌then◌else◌, length, take, drop, length-append, Text, bytes, same,
  starts_with, same_iff, drop_prefix, take-append,
}
use osi_s.Trash.{Disk, IsLawful, Node, regular}
use osi_s.Trash.Delete
use osi_s.Trash.Delete.{Env, ensure_directories, generate_unique_name}
use osi_s.Trash.Info.{info_text}
use osi_s.Trash.Listing.{
  Fields, skipped, Row, overrun, row, ends_with_info, note_row, entry_row, add_row, list_rows,
  cmd_list,
}
use osi_s.Trash.Paths.{trash_root, info_dir, file_path, info_path}
use osi_s.Trash.Restore.{unlink_lem}
use osi_s.Trash.Listing.Notes.{IsNote, fields, note_row-info_text}

abbrev info : Text
info = bytes ".info"

-- The rows before and behind an entry, with its own row between.
abbrev pub Rows : Type 0
Rows = Option (List (Text × Fields))

unfoldable pub beside : Rows → Rows → Rows
beside none b = none
beside (some a) none = none
beside (some a) (some b) = some (a ++ b)

take_id : (id : Text) → take (length (id ++ info) - 5) (id ++ info) ≡ id
take_id id =
    ap (λ n. take n (id ++ info)) (omega (arith, length-append id info))
    ∙ take-append (length id) id info refl

drop_id : (id : Text) → drop (length (id ++ info) - 5) (id ++ info) ≡ info
drop_id id =
    ap (λ n. drop n (id ++ info)) (omega (arith, length-append id info)) ∙ drop_prefix id info

ends_with_info-append : (c : ℕ) (id : Text) → ends_with_info ((c ∷ id) ++ info) ≡ true
unfolding same
ends_with_info-append c id = rw (drop_id (c ∷ id)) (ground (arith, length-append (c ∷ id) info))

beside_nil : (b : Rows) → b ≡ beside (some []) b
unfolding beside
beside_nil none = refl
beside_nil (some b) = refl

add_row-beside : (r : Row) (a b : Rows) → add_row r (beside a b) ≡ beside (add_row r a) b
unfolding beside
add_row-beside skipped a b = refl
add_row-beside overrun a b = refl
add_row-beside (row id f) none b = refl
add_row-beside (row id f) (some a) none = refl
add_row-beside (row id f) (some a) (some b) = refl

-- The rows of the names before one, its own, and those behind it.
unfoldable pub around : Rows → Row → Rows → Rows
around before_it r behind = beside before_it (add_row r behind)

module _ (D : Disk) (L : IsLawful D) where
  open D use {State, stat, rename, write}

  entry_row-note :
      (base id text : Text) (s : State)
      → id ≢ []
      → stat s (info_path base id) ≡ some (regular text)
      → entry_row D base s (id ++ info)
        ≡ (if ltb (length id) 64 then note_row id (some text) else overrun)
  unfolding entry_row info_path
  entry_row-note base [] text s ne e = absurd (ne refl)
  entry_row-note base (c ∷ cs) text s ne e =
      let id = c ∷ cs in
      let there : stat s (info_dir base ++ (b'/' ∷ (id ++ info))) ≡ some (regular text) =
        ap (stat s) (append_assoc base (bytes "/.trash/info") (b'/' ∷ (id ++ info))) ∙ e in
      rw (ends_with_info-append c cs, take_id id, there) refl

  entry_row-info_text :
      (base id path time size : Text) (s : State)
      → id ≢ []
      → IsNote 240 path time size
      → D.lstat s (info_path base id) ≡ some (regular (info_text path time size))
      → entry_row D base s (id ++ info)
        ≡ (if ltb (length id) 64 then row id (fields path time size) else overrun)
  entry_row-info_text base id path time size s ne h e =
      entry_row-note base id (info_text path time size) s ne
        (L.stat_regular s (info_path base id) (info_text path time size) e)
      ∙ ap (λ (r : Row). if ltb (length id) 64 then r else overrun)
          (note_row-info_text id path time size h)

  list_rows-append :
      (base : Text) (s : State) (xs ys : List Text)
      → list_rows D base s (xs ++ ys) ≡ beside (list_rows D base s xs) (list_rows D base s ys)
  unfolding list_rows
  list_rows-append base s [] ys = beside_nil (list_rows D base s ys)
  list_rows-append base s (x ∷ xs) ys =
      ap (add_row (entry_row D base s x)) (list_rows-append base s xs ys)
      ∙ add_row-beside (entry_row D base s x) (list_rows D base s xs) (list_rows D base s ys)

  -- A file that the interceptor has put into the trash is in the table: its row has the name in the
  -- trash, the real path, the time and the size, in the place where `readdir` finds its note; where
  -- the name has 64 bytes or more, the command writes behind its array. It holds if the path has no
  -- newline and at most 240 bytes, the time and the size are those of `IsNote`, and the system
  -- carries out the calls.
  pub cmd_list-unlink :
      (env : Env) (path orig : Text) (n : Node) (s t u : State) (xs ys : List Text)
      → let id = generate_unique_name env.stamp (env.basename path) in
        let ready = ensure_directories D env.base s in
        id ≢ []
        → IsNote 240 orig env.time (env.size n)
        → starts_with (bytes "/") path ≡ true
        → starts_with (trash_root env.base) path ≡ false
        → D.realpath ready path ≡ some orig
        → stat ready path ≡ some n
        → rename ready path (file_path env.base id) ≡ some t
        → write t (info_path env.base id) (info_text orig env.time (env.size n)) ≡ some u
        → D.names u (info_dir env.base) ≡ some (xs ++ ((id ++ bytes ".info") ∷ ys))
        → (Delete.unlink D env path s ≡ (u, true))
          × (cmd_list D env.base u ≡ (
            around
                (list_rows D env.base u xs)
                (if ltb (length id) 64 then row id (fields orig env.time (env.size n)) else overrun)
                (list_rows D env.base u ys),
            0,
          ))
  unfolding cmd_list around list_rows
  cmd_list-unlink env path orig n s t u xs ys ne note abs out real st e1 e2 names =
      let id = generate_unique_name env.stamp (env.basename path) in
      let text = info_text orig env.time (env.size n) in
      (
        unlink_lem D L env path orig n s t u abs out real st e1 e2,
        rw names (
            ap (λ (r : Rows). (r, 0))
              (list_rows-append env.base u xs ((id ++ info) ∷ ys)
                ∙ ap (λ (r : Row). around (list_rows D env.base u xs) r (list_rows D env.base u ys))
                    (entry_row-info_text env.base id orig env.time (env.size n) u ne note (
                      L.lstat-write t u (info_path env.base id) text (info_path env.base id) e2
                      ∙ ap
                          (λ b.
                            if b then some (regular text) else D.lstat t (info_path env.base id))
                          ((same_iff _ _).1 refl))))),
      )
