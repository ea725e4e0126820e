-- ===== src/Trash/Listing.antt =====
-- CourseWork/src/cli/list.c: the table of what lies in the trash, read from the notes.
pub mod Notes
pub mod Rows
use osi_s.Prelude.{
  ◌^◌, Perm, take-append-drop, length-replicate, ℕ, zero, suc, ◌+◌, ◌-◌, ◌*◌, ◌/◌, ◌%◌, ◌≤◌, ◌<◌,
  min, ◌≡◌, refl, sym, ap, ap₂, ◌∙◌, subst, ◌≢◌, ◌↔◌, ◌⊎◌, inl, inr, Bool, true, false, not, ◌&&◌,
  ◌||◌, Option, none, some, List, [], ◌∷◌, ◌++◌, append-nil, append_assoc, map, reverse, arith, ltb,
  leb, ◌==◌, if◌then◌else◌, ==_iff, Bool-cases, Option-cases, length, take, drop, length-append,
  length-take, length-drop, Text, bytes, same, starts_with, has, before, before_all, has-take,
  take_all, take-append_le, dec_lt, dec_le, fgets, same_iff, starts_with-append, starts_with_self,
  drop_prefix, ℕ_discrete, if_both, take-append, starts_with_split, same_path, has-append,
  fgets-line, fgets_cut, before-append, is_space, is_digit, all_digits, read_digits, scan_number,
  scan_number-append, skip_spaces,
}
use osi_s.Trash.{Disk}
use osi_s.Trash.Commands.{contents}
use osi_s.Trash.Info.{not_empty}
use osi_s.Trash.Paths.{info_dir}

-- `original`, `deleted` and `size`, the last with its sign.
pub record Fields : Type 0 where
  pub original : Text
  pub deleted : Text
  pub size : Bool × ℕ

abbrev pub no_fields : Fields
no_fields = record { original = []; deleted = []; size = (false, 0) }

-- `sscanf` with a key and %[^\n], which matches at least a byte.
unfoldable pub scan_text : Text → Text → Option Text
scan_text key line =
    if starts_with key line then not_empty (before b'\n' (drop (length key) line)) else none

-- `sscanf(line, "size=%ld", &size)`
unfoldable pub scan_size : Text → Option (Bool × ℕ)
scan_size line = if starts_with (bytes "size=") line then scan_number (drop 5 line) else none

-- The three tests on a line, on what each of them scans.
abbrev pub set_size : Fields → Option (Bool × ℕ) → Fields
set_size f none = f
set_size f (some n) = record f { size = n }

abbrev pub set_deleted : Fields → Option Text → Fields → Fields
set_deleted f none next = next
set_deleted f (some text) next = record f { deleted = text }

abbrev pub set_original : Fields → Option Text → Fields → Fields
set_original f none next = next
set_original f (some text) next = record f { original = text }

unfoldable pub read_line : Text → Fields → Fields
read_line line f =
    set_original f (scan_text (bytes "original_path=") line)
      (set_deleted f (scan_text (bytes "deleted_time=") line) (set_size f (scan_size line)))

-- `while (fgets(line, sizeof(line), fp))` with `char line[256]`; the first argument bounds the
-- rounds.
unfoldable pub read_note : ℕ → Text → Fields → Fields
read_note zero text f = f
read_note (suc n) [] f = f
read_note (suc n) (c ∷ cs) f =
    let (line, rest) = fgets 255 (c ∷ cs) in read_note n rest (read_line line f)

-- What becomes of a name in the directory of the notes: nothing, a row, or a write behind the arrays
-- `id[64]` and `deleted[32]`.
pub data Row : Type 0 where
  skipped overrun : Row
  row : Text → Fields → Row

abbrev pub ends_with_info : Text → Bool
ends_with_info name =
    not (ltb (length name) 6) && same (drop (length name - 5) name) (bytes ".info")

abbrev pub checked_row : Text → Fields → Row
checked_row id f = if ltb (length f.deleted) 32 then row id f else overrun

abbrev pub note_row : Text → Option Text → Row
note_row id none = skipped
note_row id (some text) = checked_row id (read_note (length text) text no_fields)

-- The loop over `readdir`; none from where it writes behind an array on.
abbrev pub add_row : Row → Option (List (Text × Fields)) → Option (List (Text × Fields))
add_row skipped rows = rows
add_row overrun rows = none
add_row (row id f) none = none
add_row (row id f) (some rows) = some ((id, f) ∷ rows)

module _ (D : Disk) where
  unfoldable pub entry_row : Text → D.State → Text → Row
  entry_row base s name =
      let id = take (length name - 5) name in
      if not (ends_with_info name)
      then skipped
      else if ltb (length id) 64
      then note_row id (contents D (D.stat s (info_dir base ++ (b'/' ∷ name))))
      else overrun

  unfoldable pub list_rows : Text → D.State → List Text → Option (List (Text × Fields))
  list_rows base s [] = some []
  list_rows base s (name ∷ names) = add_row (entry_row base s name) (list_rows base s names)

  -- `cmd_list`: the rows, and the result.
  abbrev pub listed : Text → D.State → Option (List Text) → Option (List (Text × Fields)) × ℕ
  listed base s none = (some [], 1)
  listed base s (some names) = (list_rows base s names, 0)

  unfoldable pub cmd_list : Text → D.State → Option (List (Text × Fields)) × ℕ
  cmd_list base s = listed base s (D.names s (info_dir base))
