-- ===== src/Tests/Browser.antt =====
-- The theorems on the browser at concrete inputs, on a file system in memory.
use osi_s.Prelude.{
  Option, Text, subst, ◌≡◌, refl, Bool, true, false, none, some, List, [], ◌∷◌, arith, bytes, same,
  starts_with,
}
use osi_s.Browser.{trash, View, Library, down, purge, purge_all, less}
use osi_s.Browser.Entries.{build_trash_entries, skip_dots, draw_rows, visible_items}
use osi_s.Browser.Keys.{press, press_all, switch, draw_list}
use osi_s.Browser.Rows.{has_mark}
use osi_s.Browser.Cursor.{press-trash}
use osi_s.Browser.Effects.{HasShortIds, press_all_outside}
use osi_s.Trash.{Disk, regular}
use osi_s.Trash.Commands.{entry_id}
use osi_s.Trash.Purge.{all_short}
use osi_s.Trash.Memory.{Memory, put, memory_disk, memory_disk-IsLawful}

abbrev disk : Disk
disk = memory_disk (λ p. p) (bytes "1.info" ∷ [])

-- Every directory holds two names beside '.' and '..', and nothing is sorted or deleted.
abbrev library : Library disk
library = record {
  opendir = λ s p. some (bytes "." ∷ bytes ".." ∷ bytes "1" ∷ bytes "2" ∷ []);
  is_directory = λ s p. false;
  unlink = λ s p. s;
  dirname = λ p. bytes "/";
  strcasecmp = λ a b. less;
  qsort = λ order entries. entries;
}

-- A file in the trash, and one outside.
abbrev state : Memory
state =
    put (bytes "/t/.trash/files/1") (some (regular []))
      (put (bytes "/a/f") (some (regular [])) (λ p. none))

abbrev view : View
view = record {
  mode = trash;
  highlight = 0;
  scroll_offset = 1;
  cwd = bytes "/";
  feedback = [];
  rows = 4;
}

abbrev is_marked : {A : Type 0} → View → List A → Bool
is_marked v xs = has_mark (draw_rows (visible_items v.rows) v.scroll_offset v.highlight 0 xs)

short : HasShortIds disk (bytes "/t")
unfolding entry_id same
short s names e = subst (λ l. all_short l ≡ true) (some_eq e) refl
  where
    some_eq : {a b : List Text} → ◌≡◌ {A = Option (List Text)} (some a) (some b) → a ≡ b
    some_eq e = cc

press_all_outside_example :
    (press_all disk library (bytes "/t") (purge ∷ down ∷ purge_all ∷ []) state view).1
      (bytes "/a/f")
    ≡ state (bytes "/a/f")
unfolding starts_with
press_all_outside_example =
    press_all_outside disk (memory_disk-IsLawful (λ p. p) (bytes "1.info" ∷ [])) library
      (bytes "/t") short (purge ∷ down ∷ purge_all ∷ []) state view (bytes "/a/f") refl refl

-- The key moves the cursor to the second entry of two, with one row on the screen.
press-trash_example :
    is_marked
      (press disk library (bytes "/t") down state view).0
      (build_trash_entries disk library (bytes "/t") state)
    ≡ true
unfolding press switch draw_list build_trash_entries skip_dots same
press-trash_example =
    press-trash disk library (bytes "/t") down state view refl (omega arith) (omega arith)
