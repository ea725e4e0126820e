-- ===== src/Tests/Notes.antt =====
-- The theorems on the notes of the trash, its table and the browser's window, at concrete inputs.
use osi_s.Prelude.{
  ℕ, ◌≤◌, ◌≡◌, refl, true, false, none, some, [], ◌∷◌, arith, bytes, same, starts_with, has,
}
use osi_s.Browser.{trash, BrowserEntry, View, Library, less}
use osi_s.Trash.{Disk, regular, directory}
use osi_s.Trash.Delete
use osi_s.Trash.Delete.{Env, ensure_directories, generate_unique_name, get_file_extension, strrchr}
use osi_s.Trash.Info.{info_text}
use osi_s.Trash.Listing.{row, cmd_list, list_rows}
use osi_s.Trash.Listing.Notes.{IsNote, fields}
use osi_s.Trash.Listing.Rows.{around, cmd_list-unlink}
use osi_s.Trash.Memory.{Memory, put, carry, memory_disk, memory_disk-IsLawful}
use osi_s.Trash.Paths.{file_path, info_path}

-- One file, '/a/f', with one byte.
abbrev one_file : Memory
one_file = put (bytes "/a/f") (some (regular (b'x' ∷ []))) (λ p. none)

abbrev disk : Disk
disk = memory_disk (λ p. p) (bytes "1.info" ∷ [])

abbrev env : Env
env = record {
  base = bytes "/t";
  cwd = none;
  time = bytes "5";
  stamp = bytes "1";
  basename = λ p. bytes "f";
  size = λ n. bytes "17";
}

abbrev ready : Memory
ready = put (bytes "/t/.trash/info") (some directory) (
    put (bytes "/t/.trash/files") (some directory)
      (put (bytes "/t/.trash") (some directory) one_file))

abbrev moved : Memory
moved = carry (bytes "/a/f") (bytes "/t/.trash/files/1") ready

abbrev deleted : Memory
deleted =
    put (bytes "/t/.trash/info/1.info")
      (some (regular (info_text (bytes "/a/f") (bytes "5") (bytes "17")))) moved

one-IsNote : (room : ℕ) → 4 ≤ room → IsNote room (bytes "/a/f") (bytes "5") (bytes "17")
unfolding has
one-IsNote room h = record {
  path_written = λ e. cc;
  path_line = refl;
  path_fits = omega arith;
  time_written = λ e. cc;
  time_line = refl;
  time_fits = omega arith;
  size_written = λ e. cc;
  size_digits = refl;
  size_fits = omega arith;
}

cmd_list-unlink_example :
    (Delete.unlink disk env (bytes "/a/f") one_file ≡ (deleted, true))
    × (cmd_list disk (bytes "/t") deleted ≡ (
      around
          (list_rows disk (bytes "/t") deleted [])
          (row (bytes "1") (fields (bytes "/a/f") (bytes "5") (bytes "17")))
          (list_rows disk (bytes "/t") deleted []),
      0,
    ))
unfolding has starts_with same ensure_directories generate_unique_name get_file_extension strrchr
    file_path info_path info_text
cmd_list-unlink_example =
    cmd_list-unlink disk (memory_disk-IsLawful (λ p. p) (bytes "1.info" ∷ [])) env (bytes "/a/f")
      (bytes "/a/f") (regular (b'x' ∷ [])) one_file moved deleted [] [] (λ e. cc)
      (one-IsNote 240 (omega arith)) refl refl refl refl refl refl refl

abbrev library : Library disk
library = record {
  opendir = λ s p. some (bytes "." ∷ bytes "1" ∷ []);
  is_directory = λ s p. false;
  unlink = λ s p. s;
  dirname = λ p. bytes "/";
  strcasecmp = λ a b. less;
  qsort = λ order entries. entries;
}

abbrev view : View
view = record {
  mode = trash;
  highlight = 0;
  scroll_offset = 0;
  cwd = bytes "/";
  feedback = [];
  rows = 9;
}

abbrev first : BrowserEntry
first = record { id = bytes "1"; disp = bytes "f"; is_dir = false }
