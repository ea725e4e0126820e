-- ===== src/Browser/Entries.antt =====
-- The entries that the browser lists (CourseWork/src/cli/browser.c: cmp_entry, build_trash_entries,
-- build_items_count) and the rows that it draws (draw_list).
use osi_s.Prelude.{
  ℕ, zero, suc, ◌+◌, ◌-◌, Bool, true, false, ◌||◌, Option, none, some, List, [], ◌∷◌, ◌++◌, map,
  ltb, leb, ◌==◌, if◌then◌else◌, length, take, drop, Text, bytes, same, starts_with, before, fgets,
}
use osi_s.Browser.{Mode, fs, trash, BrowserEntry, Sign, less, greater, Library}
use osi_s.Trash.{Disk}
use osi_s.Trash.Commands.{contents}
use osi_s.Trash.Delete.{strrchr}
use osi_s.Trash.Info.{key}
use osi_s.Trash.Paths.{files_dir, info_path}

-- `cmp_entry`: directories first, then by name.
abbrev pub cmp_entry : (Text → Text → Sign) → BrowserEntry → BrowserEntry → Sign
cmp_entry strcasecmp a b = by_kind a.is_dir b.is_dir
  where
    by_kind : Bool → Bool → Sign
    by_kind true false = less
    by_kind false true = greater
    by_kind _ _ = strcasecmp a.disp b.disp

-- What follows the last '/', in an array of 255 bytes, up to the newline.
abbrev pub last_name : Text → Option Text → Text
last_name path none = before b'\n' (take 255 path)
last_name path (some p) = before b'\n' (take 255 (drop 1 p))

-- The name in the note: that of the first line that begins with the key.
unfoldable pub title : ℕ → Text → Text
title zero text = []
title (suc n) text =
    let (line, rest) = fgets 4095 text in
    let more = title n rest in
    if length line == 0
    then []
    else if starts_with key line
    then last_name (drop 14 line) (strrchr b'/' (drop 14 line))
    else more

unfoldable pub disp_of : Option Text → Text
disp_of none = []
disp_of (some text) = title (length text) text

abbrev pub is_dots : Text → Bool
is_dots name = same name (bytes ".") || same name (bytes "..")

-- The names but '.' and '..'.
unfoldable pub skip_dots : List Text → List Text
skip_dots [] = []
skip_dots (name ∷ names) = let rest = skip_dots names in if is_dots name then rest else name ∷ rest

abbrev pub names_of : Option (List Text) → List Text
names_of none = []
names_of (some names) = names

module _ (D : Disk) (L : Library D) where
  unfoldable pub entry_of : Text → D.State → Text → BrowserEntry
  entry_of base s name = record {
    id = take 255 name;
    disp = disp_of (contents D (D.stat s (info_path base name)));
    is_dir = L.is_directory s (files_dir base ++ (b'/' ∷ name));
  }

  -- `build_trash_entries`
  unfoldable pub build_trash_entries : Text → D.State → List BrowserEntry
  build_trash_entries base s =
      L.qsort (cmp_entry L.strcasecmp)
        (map (entry_of base s) (skip_dots (names_of (L.opendir s (files_dir base)))))

  -- `build_items_count`
  abbrev pub build_items_count : Text → D.State → Mode → Text → ℕ
  build_items_count base s fs cwd = length (names_of (L.opendir s cwd))
  build_items_count base s trash cwd = length (skip_dots (names_of (L.opendir s (files_dir base))))

-- `visible_items`; a terminal of fewer than four rows shows nothing.
abbrev pub visible_items : ℕ → ℕ
visible_items rows = rows - 3

-- The rows that a list's loop draws, with what is shown in reverse: `n` rows at most, from the index
-- `scroll` on.
unfoldable pub draw_rows {ℓ} : {A : Type ℓ} → ℕ → ℕ → ℕ → ℕ → List A → List (A × Bool)
draw_rows zero scroll highlight idx names = []
draw_rows (suc n) scroll highlight idx [] = []
draw_rows (suc n) scroll highlight idx (x ∷ xs) =
    let rest = draw_rows n scroll highlight (suc idx) xs in
    let skipped = draw_rows (suc n) scroll highlight (suc idx) xs in
    if ltb idx scroll then skipped else (x, idx == highlight) ∷ rest

-- `draw_list` in Trash mode moves `scroll_offset` to where `highlight` is among the visible rows:
-- `visible_items()` is `rows - 3`, also where that is negative.
unfoldable pub scrolled : ℕ → ℕ → ℕ → ℕ
scrolled rows highlight scroll =
    if ltb highlight scroll
    then highlight
    else if leb (scroll + rows) (highlight + 3)
    then highlight + 4 - rows
    else scroll
