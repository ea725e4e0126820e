-- ===== src/Browser/Panels.antt =====
-- What stands in the windows beside the browser's list (CourseWork/src/cli/browser.c: draw_info,
-- draw_status) and how wide the windows are.
use osi_s.Prelude.{
  ℕ, zero, suc, ◌+◌, ◌-◌, ◌/◌, ◌%◌, Bool, true, false, ◌&&◌, Option, none, some, List, [], ◌∷◌,
  ◌++◌, ltb, if◌then◌else◌, length, take, drop, Text, bytes, starts_with, fgets,
}
use osi_s.Browser.{Mode, fs, trash, BrowserEntry, View, Library}
use osi_s.Browser.Entries.{build_trash_entries, names_of}
use osi_s.Browser.Keys.{pick, item_path}
use osi_s.Trash.{Disk}
use osi_s.Trash.Commands.{contents}
use osi_s.Trash.Paths.{info_path}

-- A row of the window, and what is put there behind the first column.
abbrev pub Line : Type 0
Line = ℕ × Text

-- What `stat` says of an item: a directory or not, the size in digits, and the bits of the mode.
pub record Status : Type 0 where
  pub is_dir : Bool
  pub size : Text
  pub mode : ℕ

abbrev octal_digit : ℕ → ℕ
octal_digit n = b'0' + n % 8

-- "%o" of `st_mode & 0777`
unfoldable pub octal : ℕ → Text
octal n =
    if ltb n 8
    then octal_digit n ∷ []
    else if ltb n 64
    then octal_digit (n / 8) ∷ octal_digit n ∷ []
    else octal_digit (n / 64) ∷ octal_digit (n / 8) ∷ octal_digit n ∷ []

abbrev pub dir_line : Bool → List Line
dir_line true = (2, bytes "<DIR>") ∷ []
dir_line false = []

-- The FS panel: the item at `highlight`, if `stat` finds it. The texts go through `buf[64]`.
unfoldable pub item_lines : Text → Option Status → List Line
item_lines name none = []
item_lines name (some st) =
    ((1, name) ∷ dir_line st.is_dir)
    ++ ((3, take 63 (bytes "Size: " ++ st.size))
        ∷ (4, take 63 (bytes "Mode: " ++ octal (st.mode % 512)))
        ∷ [])

-- The lines of a note that are shown, and where the next one goes.
abbrev pub shown_line : Text → Option Text
shown_line line =
    if starts_with (bytes "original_path=") line
    then some (bytes "Orig: " ++ drop 14 line)
    else if starts_with (bytes "deleted_time=") line
    then some (bytes "Del:  " ++ drop 13 line)
    else if starts_with (bytes "size=") line
    then some (bytes "Size: " ++ drop 5 line)
    else none

abbrev pub next_row : ℕ → Option Text → ℕ
next_row row none = row
next_row row (some text) = row + 1

abbrev pub put_line : ℕ → Option Text → List Line → List Line
put_line row none rest = rest
put_line row (some text) rest = (row, text) ∷ rest

-- `while (fgets(line, sizeof(line), fp))`; the first argument bounds the rounds.
unfoldable pub note_lines : ℕ → ℕ → Text → List Line
note_lines zero row text = []
note_lines (suc n) row [] = []
note_lines (suc n) row (c ∷ cs) =
    let (line, rest) = fgets 4095 (c ∷ cs) in
    let shown = shown_line line in put_line row shown (note_lines n (next_row row shown) rest)

unfoldable pub info_lines : Option Text → List Line
info_lines none = (1, bytes "Cannot open info") ∷ []
info_lines (some text) = note_lines (length text) 1 text

module _ (D : Disk) (L : Library D) (status : D.State → Text → Option Status) (base : Text) where
  open D use {State}

  abbrev pub fs_lines : State → Text → Option Text → List Line
  fs_lines s cwd none = []
  fs_lines s cwd (some name) = item_lines name (status s (item_path cwd name))

  abbrev pub trash_lines : State → Option BrowserEntry → List Line
  trash_lines s none = (1, bytes "Empty or invalid") ∷ []
  trash_lines s (some e) = info_lines (contents D (D.stat s (info_path base e.id)))

  abbrev pub mode_lines : Mode → State → View → List Line
  mode_lines fs s v = fs_lines s v.cwd (pick (names_of (L.opendir s v.cwd)) v.highlight)
  mode_lines trash s v = trash_lines s (pick (build_trash_entries D L base s) v.highlight)

  -- `draw_info`
  unfoldable pub draw_info : State → View → List Line
  draw_info s v = mode_lines v.mode s v

abbrev pub keys_text : Mode → Text
keys_text fs = bytes "Arrows Move Enter Open Backspace Up Del Trash  T TrashMode F1 Help q Quit"
keys_text trash = bytes "Arrows Move r Restore d Purge one  D Purge all  T FSMode F1 Help q Quit"

-- `draw_status` in a window of `cols` columns: the texts with their columns.
unfoldable pub draw_status : ℕ → View → List Line
draw_status cols v =
    let len = length v.feedback in
    (1, keys_text v.mode)
    ∷ (if ltb 0 len && ltb len (cols - 2) then (cols - len - 1, v.feedback) ∷ [] else [])

-- `panel_w`
unfoldable pub panel_w : ℕ → ℕ
panel_w cols = if ltb (cols / 3) 20 then 20 else if ltb 60 (cols / 3) then 60 else cols / 3

-- A window: its height, its width, and its upper left corner.
pub record Window : Type 0 where
  pub height : ℕ
  pub width : ℕ
  pub top : ℕ
  pub left : ℕ

abbrev pub window : ℕ → ℕ → ℕ → ℕ → Window
window h w y x = record { height = h; width = w; top = y; left = x }

-- The windows of the list, of the information and of the status, as they are made at the start and
-- after a change of the terminal's size.
unfoldable pub layout : ℕ → ℕ → Window × Window × Window
layout rows cols = (
  window (rows - 1) (panel_w cols) 0 0,
  window (rows - 1) (cols - panel_w cols) 0 (panel_w cols),
  window 1 cols (rows - 1) 0,
)
