-- ===== src/Browser/Shown.antt =====
-- What the browser's windows show (CourseWork/src/cli/browser.c): the note of a deleted file, the
-- message beside the keys, and windows that cover the terminal.
use osi_s.Prelude.{
  ℕ, ◌+◌, ◌-◌, ◌≤◌, ◌<◌, ◌≡◌, refl, Bool, true, false, ◌&&◌, List, [], ◌∷◌, ◌++◌, arith, ltb, leb,
  if◌then◌else◌, length, Text, bytes,
}
use osi_s.Browser.{View}
use osi_s.Browser.Panels.{Line, keys_text, draw_status, panel_w, Window, layout}
use osi_s.Trash.Delete

-- The window has the cell.
abbrev pub covers : Window → ℕ → ℕ → Bool
covers w y x =
    (leb w.top y && ltb y (w.top + w.height)) && (leb w.left x && ltb x (w.left + w.width))

abbrev pub once : Bool → ℕ
once true = 1
once false = 0

panel_w_bounds :
    (cols : ℕ) → 20 ≤ cols → (20 ≤ panel_w cols) × (panel_w cols ≤ 60) × (panel_w cols ≤ cols)
unfolding panel_w
panel_w_bounds cols h = ground arith

-- On a terminal of at least 20 columns and a row, every cell is in exactly one of the three windows,
-- and the list's window has from 20 to 60 columns.
layout_lem :
    (rows cols y x : ℕ)
    → 20 ≤ cols
    → y < rows
    → x < cols
    → let (list_w, info_w, status_w) = layout rows cols in
      (once (covers list_w y x) + once (covers info_w y x) + once (covers status_w y x) ≡ 1)
      × (20 ≤ list_w.width)
      × (list_w.width ≤ 60)
unfolding layout
layout_lem rows cols y x h k l =
    let bounds = panel_w_bounds cols h in (cells (panel_w cols) bounds.2, bounds.0, bounds.1)
  where
    cells :
        (w : ℕ)
        → w ≤ cols
        → once (covers (record { height = rows - 1; width = w; top = 0; left = 0 }) y x)
            + once (covers (record { height = rows - 1; width = cols - w; top = 0; left = w }) y x)
            + once (covers (record { height = 1; width = cols; top = rows - 1; left = 0 }) y x)
          ≡ 1
    cells w b = ground arith

-- The message stands behind the first column and ends before the last one of the window, and is left
-- out where it does not fit.
abbrev EndsIn : ℕ → List Line → Type 0
EndsIn cols [] = Unit
EndsIn cols ((col, text) ∷ rest) = (2 ≤ col) × (col + length text < cols) × EndsIn cols rest

draw_status_lem :
    (cols : ℕ) (v : View)
    → (ls : List Line) × (draw_status cols v ≡ (1, keys_text v.mode) ∷ ls) × EndsIn cols ls
unfolding draw_status
draw_status_lem cols v =
    (_, refl, message (ltb 0 (length v.feedback)) (ltb (length v.feedback) (cols - 2)) refl refl)
  where
    message :
        (a b : Bool)
        → ltb 0 (length v.feedback) ≡ a
        → ltb (length v.feedback) (cols - 2) ≡ b
        → EndsIn cols (if a && b then (cols - length v.feedback - 1, v.feedback) ∷ [] else [])
    message true true e f = (ground arith, ground arith, tt)
    message true false e f = tt
    message false b e f = tt

abbrev newline : Text
newline = b'\n' ∷ []

-- The three lines of a note.
abbrev pub shown : Text → Text → Text → List Line
shown path time size =
    (1, bytes "Orig: " ++ (path ++ newline))
    ∷ (2, bytes "Del:  " ++ (time ++ newline))
    ∷ (3, bytes "Size: " ++ (size ++ newline))
    ∷ []

-- Every text stands in its row between the borders of the window, so that none wraps.
abbrev pub AllInside : Window → List Line → Type 0
AllInside w [] = Unit
AllInside w ((row, text) ∷ lines) =
    (row + 2 ≤ w.height) × (length text + 1 ≤ w.width) × AllInside w lines
