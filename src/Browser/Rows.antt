-- ===== src/Browser/Rows.antt =====
-- Which row of the browser's list is drawn in reverse (CourseWork/src/cli/browser.c, draw_list).
use osi_s.Prelude.{
  ℕ, zero, suc, ◌+◌, ◌-◌, ◌≤◌, ◌<◌, ◌≡◌, refl, Bool, true, false, ◌||◌, List, [], ◌∷◌, arith,
  length,
}
use osi_s.Browser.Entries.{draw_rows}

-- A row is shown in reverse.
unfoldable pub has_mark {ℓ} : {A : Type ℓ} → List (A × Bool) → Bool
has_mark [] = false
has_mark ((x, marked) ∷ rows) = marked || has_mark rows

module _ {ℓ} {A : Type ℓ} where
  draw_rows_past :
      (n scroll highlight idx : ℕ) (xs : List A)
      → highlight < idx
      → has_mark (draw_rows n scroll highlight idx xs) ≡ false
  unfolding draw_rows has_mark
  draw_rows_past zero scroll highlight idx xs h = refl
  draw_rows_past (suc n) scroll highlight idx [] h = refl
  draw_rows_past (suc n) scroll highlight idx (x ∷ xs) h = ground (
    arith,
    draw_rows_past n scroll highlight (suc idx) xs,
    draw_rows_past (suc n) scroll highlight (suc idx) xs,
  )

  -- Past the window, no row is marked.
  pub draw_rows_below :
      (n scroll highlight idx : ℕ) (xs : List A)
      → scroll + n ≤ highlight
      → idx + n ≤ highlight
      → has_mark (draw_rows n scroll highlight idx xs) ≡ false
  unfolding draw_rows has_mark
  draw_rows_below zero scroll highlight idx xs h k = refl
  draw_rows_below (suc n) scroll highlight idx [] h k = refl
  draw_rows_below (suc n) scroll highlight idx (x ∷ xs) h k = ground (
    arith,
    draw_rows_below n scroll highlight (suc idx) xs,
    draw_rows_below (suc n) scroll highlight (suc idx) xs,
  )

  -- In the window, the row is drawn and marked.
  pub draw_rows_inside :
      (n scroll highlight idx : ℕ) (xs : List A)
      → scroll ≤ highlight
      → idx ≤ highlight
      → highlight < idx + n + (scroll - idx)
      → highlight < idx + length xs
      → has_mark (draw_rows n scroll highlight idx xs) ≡ true
  unfolding draw_rows has_mark
  draw_rows_inside zero scroll highlight idx xs a c d e = absurd (omega arith)
  draw_rows_inside (suc n) scroll highlight idx [] a c d e = absurd (omega arith)
  draw_rows_inside (suc n) scroll highlight idx (x ∷ xs) a c d e = ground (
    arith,
    draw_rows_inside n scroll highlight (suc idx) xs,
    draw_rows_inside (suc n) scroll highlight (suc idx) xs,
  )
