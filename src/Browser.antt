-- ===== src/Browser.antt =====
-- The trash can's browser (CourseWork/src/cli/browser.c): what it keeps, its keys, and what it calls.
pub mod Entries
pub mod Keys
pub mod Rows
pub mod Cursor
pub mod Effects
pub mod Panels
pub mod Shown
use osi_s.Prelude.{
  ℕ, zero, suc, ◌+◌, ◌-◌, ◌*◌, ◌/◌, ◌%◌, ◌≤◌, ◌<◌, min, ◌≡◌, refl, sym, ap, ap₂, ◌∙◌, subst, ◌≢◌,
  ◌↔◌, ◌⊎◌, inl, inr, Bool, true, false, not, ◌&&◌, ◌||◌, Option, none, some, List, [], ◌∷◌, ◌++◌,
  append-nil, append_assoc, map, reverse, arith, ltb, leb, ◌==◌, if◌then◌else◌, ==_iff, Bool-cases,
  Option-cases, length, take, drop, length-append, length-take, length-drop, Text, bytes, same,
  starts_with, has, before, before_all, has-take, take_all, take-append_le, dec_lt, dec_le, fgets,
  same_iff, starts_with-append, starts_with_self, drop_prefix, starts_with_split, same_path,
  has-append, fgets-line, fgets_cut, before-append,
}
use osi_s.Trash.{Disk}

-- `BrowseMode`
pub data Mode : Type 0 where
  fs : Mode
  trash : Mode

-- `BrowserEntry`
pub record BrowserEntry : Type 0 where
  pub id : Text
  pub disp : Text
  pub is_dir : Bool

-- What a comparison gives: a negative number, zero, or a positive one.
pub data Sign : Type 0 where
  less : Sign
  equal : Sign
  greater : Sign

-- The file's variables. `highlight` and `scroll_offset` are never negative.
pub record View : Type 0 where
  pub mode : Mode
  pub highlight : ℕ
  pub scroll_offset : ℕ
  pub cwd : Text
  pub feedback : Text
  pub rows : ℕ

-- The keys of the loop, as `wgetch` gives them: 'T' or 't', KEY_UP, KEY_DOWN, 10, KEY_BACKSPACE (or 8
-- or 127), KEY_DC, 'R' or 'r', 'd', 'D', KEY_RESIZE with the new number of rows, and any other.
pub data Key : Type 0 where
  toggle up down enter backspace delete restore purge purge_all other : Key
  resize : ℕ → Key

-- The libraries that the browser calls, on the state of a disk. `opendir` gives the names in the order
-- of `readdir`, and `unlink` is the one that the program is linked or preloaded with.
pub record Library (D : Disk) : Type 0 where
  pub opendir : D.State → Text → Option (List Text)
  pub is_directory : D.State → Text → Bool
  pub unlink : D.State → Text → D.State
  pub dirname : Text → Text
  pub strcasecmp : Text → Text → Sign
  pub qsort : (BrowserEntry → BrowserEntry → Sign) → List BrowserEntry → List BrowserEntry
