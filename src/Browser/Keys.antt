-- ===== src/Browser/Keys.antt =====
-- The browser's loop (CourseWork/src/cli/browser.c, cmd_browse): what each key does to the view and to
-- the disk, with the drawing that follows it.
use osi_s.Prelude.{
  ℕ, zero, suc, ◌+◌, ◌-◌, Option, none, some, List, [], ◌∷◌, ◌++◌, ltb, if◌then◌else◌, length, take,
  Text, bytes,
}
use osi_s.Browser.{
  Mode, fs, trash, BrowserEntry, View, Library, Key, toggle, up, down, enter, backspace, delete,
  restore, purge, purge_all, resize,
}
use osi_s.Browser.Entries.{build_trash_entries, build_items_count, names_of, scrolled}
use osi_s.Trash.{Disk}
use osi_s.Trash.Commands.{cmd_restore, cmd_purge, cmd_purge_all}
use osi_s.Trash.Delete.{strrchr}

-- The element that a loop over a list finds at `highlight`.
abbrev pub pick {ℓ} : {A : Type ℓ} → List A → ℕ → Option A
pick [] i = none
pick (x ∷ xs) zero = some x
pick (x ∷ xs) (suc i) = pick xs i

abbrev pub at_top : View → View
at_top v = record v { highlight = 0; scroll_offset = 0 }

-- `snprintf(feedback, sizeof(feedback), ...)`
abbrev pub say : Text → View → View
say text v = record v { feedback = take 79 text }

abbrev pub other_mode : Mode → Mode
other_mode fs = trash
other_mode trash = fs

-- The path of an item of the FS panel, in an array of PATH_MAX bytes.
abbrev pub item_path : Text → Text → Text
item_path cwd name = take 4095 (cwd ++ (b'/' ∷ name))

-- `strrchr(cwd, '/')`: the text is cut there, unless it is the first byte or there is none.
abbrev pub cut_at : Text → Option Text → Text
cut_at cwd none = bytes "/"
cut_at cwd (some p) =
    if ltb (length p) (length cwd) then take (length cwd - length p) cwd else bytes "/"

unfoldable pub parent : Text → Text
parent cwd = cut_at cwd (strrchr b'/' cwd)

-- `draw_list` on the view, where the trash holds `cnt` entries: an empty list is left as it is.
abbrev pub draw_trash : ℕ → View → View
draw_trash zero v = v
draw_trash (suc n) v = record v { scroll_offset = scrolled v.rows v.highlight v.scroll_offset }

module _ (D : Disk) (L : Library D) (base : Text) where
  open D use {State}

  abbrev pub draw_mode : Mode → State → View → View
  draw_mode fs s v = v
  draw_mode trash s v = draw_trash (length (build_trash_entries D L base s)) v

  unfoldable pub draw_list : State → View → View
  draw_list s v = draw_mode v.mode s v

  -- Enter opens the item if it is a directory.
  abbrev pub enter_item : State → View → Option Text → View
  enter_item s v none = v
  enter_item s v (some name) =
      if L.is_directory s (item_path v.cwd name)
      then at_top (record v { cwd = item_path v.cwd name })
      else v

  abbrev pub delete_item : State → View → Option Text → State
  delete_item s v none = s
  delete_item s v (some name) = L.unlink s (item_path v.cwd name)

  -- What is said after `cmd_restore` returned.
  abbrev pub restore_said : Text → View → State × ℕ → View × State
  restore_said id v (t, zero) = (say (bytes "Restored " ++ id) v, t)
  restore_said id v (t, suc code) = (say (bytes "Restore failed") v, t)

  abbrev pub restore_entry : State → View → Option BrowserEntry → View × State
  restore_entry s v none = (v, s)
  restore_entry s v (some e) = restore_said e.id v (cmd_restore D L.dirname base e.id s)

  -- What is said after `cmd_purge` returned; a purged entry moves the highlight up.
  abbrev pub purge_said : Text → View → State × ℕ → View × State
  purge_said id v (t, zero) =
      (say (bytes "Purged " ++ id) (record v { highlight = v.highlight - 1 }), t)
  purge_said id v (t, suc code) = (say (bytes "Purge failed") v, t)

  abbrev pub purge_entry : State → View → Option BrowserEntry → View × State
  purge_entry s v none = (v, s)
  purge_entry s v (some e) = purge_said e.id v (cmd_purge D base e.id s)

  abbrev pub purge_all_said : View → State × ℕ → View × State
  purge_all_said v (t, zero) = (at_top (say (bytes "Trash emptied") v), t)
  purge_all_said v (t, suc code) = (at_top (say (bytes "Failed to empty trash") v), t)

  abbrev pub drawn : View × State → View × State
  drawn (v, s) = (draw_list s v, s)

  -- The `switch`, in the mode of the view.
  unfoldable pub switch : Mode → Key → State → View → View × State
  switch mode toggle s v = (at_top (record v { mode = other_mode mode }), s)
  switch mode up s v = (record v { highlight = v.highlight - 1 }, s)
  switch mode down s v =
      if ltb (v.highlight + 1) (build_items_count D L base s mode v.cwd)
      then (record v { highlight = v.highlight + 1 }, s)
      else (v, s)
  switch fs enter s v = (enter_item s v (pick (names_of (L.opendir s v.cwd)) v.highlight), s)
  switch fs backspace s v = (at_top (record v { cwd = parent v.cwd }), s)
  switch fs delete s v = (v, delete_item s v (pick (names_of (L.opendir s v.cwd)) v.highlight))
  switch trash restore s v =
      drawn (restore_entry s v (pick (build_trash_entries D L base s) v.highlight))
  switch trash purge s v =
      drawn (purge_entry s v (pick (build_trash_entries D L base s) v.highlight))
  switch trash purge_all s v = purge_all_said v (cmd_purge_all D base s)
  switch mode key s v = (v, s)

  abbrev pub key_press : Key → State → View → View × State
  key_press (resize n) s v = (record v { rows = n }, s)
  key_press key s v = switch v.mode key s (record v { feedback = [] })

  -- One turn of the loop.
  unfoldable pub press : Key → State → View → View × State
  press key s v = drawn (key_press key s v)

  unfoldable pub press_all : List Key → State → View → View × State
  press_all [] s v = (v, s)
  press_all (key ∷ keys) s v = let (w, t) = press key s v in press_all keys t w

  -- The view that the loop starts with.
  unfoldable pub cmd_browse : Text → ℕ → State → View
  cmd_browse start_dir n s = draw_list s (record {
    mode = fs;
    highlight = 0;
    scroll_offset = 0;
    cwd = take 4095 start_dir;
    feedback = [];
    rows = n;
  })
