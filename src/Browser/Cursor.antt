-- ===== src/Browser/Cursor.antt =====
-- Where the browser's cursor is drawn (CourseWork/src/cli/browser.c, draw_list): in Trash mode always,
-- in the FS mode only on the first page.
use osi_s.Prelude.{
  ℕ, zero, suc, ◌+◌, ◌-◌, ◌≤◌, ◌<◌, ◌≡◌, refl, sym, ap, ◌∙◌, subst, ◌⊎◌, inl, inr, Bool, true,
  false, Option, none, some, List, [], ◌∷◌, arith, ltb, length, Text, if_both,
}
use osi_s.Browser.Rows.{has_mark, draw_rows_below, draw_rows_inside}
use osi_s.Browser.{
  Mode, fs, trash, BrowserEntry, View, Library, Key, toggle, up, down, enter, backspace, delete,
  restore, purge, purge_all, other, resize,
}
use osi_s.Browser.Entries.{
  build_trash_entries, build_items_count, scrolled, draw_rows, visible_items,
}
use osi_s.Browser.Keys.{
  item_path, at_top, draw_trash, draw_list, enter_item, switch, drawn, key_press, press, press_all,
  cmd_browse, restore_said, restore_entry, purge_said, purge_entry, purge_all_said, draw_mode,
}
use osi_s.Trash.{Disk}
use osi_s.Trash.Commands.{cmd_restore, cmd_purge}

scrolled_window :
    (rows highlight scroll : ℕ)
    → 4 ≤ rows
    → (scrolled rows highlight scroll ≤ highlight)
      × (highlight < scrolled rows highlight scroll + (rows - 3))
unfolding scrolled
scrolled_window rows highlight scroll h = ground arith

Mode-cases : (m : Mode) → (m ≡ fs) ⊎ (m ≡ trash)
Mode-cases fs = inl refl
Mode-cases trash = inr refl

module _ (D : Disk) (L : Library D) (base : Text) where
  open D use {State}

  abbrev is_marked : {A : Type 0} → View → List A → Bool
  is_marked v xs = has_mark (draw_rows (visible_items v.rows) v.scroll_offset v.highlight 0 xs)

  -- In the FS mode the list does not move.
  abbrev IsUnmoved : View → Type 0
  IsUnmoved v = v.mode ≡ fs → v.scroll_offset ≡ 0

  mode-draw_list : (s : State) (v : View) → (draw_list D L base s v).mode ≡ v.mode
  unfolding draw_list
  mode-draw_list s v = at_mode v.mode
    where
      at_count : (n : ℕ) → (draw_trash n v).mode ≡ v.mode
      at_count zero = refl
      at_count (suc n) = refl

      at_mode : (m : Mode) → (draw_mode D L base m s v).mode ≡ v.mode
      at_mode fs = refl
      at_mode trash = at_count (length (build_trash_entries D L base s))

  IsShown : {A : Type 0} → List A → View → Type 0
  IsShown xs v = v.highlight < length xs → 4 ≤ v.rows → is_marked v xs ≡ true

  draw_trash-IsShown : {A : Type 0} (xs : List A) (v : View) → IsShown xs (draw_trash (length xs) v)
  unfolding IsShown
  draw_trash-IsShown [] v h k = absurd (omega arith)
  draw_trash-IsShown (x ∷ xs) v h k =
      let (low, high) = scrolled_window v.rows v.highlight v.scroll_offset k in
      draw_rows_inside (visible_items v.rows) (scrolled v.rows v.highlight v.scroll_offset)
        v.highlight 0 (x ∷ xs) low (omega arith) (omega (arith, high)) (omega (arith, h))

  drawn-IsShown :
      (r : View × State)
      → (drawn D L base r).0.mode ≡ trash
      → IsShown (build_trash_entries D L base r.1) (drawn D L base r).0
  unfolding draw_list
  drawn-IsShown (v, s) m =
      let xs = build_trash_entries D L base s in
      subst (IsShown xs)
        (sym (ap (λ mode. draw_mode D L base mode s v) (sym (mode-draw_list s v) ∙ m)))
        (draw_trash-IsShown xs v)

  -- In Trash mode the cursor is on the screen after every key, if it stands on an entry and the
  -- terminal has four rows at least.
  pub press-trash :
      (key : Key) (s : State) (v : View)
      → let (w, t) = press D L base key s v in
        w.mode ≡ trash
        → w.highlight < length (build_trash_entries D L base t)
        → 4 ≤ w.rows
        → is_marked w (build_trash_entries D L base t) ≡ true
  unfolding press IsShown
  press-trash key s v m h k = drawn-IsShown (key_press D L base key s v) m h k

  trash-IsUnmoved : (v : View) → v.mode ≡ trash → IsUnmoved v
  trash-IsUnmoved v e f = cc

  drawn_trash : (r : View × State) → r.0.mode ≡ trash → IsUnmoved (drawn D L base r).0
  drawn_trash (v, s) e = trash-IsUnmoved (draw_list D L base s v) (mode-draw_list s v ∙ e)

  enter_item-IsUnmoved :
      (s : State) (v : View) (o : Option Text) → IsUnmoved v → IsUnmoved (enter_item D L base s v o)
  enter_item-IsUnmoved s v none h = h
  enter_item-IsUnmoved s v (some name) h =
      if_both IsUnmoved (L.is_directory s (item_path v.cwd name))
        (at_top (record v { cwd = item_path v.cwd name })) v (λ _. refl) h

  mode-restore_entry :
      (s : State) (v : View) (o : Option BrowserEntry)
      → (restore_entry D L base s v o).0.mode ≡ v.mode
  mode-restore_entry s v none = refl
  mode-restore_entry s v (some e) = said (cmd_restore D L.dirname base e.id s)
    where
      said : (r : State × ℕ) → (restore_said D L base e.id v r).0.mode ≡ v.mode
      said (t, zero) = refl
      said (t, suc code) = refl

  mode-purge_entry :
      (s : State) (v : View) (o : Option BrowserEntry)
      → (purge_entry D L base s v o).0.mode ≡ v.mode
  mode-purge_entry s v none = refl
  mode-purge_entry s v (some e) = said (cmd_purge D base e.id s)
    where
      said : (r : State × ℕ) → (purge_said D L base e.id v r).0.mode ≡ v.mode
      said (t, zero) = refl
      said (t, suc code) = refl

  purge_all_said-IsUnmoved : (v : View) (r : State × ℕ) → IsUnmoved (purge_all_said D L base v r).0
  purge_all_said-IsUnmoved v (t, zero) = λ _. refl
  purge_all_said-IsUnmoved v (t, suc code) = λ _. refl

  switch-IsUnmoved :
      (mode : Mode) (key : Key) (s : State) (v : View)
      → v.mode ≡ mode
      → IsUnmoved v
      → IsUnmoved (switch D L base mode key s v).0
  unfolding switch
  switch-IsUnmoved mode toggle s v m h = λ _. refl
  switch-IsUnmoved mode up s v m h = h
  switch-IsUnmoved mode down s v m h =
      if_both (λ (r : View × State). IsUnmoved r.0)
        (ltb (v.highlight + 1) (build_items_count D L base s mode v.cwd))
        (record v { highlight = v.highlight + 1 }, s) (v, s) h h
  switch-IsUnmoved fs enter s v m h = enter_item-IsUnmoved s v _ h
  switch-IsUnmoved fs backspace s v m h = λ _. refl
  switch-IsUnmoved fs delete s v m h = h
  switch-IsUnmoved trash restore s v m h = drawn_trash _ (mode-restore_entry s v _ ∙ m)
  switch-IsUnmoved trash purge s v m h = drawn_trash _ (mode-purge_entry s v _ ∙ m)
  switch-IsUnmoved trash purge_all s v m h = purge_all_said-IsUnmoved v _
  switch-IsUnmoved fs restore s v m h = h
  switch-IsUnmoved fs purge s v m h = h
  switch-IsUnmoved fs purge_all s v m h = h
  switch-IsUnmoved trash enter s v m h = h
  switch-IsUnmoved trash backspace s v m h = h
  switch-IsUnmoved trash delete s v m h = h
  switch-IsUnmoved mode other s v m h = h
  switch-IsUnmoved mode (resize n) s v m h = h

  draw_list-IsUnmoved : (s : State) (v : View) → IsUnmoved v → IsUnmoved (draw_list D L base s v)
  unfolding draw_list
  draw_list-IsUnmoved s v h = elim (Mode-cases v.mode) [
    | inl e ↦ subst IsUnmoved (sym (ap (λ m. draw_mode D L base m s v) e)) h
    | inr e ↦ trash-IsUnmoved (draw_list D L base s v) (mode-draw_list s v ∙ e)
  ]

  press-IsUnmoved :
      (key : Key) (s : State) (v : View) → IsUnmoved v → IsUnmoved (press D L base key s v).0
  unfolding press
  press-IsUnmoved key s v h = draw_list-IsUnmoved _ _ (pressed key)
    where
      pressed : (key : Key) → IsUnmoved (key_press D L base key s v).0
      pressed (resize n) = h
      pressed key = switch-IsUnmoved v.mode key s (record v { feedback = [] }) refl h

  press_all-IsUnmoved :
      (keys : List Key) (s : State) (v : View)
      → IsUnmoved v
      → IsUnmoved (press_all D L base keys s v).0
  unfolding press_all
  press_all-IsUnmoved [] s v h = h
  press_all-IsUnmoved (key ∷ keys) s v h =
      let (w, t) = press D L base key s v in
      press_all-IsUnmoved keys t w (press-IsUnmoved key s v h)

  -- In the FS mode, after any keys since the start, the cursor is not on the screen if it stands past
  -- the first page: the list never moves.
  press_all-fs :
      (keys : List Key) (start : Text) (n : ℕ) (s : State) (names : List Text)
      → let v = (press_all D L base keys s (cmd_browse D L base start n s)).0 in
        v.mode ≡ fs → visible_items v.rows ≤ v.highlight → is_marked v names ≡ false
  unfolding cmd_browse draw_list
  press_all-fs keys start n s names m h =
      let v = (press_all D L base keys s (cmd_browse D L base start n s)).0 in
      let still = press_all-IsUnmoved keys s (cmd_browse D L base start n s) (λ _. refl) m in
      draw_rows_below (visible_items v.rows) v.scroll_offset v.highlight 0 names
        (omega (arith, still)) (omega arith)
