-- ===== src/Browser/Effects.antt =====
-- What the browser does to the disk (CourseWork/src/cli/browser.c with purge.c): in Trash mode its
-- purges keep to the trash; and its way up undoes its way down.
use osi_s.Prelude.{
  ℕ, zero, suc, ◌+◌, ◌-◌, ◌<◌, ◌≡◌, refl, ap, ◌∙◌, Bool, true, false, ◌&&◌, Option, none, some,
  List, [], ◌∷◌, ◌++◌, arith, ltb, ◌==◌, if◌then◌else◌, length, length-append, Text, starts_with,
  has, take_all, if_both, take-append,
}
use osi_s.Browser.{
  Mode, fs, trash, BrowserEntry, View, Library, Key, toggle, up, down, enter, backspace, delete,
  restore, purge, purge_all, other, resize,
}
use osi_s.Browser.Entries.{build_items_count}
use osi_s.Browser.Keys.{
  item_path, parent, cut_at, switch, key_press, press, press_all, purge_said, purge_entry,
  purge_all_said,
}
use osi_s.Trash.{Disk, IsLawful}
use osi_s.Trash.Commands.{cmd_purge, cmd_purge_all}
use osi_s.Trash.Delete.{strrchr, later}
use osi_s.Trash.Paths.{trash_root, info_dir}
use osi_s.Trash.Paths.Apart.{file-outside, info-outside}
use osi_s.Trash.Purge.{cmd_purge_other, cmd_purge_all_outside, all_short}

-- A key that neither deletes nor restores.
abbrev pub is_tame : Key → Bool
is_tame delete = false
is_tame restore = false
is_tame _ = true

abbrev pub all_tame : List Key → Bool
all_tame [] = true
all_tame (key ∷ keys) = is_tame key && all_tame keys

-- At every moment the directory of the notes has only names whose id fits into `id[64]`.
abbrev pub HasShortIds : Disk → Text → Type 0
HasShortIds D base =
    (s : D.State) (names : List Text)
    → D.names s (info_dir base) ≡ some names
    → all_short names ≡ true

module _ (D : Disk) (lawful : IsLawful D) (L : Library D) (base : Text)
    (short : HasShortIds D base) where
  open D use {State, lstat}

  purge_entry_outside :
      (s : State) (v : View) (o : Option BrowserEntry) (p : Text)
      → starts_with (trash_root base) p ≡ false
      → lstat (purge_entry D L base s v o).1 p ≡ lstat s p
  purge_entry_outside s v none p h = refl
  purge_entry_outside s v (some e) p h = said (cmd_purge D base e.id s) (
      cmd_purge_other D lawful base e.id p s (file-outside base e.id p h)
        (info-outside base e.id p h))
    where
      said :
          (r : State × ℕ)
          → lstat r.0 p ≡ lstat s p
          → lstat (purge_said D L base e.id v r).1 p ≡ lstat s p
      said (t, zero) q = q
      said (t, suc code) q = q

  switch_outside :
      (mode : Mode) (key : Key) (s : State) (v : View) (p : Text)
      → is_tame key ≡ true
      → starts_with (trash_root base) p ≡ false
      → lstat (switch D L base mode key s v).1 p ≡ lstat s p
  unfolding switch
  switch_outside mode toggle s v p k h = refl
  switch_outside mode up s v p k h = refl
  switch_outside mode down s v p k h =
      if_both (λ (r : View × State). lstat r.1 p ≡ lstat s p)
        (ltb (v.highlight + 1) (build_items_count D L base s mode v.cwd))
        (record v { highlight = v.highlight + 1 }, s) (v, s) refl refl
  switch_outside mode delete s v p k h = cc
  switch_outside mode restore s v p k h = cc
  switch_outside fs enter s v p k h = refl
  switch_outside fs backspace s v p k h = refl
  switch_outside trash purge s v p k h = purge_entry_outside s v _ p h
  switch_outside trash purge_all s v p k h =
      all_said (cmd_purge_all D base s) (cmd_purge_all_outside D lawful base p s (short s) h)
    where
      all_said :
          (r : State × ℕ)
          → lstat r.0 p ≡ lstat s p
          → lstat (purge_all_said D L base v r).1 p ≡ lstat s p
      all_said (t, zero) e = e
      all_said (t, suc code) e = e
  switch_outside fs purge s v p k h = refl
  switch_outside fs purge_all s v p k h = refl
  switch_outside trash enter s v p k h = refl
  switch_outside trash backspace s v p k h = refl
  switch_outside mode other s v p k h = refl
  switch_outside mode (resize n) s v p k h = refl

  press_outside :
      (key : Key) (s : State) (v : View) (p : Text)
      → is_tame key ≡ true
      → starts_with (trash_root base) p ≡ false
      → lstat (press D L base key s v).1 p ≡ lstat s p
  unfolding press
  press_outside key s v p k h = pressed key k
    where
      pressed :
          (key : Key) → is_tame key ≡ true → lstat (key_press D L base key s v).1 p ≡ lstat s p
      pressed (resize n) k = refl
      pressed key k = switch_outside v.mode key s (record v { feedback = [] }) p k h

  -- On a disk where the directory of the notes never has a name of 69 bytes or more, any keys but Del
  -- and 'r' leave what stands at a path outside the trash as it was, whichever calls of the system
  -- fail. Longer names make 'D' write behind `id[64]`.
  pub press_all_outside :
      (keys : List Key) (s : State) (v : View) (p : Text)
      → all_tame keys ≡ true
      → starts_with (trash_root base) p ≡ false
      → lstat (press_all D L base keys s v).1 p ≡ lstat s p
  unfolding press_all press
  press_all_outside [] s v p k h = refl
  press_all_outside (key ∷ keys) s v p k h =
      let (w, t) = press D L base key s v in
      press_all_outside keys t w p (ground arith) h ∙ press_outside key s v p (ground arith) h

strrchr-none : (c : ℕ) (b : Text) → has c b ≡ false → strrchr c b ≡ none
unfolding strrchr has
strrchr-none c [] h = refl
strrchr-none c (d ∷ b) h =
    ap (λ o. later o (if d == c then some (d ∷ b) else none)) (strrchr-none c b (ground arith))
    ∙ ground arith

strrchr-append : (c : ℕ) (a b : Text) → has c b ≡ false → strrchr c (a ++ (c ∷ b)) ≡ some (c ∷ b)
unfolding strrchr has
strrchr-append c [] b h =
    ap (λ o. later o (if c == c then some (c ∷ b) else none)) (strrchr-none c b h) ∙ ground arith
strrchr-append c (d ∷ a) b h =
    ap (λ o. later o (if d == c then some (d ∷ (a ++ (c ∷ b))) else none)) (strrchr-append c a b h)

cut_name :
    (cwd name : Text) → 0 < length cwd → cut_at (cwd ++ (b'/' ∷ name)) (some (b'/' ∷ name)) ≡ cwd
cut_name cwd name n = rw (cut_test, size) (take-append (length cwd) cwd (b'/' ∷ name) refl)
  where
    size : length (cwd ++ (b'/' ∷ name)) - length (b'/' ∷ name) ≡ length cwd
    size = omega (arith, length-append cwd (b'/' ∷ name))

    cut_test : ltb (length (b'/' ∷ name)) (length (cwd ++ (b'/' ∷ name))) ≡ true
    cut_test = ground (arith, length-append cwd (b'/' ∷ name))

-- Backspace after Enter is back in the directory.
pub parent-item_path :
    (cwd name : Text)
    → 0 < length cwd
    → has b'/' name ≡ false
    → length cwd + length name < 4095
    → parent (item_path cwd name) ≡ cwd
unfolding parent
parent-item_path cwd name n h k =
    let path = cwd ++ (b'/' ∷ name) in
    ap parent (take_all 4095 path (omega (arith, length-append cwd (b'/' ∷ name))))
    ∙ ap (cut_at path) (strrchr-append b'/' cwd name h)
    ∙ cut_name cwd name n
