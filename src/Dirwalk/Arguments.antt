-- ===== src/Dirwalk/Arguments.antt =====
-- What the arguments of lab01 set: `main` of mainDirwalk.c.
use osi_s.Prelude.{
  ℕ, ◌≡◌, refl, List, [], ◌∷◌, Bool, true, false, ◌||◌, Option, none, some, ◌==◌, if◌then◌else◌,
  subst,
}
use osi_s.Dirwalk.{Settings, init, letter, and_then, letters, argument, arguments}

-- The filter is on exactly when a type is selected.
abbrev pub IsFiltered : Settings → Type 0
IsFiltered s = s.filter ≡ (s.options.show_links || (s.options.show_dirs || s.options.show_files))

-- The same where the arguments are accepted.
abbrev Holds : Option Settings → Type 0
Holds none = Unit
Holds (some s) = IsFiltered s

Holds-if : (b : Bool) (x y : Option Settings) → Holds x → Holds y → Holds (if b then x else y)
Holds-if true x y h k = h
Holds-if false x y h k = k

Holds-and_then :
    (x : Option Settings) (g : Settings → Option Settings)
    → Holds x
    → ((s : Settings) → IsFiltered s → Holds (g s))
    → Holds (and_then x g)
Holds-and_then none g h k = tt
Holds-and_then (some s) g h k = k s h

middle_true : (a b : Bool) → true ≡ (a || (true || b))
middle_true true b = refl
middle_true false b = refl

last_true : (a b : Bool) → true ≡ (a || (b || true))
last_true true b = refl
last_true false true = refl
last_true false false = refl

letter-Holds : (c : ℕ) (s : Settings) → IsFiltered s → Holds (letter c s)
unfolding letter
letter-Holds c s v = Holds-if (c == b'l') _ _ refl (
    Holds-if (c == b'd') _ _ (middle_true s.options.show_links s.options.show_files) (
      Holds-if (c == b'f') _ _ (last_true s.options.show_links s.options.show_dirs)
        (Holds-if (c == b's') _ _ v tt)))

letters-Holds : (cs : List ℕ) (s : Settings) → IsFiltered s → Holds (letters cs s)
unfolding letters
letters-Holds [] s v = v
letters-Holds (c ∷ cs) s v =
    Holds-and_then (letter c s) (letters cs) (letter-Holds c s v) (letters-Holds cs)

argument-Holds : (a : List ℕ) (s : Settings) → IsFiltered s → Holds (argument a s)
unfolding argument
argument-Holds [] s v = v
argument-Holds (c ∷ cs) s v = Holds-if (c == b'-') _ _ (letters-Holds cs s v) v

arguments-Holds : (as' : List (List ℕ)) (s : Settings) → IsFiltered s → Holds (arguments as' s)
unfolding arguments
arguments-Holds [] s v = v
arguments-Holds (a ∷ as') s v =
    Holds-and_then (argument a s) (arguments as') (argument-Holds a s v) (arguments-Holds as')

-- When `main` accepts its arguments, the type filter is on exactly when a link, directory or file
-- option is set, whatever the order of the arguments and however the letters are joined.
pub arguments_filter :
    (as' : List (List ℕ)) (s : Settings) → arguments as' init ≡ some s → IsFiltered s
arguments_filter as' s e = subst Holds e (arguments-Holds as' init refl)
