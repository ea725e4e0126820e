-- ===== src/Prelude/Bytes.antt =====
-- Texts as C sees them: lists of bytes, with the string functions that the programs use.
use Prim.Native.Char.{code}
use Prim.Native.Nat.{ℕ, zero, suc, ◌<◌}
use Prim.Native.String.{String}
use mathlib.Core.Path.{◌≡◌, refl}
use mathlib.Core.Logic.{◌↔◌}
use mathlib.Core.Bool.{Bool, true, false, ◌&&◌, ◌||◌}
use mathlib.Core.List.{List, [], ◌∷◌, ◌++◌}
use native.Mathlib.Omega.{arith}
use osi_s.Prelude.Lists.{length, drop, take}
use osi_s.Prelude.Tests.{◌==◌, if◌then◌else◌, ==_iff}

abbrev pub Text : Type 0
Text = List ℕ

-- The bytes of a literal.
abbrev pub bytes : String → Text
bytes String.[] = []
bytes (String.◌∷◌ c s) = code c ∷ bytes s

-- `strcmp(a, b) == 0`
unfoldable pub same : Text → Text → Bool
same [] [] = true
same (c ∷ cs) (d ∷ ds) = c == d && same cs ds
same _ _ = false

-- `strncmp(text, prefix, strlen(prefix)) == 0`
unfoldable pub starts_with : Text → Text → Bool
starts_with [] text = true
starts_with (c ∷ cs) [] = false
starts_with (c ∷ cs) (d ∷ ds) = c == d && starts_with cs ds

-- The byte is in the text.
unfoldable pub has : ℕ → Text → Bool
has c [] = false
has c (d ∷ ds) = c == d || has c ds

-- `strcspn`: what stands before the first byte `c`.
unfoldable pub before : ℕ → Text → Text
before c [] = []
before c (d ∷ ds) = if d == c then [] else d ∷ before c ds

-- `fgets` with room for `n` bytes and the NUL: the line and the rest of the file.
unfoldable pub fgets : ℕ → Text → Text × Text
fgets zero text = ([], text)
fgets (suc n) [] = ([], [])
fgets (suc n) (c ∷ cs) =
    let (line, rest) = fgets n cs in if c == b'\n' then (c ∷ [], cs) else (c ∷ line, rest)

pub same_iff : (a b : Text) → (same a b ≡ true) ↔ (a ≡ b)
unfolding same
same_iff [] [] = (λ _. refl, λ _. refl)
same_iff [] (d ∷ ds) = (λ h. cc, λ h. cc)
same_iff (c ∷ cs) [] = (λ h. cc, λ h. cc)
same_iff (c ∷ cs) (d ∷ ds) = ground (arith, ==_iff c d, same_iff cs ds)

pub starts_with-append : (p a b : Text) → starts_with (p ++ a) (p ++ b) ≡ starts_with a b
unfolding starts_with
starts_with-append [] a b = refl
starts_with-append (c ∷ p) a b = ground (arith, starts_with-append p a b)

pub starts_with_self : (p a : Text) → starts_with p (p ++ a) ≡ true
unfolding starts_with
starts_with_self [] a = refl
starts_with_self (c ∷ p) a = ground (arith, starts_with_self p a)

pub drop_prefix : (p a : Text) → drop (length p) (p ++ a) ≡ a
drop_prefix [] a = refl
drop_prefix (c ∷ p) a = drop_prefix p a

pub has-append : (c : ℕ) (a b : Text) → has c (a ++ b) ≡ (has c a || has c b)
unfolding has
has-append c [] b = refl
has-append c (d ∷ a) b = ground (arith, has-append c a b)

-- A line that fits is read whole, with its newline.
pub fgets-line :
    (n : ℕ) (line rest : Text)
    → has b'\n' line ≡ false
    → length line < n
    → fgets n (line ++ (b'\n' ∷ rest)) ≡ (line ++ (b'\n' ∷ []), rest)
unfolding fgets has
fgets-line zero line rest h k = absurd (omega arith)
fgets-line (suc n) [] rest h k = refl
fgets-line (suc n) (c ∷ line) rest h k = ground (arith, fgets-line n line rest)

-- A line that does not fit is cut.
pub fgets_cut :
    (n : ℕ) (line rest : Text)
    → has b'\n' line ≡ false
    → length line ≡ n
    → fgets n (line ++ rest) ≡ (line, rest)
unfolding fgets has
fgets_cut zero [] rest h k = refl
fgets_cut zero (c ∷ line) rest h k = absurd (omega arith)
fgets_cut (suc n) [] rest h k = absurd (omega arith)
fgets_cut (suc n) (c ∷ line) rest h k = ground (arith, fgets_cut n line rest)

pub before-append : (c : ℕ) (a b : Text) → has c a ≡ false → before c (a ++ (c ∷ b)) ≡ a
unfolding before has
before-append c [] b h = ground arith
before-append c (d ∷ a) b h = ground (arith, before-append c a b)

pub before_all : (c : ℕ) (a : Text) → has c a ≡ false → before c a ≡ a
unfolding before has
before_all c [] h = refl
before_all c (d ∷ a) h = ground (arith, before_all c a)

pub has-take : (c n : ℕ) (a : Text) → has c a ≡ false → has c (take n a) ≡ false
unfolding has
has-take c zero a h = refl
has-take c (suc n) [] h = refl
has-take c (suc n) (d ∷ a) h = ground (arith, has-take c n a)

-- A text that starts with a prefix is the prefix and what follows it.
pub starts_with_split : (p a : Text) → starts_with p a ≡ true → p ++ drop (length p) a ≡ a
unfolding starts_with
starts_with_split [] a h = refl
starts_with_split (c ∷ p) [] h = cc
starts_with_split (c ∷ p) (d ∷ a) h = ground (arith, starts_with_split p a, ==_iff c d)

pub same_path : (a b : Text) → same a b ≡ true → b ≡ a
same_path a b h = ground (arith, same_iff a b)
