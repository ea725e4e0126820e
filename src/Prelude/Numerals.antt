-- ===== src/Prelude/Numerals.antt =====
-- Decimal numbers in texts, as `atoi` and the conversion %ld of `sscanf` read them. Numbers that do
-- not fit into the C type are undefined there; here they are read in full.
use Prim.Native.Nat.{ℕ, ◌+◌, ◌-◌, ◌*◌}
use mathlib.Core.Path.{◌≡◌, refl}
use mathlib.Core.Bool.{Bool, true, false, ◌&&◌, ◌||◌}
use mathlib.Core.Option.{Option, none, some}
use mathlib.Core.List.{[], ◌∷◌, ◌++◌}
use native.Mathlib.Omega.{arith}
use osi_s.Prelude.Bytes.{Text}
use osi_s.Prelude.Tests.{◌==◌, leb, if◌then◌else◌}

-- `isspace`
abbrev pub is_space : ℕ → Bool
is_space c = c == b' ' || (leb 9 c && leb c 13)

abbrev pub is_digit : ℕ → Bool
is_digit c = leb b'0' c && leb c b'9'

abbrev pub skip_spaces : Text → Text
skip_spaces [] = []
skip_spaces (c ∷ cs) = let rest = skip_spaces cs in if is_space c then rest else c ∷ cs

-- The digits in front, behind the number `acc`.
unfoldable pub read_digits : ℕ → Text → ℕ
read_digits acc [] = acc
read_digits acc (c ∷ cs) =
    let rest = read_digits (acc * 10 + (c - b'0')) cs in if is_digit c then rest else acc

-- A sign, and what follows it; true is '-'.
abbrev pub read_sign : Text → Bool × Text
read_sign [] = (false, [])
read_sign (c ∷ cs) =
    if c == b'-' then (true, cs) else if c == b'+' then (false, cs) else (false, c ∷ cs)

abbrev pub signed : Bool × Text → Option (Bool × ℕ)
signed (negative, []) = none
signed (negative, c ∷ cs) = if is_digit c then some (negative, read_digits 0 (c ∷ cs)) else none

-- The number at the start of a text, with its sign; none without a digit.
unfoldable pub scan_number : Text → Option (Bool × ℕ)
scan_number text = signed (read_sign (skip_spaces text))

abbrev pub all_digits : Text → Bool
all_digits [] = true
all_digits (c ∷ cs) = is_digit c && all_digits cs

-- Digits up to another byte are read as their value alone.
read_digits-append :
    (acc c : ℕ) (digits rest : Text)
    → all_digits digits ≡ true
    → is_digit c ≡ false
    → read_digits acc (digits ++ (c ∷ rest)) ≡ read_digits acc digits
unfolding read_digits
read_digits-append acc c [] rest h k = ground arith
read_digits-append acc c (d ∷ digits) rest h k =
    ground (arith, read_digits-append (acc * 10 + (d - b'0')) c digits rest)

pub scan_number-append :
    (d c : ℕ) (digits rest : Text)
    → all_digits (d ∷ digits) ≡ true
    → is_digit c ≡ false
    → scan_number ((d ∷ digits) ++ (c ∷ rest)) ≡ some (false, read_digits 0 (d ∷ digits))
unfolding scan_number
scan_number-append d c digits rest h k =
    let first : is_digit d ≡ true = ground arith in
    let whole = read_digits-append 0 c (d ∷ digits) rest h k in
    rw (spaceless first) (rw (minusless first, plusless first, first, whole) refl)
  where
    spaceless : is_digit d ≡ true → is_space d ≡ false
    spaceless e = ground arith

    minusless : is_digit d ≡ true → (d == b'-') ≡ false
    minusless e = ground arith

    plusless : is_digit d ≡ true → (d == b'+') ≡ false
    plusless e = ground arith
