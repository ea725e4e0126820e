-- ===== src/Remote/Lines.antt =====
-- The lines that the client's loops read (lab08/src/client.c): a text of lines followed by "\r\n" is
-- shown as it is, and a text of lines followed by half a line leaves the client waiting.
use osi_s.Prelude.{
  before_all, has-take, take_all, take-append_le, dec_lt, ℕ, zero, suc, ◌<◌, ◌≡◌, refl, sym, ap,
  ◌∙◌, subst, ◌≢◌, Bool, true, false, [], ◌∷◌, ◌++◌, append_assoc, arith, length, take,
  length-append, length-take, Text, same, has, before, fgets, same_iff, has-append, fgets-line,
  fgets_cut,
}
use osi_s.Remote.{crlf}
use osi_s.Remote.Server.{fit, maxline}
use osi_s.Remote.Client.{line, wait, line_or, read_line, done, stuck, show, collect, collected}

abbrev pub newline : Text
newline = b'\n' ∷ []

-- What one `fgets` reads and the loop shows: a line with its newline that is not the closing one,
-- or a full buffer.
pub data IsLine : Text → Type 0 where
  whole :
      (body : Text)
      → has b'\n' body ≡ false
      → has 0 body ≡ false
      → body ≢ (b'\r' ∷ [])
      → length body < 1023
      → IsLine (body ++ newline)
  full :
      (text : Text) → has b'\n' text ≡ false → has 0 text ≡ false → length text ≡ 1023 → IsLine text

pub data IsLines : Text → Type 0 where
  nothing : IsLines []
  more : (l rest : Text) → IsLine l → IsLines rest → IsLines (l ++ rest)

line_or-has : (o : Bool) (l rest : Text) → has b'\n' l ≡ true → line_or o (l, rest) ≡ line l rest
unfolding line_or has
line_or-has o [] rest h = cc
line_or-has o (c ∷ cs) rest h = ground arith

line_or_full : (o : Bool) (l rest : Text) → length l ≡ 1023 → line_or o (l, rest) ≡ line l rest
unfolding line_or
line_or_full o [] rest h = absurd (omega arith)
line_or_full o (c ∷ cs) rest h = ground arith

line_or_wait :
    (l rest : Text) → has b'\n' l ≡ false → length l < 1023 → line_or true (l, rest) ≡ wait
unfolding line_or
line_or_wait [] rest h k = refl
line_or_wait (c ∷ cs) rest h k = ground arith

has_last : (c : ℕ) (a : Text) → has c (a ++ (c ∷ [])) ≡ true
unfolding has
has_last c [] = ground arith
has_last c (d ∷ a) = ground (arith, has_last c a)

pub read_line-whole :
    (o : Bool) (body rest : Text)
    → has b'\n' body ≡ false
    → length body < 1023
    → read_line o (body ++ (b'\n' ∷ rest)) ≡ line (body ++ newline) rest
unfolding read_line
read_line-whole o body rest h k =
    ap (line_or o) (fgets-line 1023 body rest h k)
    ∙ line_or-has o (body ++ newline) rest (has_last b'\n' body)

read_line-IsLine : (o : Bool) (l rest : Text) → IsLine l → read_line o (l ++ rest) ≡ line l rest
unfolding read_line
read_line-IsLine o _ rest (whole body h z d k) =
    ap (read_line o) (append_assoc body newline rest) ∙ read_line-whole o body rest h k
read_line-IsLine o _ rest (full text h z k) =
    ap (line_or o) (fgets_cut 1023 text rest h k) ∙ line_or_full o text rest k

-- A half line is not read.
fgets_half : (n : ℕ) (a : Text) → has b'\n' a ≡ false → length a < n → fgets n a ≡ (a, [])
unfolding fgets has
fgets_half zero a h k = absurd (omega arith)
fgets_half (suc n) [] h k = refl
fgets_half (suc n) (c ∷ a) h k = ground (arith, fgets_half n a)

pub read_line_half : (a : Text) → has b'\n' a ≡ false → length a < 1023 → read_line true a ≡ wait
unfolding read_line
read_line_half a h k = ap (line_or true) (fgets_half 1023 a h k) ∙ line_or_wait a [] h k

has-IsLine : (l : Text) → IsLine l → has 0 l ≡ false
unfolding has
has-IsLine _ (whole body h z d k) = ground (arith, has-append 0 body newline)
has-IsLine _ (full text h z k) = z

before-IsLine : (l : Text) → IsLine l → before 0 l ≡ l
before-IsLine l h = before_all 0 l (has-IsLine l h)

append-crlf : (a : Text) → a ++ newline ≡ crlf → a ≡ b'\r' ∷ []
append-crlf [] h = cc
append-crlf (c ∷ []) h = cc
append-crlf (c ∷ d ∷ []) h = cc
append-crlf (c ∷ d ∷ e ∷ a) h = cc

same-IsLine : (l : Text) → IsLine l → same l crlf ≡ false
same-IsLine _ (whole body h z d k) =
    ground (arith, same_iff (body ++ newline) crlf, append-crlf body)
same-IsLine _ (full text h z k) = ground (arith, same_iff text crlf)

length-IsLine : (l : Text) → IsLine l → 0 < length l
length-IsLine _ (whole body h z d k) = omega (arith, length-append body newline)
length-IsLine _ (full text h z k) = omega arith

-- One turn of the loop on a line.
pub collect-IsLine :
    (n : ℕ) (o : Bool) (l rest : Text)
    → IsLine l
    → collect (suc n) o (l ++ rest) ≡ show l (collect n o rest)
unfolding collect collected
collect-IsLine n o l rest h = rw (read_line-IsLine o l rest h, before-IsLine l h, same-IsLine l h)

-- A text of lines and then "\r\n" is shown, and the loop ends there.
pub collect-IsLines :
    (n : ℕ) (o : Bool) (text rest : Text)
    → IsLines text
    → length text < n
    → collect n o (text ++ (crlf ++ rest)) ≡ done text rest
unfolding collect collected read_line line_or fgets has same before
collect-IsLines zero o text rest h k = absurd (omega arith)
collect-IsLines (suc n) o _ rest nothing k = refl
collect-IsLines (suc n) o _ rest (more l text h hs) k =
    ap (collect (suc n) o) (append_assoc l text (crlf ++ rest))
    ∙ collect-IsLine n o l (text ++ (crlf ++ rest)) h
    ∙ ap (show l)
        (collect-IsLines n o text rest hs (omega (arith, length-append l text, length-IsLine l h)))

-- A text of lines and then half a line leaves the loop waiting.
pub collect_stuck :
    (n : ℕ) (text tail : Text)
    → IsLines text
    → has b'\n' tail ≡ false
    → length tail < 1023
    → length text < n
    → collect n true (text ++ tail) ≡ stuck text
unfolding collect collected
collect_stuck zero text tail h t s k = absurd (omega arith)
collect_stuck (suc n) _ tail nothing t s k = rw (read_line_half tail t s)
collect_stuck (suc n) _ tail (more l text h hs) t s k =
    ap (collect (suc n) true) (append_assoc l text tail)
    ∙ collect-IsLine n true l (text ++ tail) h
    ∙ ap (show l)
        (collect_stuck n text tail hs t s (omega (arith, length-append l text, length-IsLine l h)))

-- What `snprintf` leaves of a line in an array of MAXLINE bytes is a line for `fgets` too: it has its
-- newline, or it fills the client's buffer.
pub fit-IsLine :
    (body : Text)
    → has b'\n' body ≡ false
    → has 0 body ≡ false
    → body ≢ (b'\r' ∷ [])
    → IsLine (fit maxline (body ++ newline))
unfolding fit
fit-IsLine body h z d = elim (dec_lt (length body) 1023) [
  | yes k ↦
      subst IsLine
        (sym (take_all 1023 (body ++ newline) (omega (arith, length-append body newline))))
        (whole body h z d k)
  | no k ↦ subst IsLine (sym (take-append_le 1023 body newline (omega arith))) (
      full (take 1023 body) (has-take b'\n' 1023 body h) (has-take 0 1023 body z)
        (length-take 1023 body ∙ omega arith))
]
