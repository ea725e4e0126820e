-- ===== src/Remote/Listing.antt =====
-- The lines of LIST (lab08/src/server.c) are lines for the client, whatever the directory holds.
use osi_s.Prelude.{
  ℕ, ◌<◌, ◌≡◌, refl, sym, ap, subst, false, Option, none, some, List, [], ◌∷◌, ◌++◌, append-nil,
  append_assoc, arith, length, take, length-append, Text, bytes, same, has, has-take, if_both,
  has-append,
}
use osi_s.Remote.{Host, Kind, directory, link, other, crlf}
use osi_s.Remote.Server.{
  fit, path_max, maxline, slash, link_line, kind_line, entry_line, entry_lines,
}
use osi_s.Remote.Lines.{newline, IsLine, IsLines, nothing, more, fit-IsLine}

-- The texts that `readdir` and `readlink` give: not empty, and with no newline and no NUL.
pub record IsName (name : Text) : Type 0 where
  pub nonempty : 0 < length name
  pub no_newline : has b'\n' name ≡ false
  pub no_nul : has 0 name ≡ false

pub data AreNames : List Text → Type 0 where
  none_left : AreNames []
  also : (name : Text) (names : List Text) → IsName name → AreNames names → AreNames (name ∷ names)

pub has-append_false :
    (c : ℕ) (a b : Text) → has c a ≡ false → has c b ≡ false → has c (a ++ b) ≡ false
has-append_false c a b h k = ground (arith, has-append c a b)

fit-crlf :
    (a : Text)
    → 0 < length a
    → has b'\n' a ≡ false
    → has 0 a ≡ false
    → IsLine (fit maxline (a ++ crlf))
unfolding has
fit-crlf a l h z =
    subst (λ t. IsLine (fit maxline t)) (append_assoc a (b'\r' ∷ []) newline)
      (fit-IsLine (a ++ (b'\r' ∷ [])) (has-append_false b'\n' a (b'\r' ∷ []) h refl)
        (has-append_false 0 a (b'\r' ∷ []) z refl)
        (λ e. absurd (omega (arith, length-append a (b'\r' ∷ []), ap length e))))

one : (l : Text) → IsLine l → IsLines l
one l h = subst IsLines (append-nil l) (more l [] h nothing)

clean_link :
    (c : ℕ) (name arrow target : Text)
    → has c name ≡ false
    → has c arrow ≡ false
    → has c target ≡ false
    → has c (name ++ arrow ++ fit path_max target) ≡ false
unfolding fit
clean_link c name arrow target h a t =
    has-append_false c (name ++ arrow) (take 4095 target) (has-append_false c name arrow h a)
      (has-take c 4095 target t)

arrow_line :
    (name arrow target : Text)
    → IsName name
    → IsName arrow
    → IsName target
    → IsLines (fit maxline (name ++ arrow ++ fit path_max target ++ crlf))
arrow_line name arrow target n a t =
    let text = name ++ arrow ++ fit path_max target in
    one _ (
      fit-crlf text
        (omega (
          arith,
          length-append (name ++ arrow) (fit path_max target),
          length-append name arrow,
          n.nonempty,
        ))
        (clean_link b'\n' name arrow target n.no_newline a.no_newline t.no_newline)
        (clean_link 0 name arrow target n.no_nul a.no_nul t.no_nul))

link_line-IsLines :
    (H : Host) (dirpath name : Text) (found : Option Text)
    → IsName name
    → ((target : Text) → found ≡ some target → IsName target)
    → IsLines (link_line H dirpath name found)
unfolding link_line has
link_line-IsLines H dirpath name none n t = nothing
link_line-IsLines H dirpath name (some found) n t =
    let target = fit path_max found in
    if_both IsLines (H.is_regular (fit path_max (dirpath ++ slash ++ target)))
      (fit maxline (name ++ bytes " --> " ++ target ++ crlf))
      (fit maxline (name ++ bytes " -->> " ++ target ++ crlf))
      (arrow_line name (bytes " --> ") found n
        (record { nonempty = omega arith; no_newline = refl; no_nul = refl }) (t found refl))
      (arrow_line name (bytes " -->> ") found n
        (record { nonempty = omega arith; no_newline = refl; no_nul = refl }) (t found refl))

kind_line-IsLines :
    (H : Host) (dirpath name : Text) (k : Option Kind)
    → IsName name
    → ((path target : Text) → H.readlink path ≡ some target → IsName target)
    → IsLines (kind_line H dirpath name k)
unfolding kind_line has
kind_line-IsLines H dirpath name none n t = nothing
kind_line-IsLines H dirpath name (some directory) n t = one _ (
    fit-crlf (name ++ slash) (omega (arith, length-append name slash, n.nonempty))
      (has-append_false b'\n' name slash n.no_newline refl)
      (has-append_false 0 name slash n.no_nul refl))
kind_line-IsLines H dirpath name (some link) n t =
    let path = fit path_max (dirpath ++ slash ++ name) in
    link_line-IsLines H dirpath name (H.readlink path) n (t path)
kind_line-IsLines H dirpath name (some other) n t =
    one _ (fit-crlf name n.nonempty n.no_newline n.no_nul)

IsLines-append : (a b : Text) → IsLines a → IsLines b → IsLines (a ++ b)
IsLines-append _ b nothing k = k
IsLines-append _ b (more l rest h hs) k =
    subst IsLines (sym (append_assoc l rest b)) (more l (rest ++ b) h (IsLines-append rest b hs k))

pub entry_lines-IsLines :
    (H : Host) (dirpath : Text) (names : List Text)
    → AreNames names
    → ((path target : Text) → H.readlink path ≡ some target → IsName target)
    → IsLines (entry_lines H dirpath names)
unfolding entry_lines entry_line
entry_lines-IsLines H dirpath [] n t = nothing
entry_lines-IsLines H dirpath _ (also name names n ns) t =
    IsLines-append (entry_line H dirpath name) (entry_lines H dirpath names)
      (if_both IsLines (same name (bytes ".")) [] (kind_line H dirpath name found) nothing
        (kind_line-IsLines H dirpath name found n t))
      (entry_lines-IsLines H dirpath names ns t)
  where
    found : Option Kind
    found = H.lstat (fit path_max (dirpath ++ slash ++ name))
