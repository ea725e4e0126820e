-- ===== src/Remote/Session.antt =====
-- Both sides of a connection together (lab08/src/client.c against lab08/src/server.c): after a
-- command that the server answers in full, the client has read all that was sent.
use osi_s.Prelude.{
  suc, ◌+◌, ◌≤◌, ◌<◌, ◌≡◌, refl, sym, ap, ◌∙◌, Bool, true, false, some, List, [], ◌∷◌, ◌++◌,
  append_assoc, arith, length, length-append, Text, bytes, same, starts_with, has, before,
  before_all, fgets, has-append,
}
use osi_s.Remote.{Host, Site, crlf}
use osi_s.Remote.Server.{
  change_dir, token, skip_breaks, strtok, is_break, list_path, entry_lines, listing, info_reply,
  dispatch, handle,
}
use osi_s.Remote.Client.{
  line_or, read_line, done, read_all, one_line, contains, session, next, exited, answered,
  read_answer, served, answer, exchange,
}
use osi_s.Remote.Listing.{has-append_false, IsName, AreNames, entry_lines-IsLines}
use osi_s.Remote.Lines.{newline, IsLines, read_line-whole, collect-IsLines}

-- A command that arrives whole in one `recv` and is one token for `strtok`.
pub record IsRequest (cmd : Text) : Type 0 where
  pub nonempty : 0 < length cmd
  pub no_newline : has b'\n' cmd ≡ false
  pub no_return : has b'\r' cmd ≡ false
  pub no_nul : has 0 cmd ≡ false
  pub short : length cmd + 2 ≤ 1023

token-crlf : (a : Text) → has b'\n' a ≡ false → has b'\r' a ≡ false → token (a ++ crlf) ≡ a
unfolding token has
token-crlf [] h k = refl
token-crlf (c ∷ a) h k = ground (arith, token-crlf a)

strtok-crlf : (cmd : Text) → IsRequest cmd → strtok (cmd ++ crlf) ≡ cmd
unfolding strtok skip_breaks has
strtok-crlf [] r = absurd (omega (arith, r.nonempty))
strtok-crlf (c ∷ cmd) r =
    rw (before_all 0 (c ∷ (cmd ++ crlf)) clean, first)
      (token-crlf (c ∷ cmd) r.no_newline r.no_return)
  where
    clean : has 0 (c ∷ (cmd ++ crlf)) ≡ false
    clean = ground (arith, r.no_nul, has-append 0 (c ∷ cmd) crlf)

    first : is_break c ≡ false
    first = ground (arith, r.no_newline, r.no_return)

info_reply_lem :
    (H : Host) (S : Site) (text : Text)
    → S.info_buf ≡ some text
    → 0 < length text
    → info_reply H S.info_buf ≡ text ++ crlf
unfolding info_reply
info_reply_lem H S [] i l = absurd (omega arith)
info_reply_lem H S (c ∷ text) i l = ap (info_reply H) i

-- What the client's text comes to, on a connection with nothing left to read.
pub exchange-IsRequest :
    (H : Host) (S : Site) (dir cmd : Text)
    → IsRequest cmd
    → exchange H S (session dir [] true) cmd
      ≡ answer cmd (session dir [] true) (dispatch H S dir cmd)
unfolding exchange served handle
exchange-IsRequest H S dir cmd r =
    ap (λ c. answer cmd (session dir [] true) (dispatch H S dir c)) (strtok-crlf cmd r)

-- A text of lines is read up to the "\r\n" that closes it.
pub read_all-IsLines :
    (o : Bool) (text : Text) → IsLines text → read_all o (text ++ crlf) ≡ done text []
unfolding read_all
read_all-IsLines o text h =
    collect-IsLines (suc (length (text ++ crlf))) o text [] h
      (omega (arith, length-append text crlf))

-- One line that fits is read whole.
read_line-crlf :
    (text : Text)
    → has b'\n' text ≡ false
    → has 0 text ≡ false
    → length text + 2 ≤ 1023
    → one_line (read_line true (text ++ crlf)) ≡ done (text ++ crlf) []
unfolding one_line has
read_line-crlf text h z k =
    let body = text ++ (b'\r' ∷ []) in
    ap (λ t. one_line (read_line true t)) (sym (append_assoc text (b'\r' ∷ []) newline))
    ∙ ap one_line (
        read_line-whole true body [] (has-append_false b'\n' text (b'\r' ∷ []) h refl)
          (omega (arith, length-append text (b'\r' ∷ []))))
    ∙ ap (λ t. done t [])
        (ap (before 0) (append_assoc text (b'\r' ∷ []) newline)
          ∙ before_all 0 (text ++ crlf) (has-append_false 0 text crlf z refl))

-- ECHO gives back its text.
pub exchange-echo :
    (H : Host) (S : Site) (dir text : Text)
    → IsRequest (bytes "ECHO " ++ text)
    → exchange H S (session dir [] true) (bytes "ECHO " ++ text)
      ≡ next (text ++ crlf) (session dir [] true)
unfolding answer dispatch read_answer same starts_with answered has
exchange-echo H S dir text r =
    exchange-IsRequest H S dir (bytes "ECHO " ++ text) r
    ∙ ap (answered false dir true)
        (read_line-crlf text r.no_newline r.no_nul (omega (arith, r.short)))

-- INFO shows the file.
pub exchange-info :
    (H : Host) (S : Site) (dir text : Text)
    → S.info_buf ≡ some text
    → 0 < length text
    → IsLines text
    → exchange H S (session dir [] true) (bytes "INFO") ≡ next text (session dir [] true)
unfolding answer dispatch read_answer same starts_with answered has
exchange-info H S dir text i l h =
    exchange-IsRequest H S dir (bytes "INFO") (record {
      nonempty = omega arith;
      no_newline = refl;
      no_return = refl;
      no_nul = refl;
      short = omega arith;
    })
    ∙ ap (answered false dir true)
        (ap (read_all true) (info_reply_lem H S text i l) ∙ read_all-IsLines true text h)

-- LIST shows the lines of the directory.
pub exchange-list :
    (H : Host) (S : Site) (dir : Text) (names : List Text)
    → H.opendir (list_path S dir) ≡ some names
    → AreNames names
    → ((path target : Text) → H.readlink path ≡ some target → IsName target)
    → exchange H S (session dir [] true) (bytes "LIST")
      ≡ next (entry_lines H (list_path S dir) names) (session dir [] true)
unfolding answer dispatch read_answer same starts_with answered has listing
exchange-list H S dir names o n t =
    exchange-IsRequest H S dir (bytes "LIST") (record {
      nonempty = omega arith;
      no_newline = refl;
      no_return = refl;
      no_nul = refl;
      short = omega arith;
    })
    ∙ ap (answered false dir true) (
        ap (λ d. read_all true (listing H (list_path S dir) d)) o
        ∙ read_all-IsLines true (entry_lines H (list_path S dir) names)
            (entry_lines-IsLines H (list_path S dir) names n t))

pub exchange-quit :
    (H : Host) (S : Site) (dir : Text)
    → exchange H S (session dir [] true) (bytes "QUIT") ≡ exited (bytes "BYE\r\n")
unfolding answer dispatch read_answer same starts_with answered has one_line read_line line_or fgets
    before contains
exchange-quit H S dir = exchange-IsRequest H S dir (bytes "QUIT") (record {
  nonempty = omega arith;
  no_newline = refl;
  no_return = refl;
  no_nul = refl;
  short = omega arith;
})

pub exchange-change_dir :
    (H : Host) (S : Site) (dir arg : Text)
    → IsRequest (bytes "CD " ++ arg)
    → exchange H S (session dir [] true) (bytes "CD " ++ arg)
      ≡ next crlf (session (change_dir H S dir arg) [] true)
unfolding answer dispatch read_answer same starts_with answered has
exchange-change_dir H S dir arg r =
    exchange-IsRequest H S dir (bytes "CD " ++ arg) r
    ∙ ap (answered false (change_dir H S dir arg) true) (read_line-crlf [] refl refl (omega arith))

pub exchange_unknown :
    (H : Host) (S : Site) (dir cmd : Text)
    → IsRequest cmd
    → starts_with (bytes "ECHO ") cmd ≡ false
    → same cmd (bytes "QUIT") ≡ false
    → same cmd (bytes "INFO") ≡ false
    → starts_with (bytes "CD ") cmd ≡ false
    → same cmd (bytes "LIST") ≡ false
    → exchange H S (session dir [] true) cmd
      ≡ next (bytes "Unknown command\r\n") (session dir [] true)
unfolding answer dispatch read_answer answered has
exchange_unknown H S dir [] r e q i c l = absurd (omega (arith, r.nonempty))
exchange_unknown H S dir (b ∷ bs) r e q i c l =
    exchange-IsRequest H S dir (b ∷ bs) r
    ∙ rw (e, q, i, c, l)
        (ap (answered false dir true)
          (read_line-crlf (bytes "Unknown command") refl refl (omega arith)))
