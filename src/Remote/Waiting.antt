-- ===== src/Remote/Waiting.antt =====
-- The answers that the client waits for in vain (lab08/src/server.c, lab08/src/client.c), and the
-- greeting.
use osi_s.Prelude.{
  ℕ, suc, ◌+◌, ◌<◌, ◌≡◌, refl, sym, ap, ◌∙◌, subst, inl, inr, true, false, none, some, [], ◌∷◌,
  ◌++◌, append-nil, append_assoc, arith, ◌==◌, ==_iff, Bool-cases, length, length-append, Text,
  bytes, same, starts_with, has, before, fgets,
}
use osi_s.Remote.{Host, Site, crlf}
use osi_s.Remote.Server.{
  token, list_path, listing, greeting, dispatch, handle, info_reply, strtok, skip_breaks,
}
use osi_s.Remote.Client.{
  done, stuck, session, waiting, answered, read_answer, served, answer, exchange, collect,
  collected, greet, read_all, read_line, one_line, line_or, show,
}
use osi_s.Remote.Lines.{
  collect-IsLine, IsLine, IsLines, whole, read_line-whole, collect_stuck, collect-IsLines,
}

-- The answers that never end for the client.
pub data IsUnanswered (H : Host) (S : Site) (dir : Text) : Text → Type 0 where
  empty_command : IsUnanswered H S dir []
  no_info : S.info_buf ≡ none → IsUnanswered H S dir (bytes "INFO")
  empty_info : S.info_buf ≡ some [] → IsUnanswered H S dir (bytes "INFO")
  no_dir : H.opendir (list_path S dir) ≡ none → IsUnanswered H S dir (bytes "LIST")

stray_left : (n c : ℕ) → collect (suc (suc n)) true (0 ∷ c ∷ []) ≡ stuck []
unfolding collect collected read_line line_or fgets has same before
stray_left n c = elim (Bool-cases (c == b'\n')) [
  | inl e ↦
      subst (λ d. collect (suc (suc n)) true (0 ∷ d ∷ []) ≡ stuck []) (sym (stray_newline c e)) refl
  | inr e ↦ ground arith
]
  where
    stray_newline : (c : ℕ) → (c == b'\n') ≡ true → c ≡ b'\n'
    stray_newline c e = ground (arith, ==_iff c b'\n')

stray_stuck : (H : Host) → (shown : Text) × (read_all true (info_reply H none) ≡ stuck shown)
unfolding read_all info_reply has
stray_stuck H =
    let text = bytes "(no INFO available)\r\n" in
    (
      text ++ [],
      collect-IsLine 23 true text (0 ∷ H.stray ∷ [])
            (whole (bytes "(no INFO available)\r") refl refl (λ e. cc) (omega arith))
          ∙ ap (show text) (stray_left 21 H.stray),
    )

-- INFO's error answer is a line and two more bytes.
info_stuck :
    (H : Host) (S : Site) (dir : Text)
    → info_reply H S.info_buf ≡ info_reply H none
    → (shown : Text) × (answered false dir true (read_all true (info_reply H S.info_buf))
        ≡ waiting shown)
unfolding answered
info_stuck H S dir e =
    let (shown, q) = stray_stuck H in
    (shown, ap (λ t. answered false dir true (read_all true t)) e ∙ ap (answered false dir true) q)

-- After an empty command, after INFO where the server has no text, and after LIST where it cannot open
-- the directory, the client waits for an answer that does not come.
pub exchange-waiting :
    (H : Host) (S : Site) (dir cmd : Text)
    → IsUnanswered H S dir cmd
    → (shown : Text) × (exchange H S (session dir [] true) cmd ≡ waiting shown)
unfolding exchange served handle strtok skip_breaks token dispatch answer read_answer answered
    one_line read_line line_or fgets before same has starts_with collect collected read_all listing
    info_reply
exchange-waiting H S dir _ empty_command = ([], refl)
exchange-waiting H S dir _ (no_info e) = info_stuck H S dir (ap (info_reply H) e)
exchange-waiting H S dir _ (empty_info e) = info_stuck H S dir (ap (info_reply H) e)
exchange-waiting H S dir _ (no_dir e) = (
  bytes "(cannot open dir)\r\r\n",
  ap (λ d. answered false dir true (read_all true (listing H (list_path S dir) d))) e ∙ refl,
)

welcome : Text
welcome = bytes "Welcome to myserver\r\n"

welcome-IsLine : IsLine welcome
unfolding welcome has
welcome-IsLine = whole (bytes "Welcome to myserver\r") refl refl (λ e. cc) (omega arith)

collect_nul :
    (n : ℕ) (first rest : Text)
    → has b'\n' first ≡ false
    → length first < 1022
    → collect (suc n) true ((0 ∷ first) ++ (b'\n' ∷ rest)) ≡ show [] (collect n true rest)
unfolding collect collected before same has
collect_nul n first rest h k =
    ap (collected (λ t. collect n true t)) (read_line-whole true (0 ∷ first) rest h (omega arith))

greeting-some :
    (info : Text) → 0 < length info → greeting (some info) ≡ welcome ++ (0 ∷ (info ++ crlf))
unfolding greeting welcome
greeting-some [] h = absurd (omega arith)
greeting-some (c ∷ info) h = refl

length_greeting : (t : Text) → suc (length (welcome ++ (0 ∷ t))) ≡ suc (suc (21 + length t))
unfolding welcome
length_greeting t = omega arith

greet_first :
    (info first rest : Text)
    → info ++ crlf ≡ first ++ (b'\n' ∷ rest)
    → 0 < length info
    → has b'\n' first ≡ false
    → length first < 1022
    → (n : ℕ) × (length rest < n)
      × (greet (some info) ≡ show welcome (show [] (collect n true rest)))
unfolding greet read_all
greet_first info first rest e l h k =
    let n = 21 + length (first ++ (b'\n' ∷ rest)) in
    (
      n,
      omega (arith, length-append first (b'\n' ∷ rest)),
      ap (read_all true) (greeting-some info l ∙ ap (λ t. welcome ++ (0 ∷ t)) e)
          ∙ ap (λ m. collect m true (welcome ++ ((0 ∷ first) ++ (b'\n' ∷ rest))))
              (length_greeting (first ++ (b'\n' ∷ rest)))
          ∙ collect-IsLine (suc n) true welcome ((0 ∷ first) ++ (b'\n' ∷ rest)) welcome-IsLine
          ∙ ap (show welcome) (collect_nul n first rest h k),
    )

-- Where the INFO text is a first line of less than 1022 bytes and then lines for the client, each with
-- its newline, the greeting ends with nothing left to read; but the first line is not shown, since the
-- server has sent a NUL before it.
greet-IsLines :
    (first rest : Text)
    → has b'\n' first ≡ false
    → length first < 1022
    → IsLines rest
    → greet (some (first ++ (b'\n' ∷ rest))) ≡ done (bytes "Welcome to myserver\r\n" ++ rest) []
unfolding welcome
greet-IsLines first rest h k r =
    let (n, less, e) =
      greet_first (first ++ (b'\n' ∷ rest)) first (rest ++ crlf)
        (append_assoc first (b'\n' ∷ rest) crlf) (omega (arith, length-append first (b'\n' ∷ rest)))
        h k in
    e
    ∙ ap (λ o. show welcome (show [] o))
        (collect-IsLines n true rest [] r (omega (arith, less, length-append rest crlf)))

-- The greeting never ends for the client where the INFO text is not empty and does not end with a
-- newline: it is, with the "\r\n" that the server adds, a first line of less than 1022 bytes and then
-- lines for the client. The client shows those, but not the first, and waits.
greet_stuck :
    (info first rest : Text)
    → info ++ crlf ≡ first ++ (b'\n' ∷ rest)
    → 0 < length info
    → has b'\n' first ≡ false
    → length first < 1022
    → IsLines rest
    → greet (some info) ≡ stuck (bytes "Welcome to myserver\r\n" ++ rest)
unfolding welcome has
greet_stuck info first rest e l h k r =
    let (n, less, q) = greet_first info first rest e l h k in
    q
    ∙ ap (λ o. show welcome (show [] o))
        (ap (collect n true) (sym (append-nil rest))
          ∙ collect_stuck n rest [] r refl (omega arith) less)

pub greet-none : greet none ≡ stuck (bytes "Welcome to myserver\r\n")
unfolding greet read_all greeting collect collected read_line line_or fgets has same before
greet-none = refl
