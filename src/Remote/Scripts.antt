-- ===== src/Remote/Scripts.antt =====
-- Scripts of commands (lab08/src/client.c, process_file_commands): where the server can answer in
-- full, the client comes to the end of any script; and the answers that it waits for in vain.
use osi_s.Prelude.{
  ◌<◌, ◌≡◌, refl, sym, subst, inl, inr, true, false, some, List, [], ◌∷◌, ◌++◌, arith, Bool-cases,
  length, drop, Text, bytes, same, starts_with, starts_with_split, same_path,
}
use osi_s.Remote.{Host, Site}
use osi_s.Remote.Server.{list_path, change_dir}
use osi_s.Remote.Client.{
  Session, session, Result, next, exited, exchange, command, shown_first, and_then, process_line,
  process_lines,
}
use osi_s.Remote.Listing.{IsName, AreNames}
use osi_s.Remote.Lines.{IsLines}
use osi_s.Remote.Session.{
  IsRequest, exchange-echo, exchange-info, exchange-list, exchange-quit, exchange-change_dir,
  exchange_unknown,
}

-- The directories that CDs lead to.
pub data IsReached (H : Host) (S : Site) : Text → Type 0 where
  start : IsReached H S []
  changed : (dir arg : Text) → IsReached H S dir → IsReached H S (change_dir H S dir arg)

-- The server has an INFO text, of lines for the client, and can open the directories that CDs lead
-- to.
pub record IsServing (H : Host) (S : Site) : Type 0 where
  pub info : Text
  pub info_buf : S.info_buf ≡ some info
  pub nonempty : 0 < length info
  pub info-IsLines : IsLines info
  pub names : Text → List Text
  pub opendir : (dir : Text) → IsReached H S dir → H.opendir (list_path S dir) ≡ some (names dir)
  pub names-AreNames : (dir : Text) → AreNames (names dir)
  pub target-IsName : (path target : Text) → H.readlink path ≡ some target → IsName target

-- The client can give its next command, with nothing left to read, or it has exited.
pub data IsInSync (H : Host) (S : Site) : Result → Type 0 where
  ready : (shown dir : Text) → IsReached H S dir → IsInSync H S (next shown (session dir [] true))
  over : (shown : Text) → IsInSync H S (exited shown)

-- The six answers of the server.
data CommandCase : Text → Type 0 where
  echo : (text : Text) → CommandCase (bytes "ECHO " ++ text)
  quit : CommandCase (bytes "QUIT")
  info : CommandCase (bytes "INFO")
  cd : (arg : Text) → CommandCase (bytes "CD " ++ arg)
  list : CommandCase (bytes "LIST")
  unknown :
      (cmd : Text)
      → starts_with (bytes "ECHO ") cmd ≡ false
      → same cmd (bytes "QUIT") ≡ false
      → same cmd (bytes "INFO") ≡ false
      → starts_with (bytes "CD ") cmd ≡ false
      → same cmd (bytes "LIST") ≡ false
      → CommandCase cmd

command-cases : (cmd : Text) → CommandCase cmd
command-cases cmd = elim (Bool-cases (starts_with (bytes "ECHO ") cmd)) [
  | inl e ↦ subst CommandCase (starts_with_split (bytes "ECHO ") cmd e) (echo (drop 5 cmd))
  | inr e ↦ elim (Bool-cases (same cmd (bytes "QUIT"))) [
    | inl q ↦ subst CommandCase (same_path cmd (bytes "QUIT") q) quit
    | inr q ↦ elim (Bool-cases (same cmd (bytes "INFO"))) [
      | inl i ↦ subst CommandCase (same_path cmd (bytes "INFO") i) info
      | inr i ↦ elim (Bool-cases (starts_with (bytes "CD ") cmd)) [
        | inl c ↦ subst CommandCase (starts_with_split (bytes "CD ") cmd c) (cd (drop 3 cmd))
        | inr c ↦ elim (Bool-cases (same cmd (bytes "LIST"))) [
          | inl l ↦ subst CommandCase (same_path cmd (bytes "LIST") l) list
          | inr l ↦ unknown cmd e q i c l
        ]
      ]
    ]
  ]
]

-- Whatever the command, the client has read all of the answer.
pub exchange-IsInSync :
    (H : Host) (S : Site) (dir cmd : Text)
    → IsServing H S
    → IsReached H S dir
    → IsRequest cmd
    → IsInSync H S (exchange H S (session dir [] true) cmd)
exchange-IsInSync H S dir cmd w p r = in_sync (command-cases cmd) r
  where
    in_sync :
        {cmd : Text}
        → CommandCase cmd
        → IsRequest cmd
        → IsInSync H S (exchange H S (session dir [] true) cmd)
    in_sync (echo text) r = subst (IsInSync H S) (sym (exchange-echo H S dir text r)) (ready _ _ p)
    in_sync quit r = subst (IsInSync H S) (sym (exchange-quit H S dir)) (over _)
    in_sync info r =
        subst (IsInSync H S)
          (sym (exchange-info H S dir w.info w.info_buf w.nonempty w.info-IsLines)) (ready _ _ p)
    in_sync (cd arg) r =
        subst (IsInSync H S) (sym (exchange-change_dir H S dir arg r))
          (ready _ _ (changed dir arg p))
    in_sync list r =
        subst (IsInSync H S)
          (sym (
            exchange-list H S dir (w.names dir) (w.opendir dir p) (w.names-AreNames dir)
              w.target-IsName))
          (ready _ _ p)
    in_sync (unknown cmd e q i c l) r =
        subst (IsInSync H S) (sym (exchange_unknown H S dir cmd r e q i c l)) (ready _ _ p)

-- The commands of a script's lines: each is empty or arrives whole.
pub data IsScript : List Text → Type 0 where
  end_of_file : IsScript []
  skipped :
      (input : Text) (inputs : List Text)
      → command input ≡ []
      → IsScript inputs
      → IsScript (input ∷ inputs)
  given :
      (input : Text) (inputs : List Text)
      → IsRequest (command input)
      → IsScript inputs
      → IsScript (input ∷ inputs)

process_line-IsRequest :
    (H : Host) (S : Site) (cmd : Text) (s : Session)
    → IsRequest cmd
    → process_line H S cmd s ≡ exchange H S s cmd
unfolding process_line
process_line-IsRequest H S [] s r = absurd (omega (arith, r.nonempty))
process_line-IsRequest H S (c ∷ cs) s r = refl

shown_first-IsInSync :
    (H : Host) (S : Site) (text : Text) (r : Result)
    → IsInSync H S r
    → IsInSync H S (shown_first text r)
shown_first-IsInSync H S text _ (ready shown dir p) = ready (text ++ shown) dir p
shown_first-IsInSync H S text _ (over shown) = over (text ++ shown)

and_then-IsInSync :
    (H : Host) (S : Site) (r : Result) (f : Session → Result)
    → IsInSync H S r
    → ((dir : Text) → IsReached H S dir → IsInSync H S (f (session dir [] true)))
    → IsInSync H S (and_then r f)
unfolding and_then
and_then-IsInSync H S _ f (ready shown dir p) h =
    shown_first-IsInSync H S shown (f (session dir [] true)) (h dir p)
and_then-IsInSync H S _ f (over shown) h = over shown

-- From a connection with nothing left to read, a script is processed to its end, or to its QUIT, and
-- the client never waits for an answer that does not come: where each command of the script is empty
-- or fits into one `recv`, the server has an INFO text of lines, and it can open each directory that
-- CDs lead to, with names and link targets that are not empty and have no newline and no NUL.
pub process_lines-IsInSync :
    (H : Host) (S : Site) (dir : Text) (inputs : List Text)
    → IsServing H S
    → IsReached H S dir
    → IsScript inputs
    → IsInSync H S (process_lines H S inputs (session dir [] true))
unfolding process_lines process_line and_then
process_lines-IsInSync H S dir [] w p h = ready [] dir p
process_lines-IsInSync H S dir _ w p (skipped input inputs e h) = rw (e) (
    shown_first-IsInSync H S [] (process_lines H S inputs (session dir [] true))
      (process_lines-IsInSync H S dir inputs w p h))
process_lines-IsInSync H S dir _ w p (given input inputs r h) =
    rw (process_line-IsRequest H S (command input) (session dir [] true) r) (
      and_then-IsInSync H S (exchange H S (session dir [] true) (command input))
        (λ t. process_lines H S inputs t) (exchange-IsInSync H S dir (command input) w p r)
        (λ d q. process_lines-IsInSync H S d inputs w q h))
