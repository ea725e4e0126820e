-- ===== src/Remote/Client.antt =====
-- The client (lab08/src/client.c): the greeting's loop in `main`, `interactive_mode` and
-- `process_file_commands`, with the server's answers as they come.
use osi_s.Prelude.{
  ℕ, zero, suc, ◌-◌, Bool, true, false, ◌&&◌, ◌||◌, Option, none, some, List, [], ◌∷◌, ◌++◌, ◌==◌,
  if◌then◌else◌, length, Text, bytes, same, starts_with, has, before, fgets,
}
use osi_s.Remote.{Host, Site, crlf}
use osi_s.Remote.Server.{token, greeting, handle, Turn, turn, maxline}

-- What an `fgets` on the socket comes to: a line with what is left to read, the end of the
-- connection, or that the call waits for bytes that nobody has sent.
pub data Read : Type 0 where
  line : Text → Text → Read
  eof : Read
  wait : Read

-- `fgets` returns with a newline or with a full buffer, else when the connection has ended.
unfoldable pub line_or : Bool → Text × Text → Read
line_or is_open ([], rest) = if is_open then wait else eof
line_or is_open ((c ∷ cs), rest) =
    if has b'\n' (c ∷ cs) || length (c ∷ cs) == maxline - 1
    then line (c ∷ cs) rest
    else if is_open
    then wait
    else line (c ∷ cs) rest

unfoldable pub read_line : Bool → Text → Read
read_line is_open inbox = line_or is_open (fgets (maxline - 1) inbox)

-- How the reading of an answer ends: done with what is left, or waiting for ever. Both have what
-- was shown, each line up to its NUL, as `fputs` writes it.
pub data Outcome : Type 0 where
  done : Text → Text → Outcome
  stuck : Text → Outcome

abbrev pub show : Text → Outcome → Outcome
show text (done shown rest) = done (text ++ shown) rest
show text (stuck shown) = stuck (text ++ shown)

-- `while (fgets(line)) { if (strcmp(line, "\r\n") == 0) break; fputs(line, stdout); }`
unfoldable pub collected : (Text → Outcome) → Read → Outcome
collected more (line text rest) =
    if same (before 0 text) crlf then done [] rest else show (before 0 text) (more rest)
collected more eof = done [] []
collected more wait = stuck []

unfoldable pub collect : ℕ → Bool → Text → Outcome
collect zero is_open inbox = stuck []
collect (suc n) is_open inbox = collected (λ rest. collect n is_open rest) (read_line is_open inbox)

-- Each turn of the loop reads one byte at least.
unfoldable pub read_all : Bool → Text → Outcome
read_all is_open inbox = collect (suc (length inbox)) is_open inbox

-- `if (fgets(recvbuf)) fputs(recvbuf, stdout);`
unfoldable pub one_line : Read → Outcome
one_line (line text rest) = done (before 0 text) rest
one_line eof = done [] []
one_line wait = stuck []

-- `strstr(text, what) != NULL`
unfoldable pub contains : Text → Text → Bool
contains what [] = starts_with what []
contains what (c ∷ cs) = starts_with what (c ∷ cs) || contains what cs

-- A connection as both sides see it: the server's directory, what the client has not read yet, and
-- whether the server still listens.
pub record Session : Type 0 where
  pub curr_dir : Text
  pub inbox : Text
  pub is_open : Bool

abbrev pub session : Text → Text → Bool → Session
session dir unread goes_on = record { curr_dir = dir; inbox = unread; is_open = goes_on }

-- How a command ends: the next one can be given, the client exits, or it waits for ever.
pub data Result : Type 0 where
  next : Text → Session → Result
  exited : Text → Result
  waiting : Text → Result

unfoldable pub answered : Bool → Text → Bool → Outcome → Result
answered quits curr_dir is_open (stuck shown) = waiting shown
answered quits curr_dir is_open (done shown rest) =
    if quits && contains (bytes "BYE") shown
    then exited shown
    else next shown (session curr_dir rest is_open)

-- How the answer to `cmd` is read.
unfoldable pub read_answer : Text → Bool → Text → Outcome
read_answer cmd is_open inbox =
    if same cmd (bytes "QUIT")
    then one_line (read_line is_open inbox)
    else if same cmd (bytes "INFO") || same cmd (bytes "LIST")
    then read_all is_open inbox
    else one_line (read_line is_open inbox)

-- The server's turn on what the client sent; it takes no more once it has closed the connection.
unfoldable pub served : Host → Site → Session → Text → Turn
served H S s request = if s.is_open then handle H S s.curr_dir request else turn [] s.curr_dir false

unfoldable pub answer : Text → Session → Turn → Result
answer cmd s t =
    answered (same cmd (bytes "QUIT")) t.curr_dir t.is_open
      (read_answer cmd t.is_open (s.inbox ++ t.sent))

-- One command: sent with "\r\n", answered by the server, and read back.
unfoldable pub exchange : Host → Site → Session → Text → Result
exchange H S s cmd = answer cmd s (served H S s (cmd ++ crlf))

-- `sendbuf[strcspn(sendbuf, "\r\n")] = '\0'` on a line of input.
unfoldable pub command : Text → Text
command input = token (before 0 input)

abbrev pub shown_first : Text → Result → Result
shown_first text (next shown s) = next (text ++ shown) s
shown_first text (exited shown) = exited (text ++ shown)
shown_first text (waiting shown) = waiting (text ++ shown)

-- What follows a command, where there is a next one.
unfoldable pub and_then : Result → (Session → Result) → Result
and_then (next shown s) f = shown_first shown (f s)
and_then (exited shown) f = exited shown
and_then (waiting shown) f = waiting shown

-- One line of a file of commands: an empty command is not sent.
unfoldable pub process_line : Host → Site → Text → Session → Result
process_line H S [] s = next [] s
process_line H S (c ∷ cs) s = exchange H S s (c ∷ cs)

-- `process_file_commands` on the lines of an open file.
unfoldable pub process_lines : Host → Site → List Text → Session → Result
process_lines H S [] s = next [] s
process_lines H S (input ∷ inputs) s =
    and_then (process_line H S (command input) s) (λ t. process_lines H S inputs t)

-- `process_file_commands`, with the file's lines as `fgets` reads them, if it opens.
unfoldable pub process_file_commands : Host → Site → Option (List Text) → Session → Result
process_file_commands H S none s = next [] s
process_file_commands H S (some inputs) s = process_lines H S inputs s

-- A turn of `interactive_mode` on one command: a name after '@' is a file of commands.
unfoldable pub interactive : (Text → Option (List Text)) → Host → Site → Text → Session → Result
interactive open_file H S [] s = exchange H S s []
interactive open_file H S (c ∷ cs) s =
    if c == b'@' then process_file_commands H S (open_file cs) s else exchange H S s (c ∷ cs)

-- `interactive_mode` on the lines of the standard input.
unfoldable pub interactive_mode :
    (Text → Option (List Text)) → Host → Site → List Text → Session → Result
interactive_mode open_file H S [] s = next [] s
interactive_mode open_file H S (input ∷ inputs) s =
    and_then (interactive open_file H S (command input) s)
      (λ t. interactive_mode open_file H S inputs t)

-- The loop of `main` that reads the greeting.
unfoldable pub greet : Option Text → Outcome
greet info = read_all true (greeting info)
