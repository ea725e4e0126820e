-- ===== src/Remote/Server.antt =====
-- The server's side of one connection (lab08/src/server.c, handle_client): the answer to what one
-- `recv` gives, and the directory that the connection stands in.
use osi_s.Prelude.{
  ℕ, ◌-◌, Bool, true, false, ◌||◌, Option, none, some, List, [], ◌∷◌, ◌++◌, ◌==◌, if◌then◌else◌,
  length, take, drop, Text, bytes, same, starts_with, before,
}
use osi_s.Remote.{Host, Kind, directory, link, other, Site, crlf}

-- A byte of the delimiters "\r\n".
abbrev pub is_break : ℕ → Bool
is_break c = c == b'\r' || c == b'\n'

-- `strcspn(text, "\r\n")`: what stands before the first delimiter.
unfoldable pub token : Text → Text
token [] = []
token (c ∷ cs) = if is_break c then [] else c ∷ token cs

unfoldable pub skip_breaks : Text → Text
skip_breaks [] = []
skip_breaks (c ∷ cs) = let rest = skip_breaks cs in if is_break c then rest else c ∷ cs

-- `strtok(buffer, "\r\n")` on what a `recv` gave, with [] for NULL.
unfoldable pub strtok : Text → Text
strtok buffer = token (skip_breaks (before 0 buffer))

-- What `snprintf` leaves in an array of `size` bytes.
unfoldable pub fit : ℕ → Text → Text
fit size text = take (size - 1) text

-- `PATH_MAX`
abbrev pub path_max : ℕ
path_max = 4096

-- `MAXLINE`
abbrev pub maxline : ℕ
maxline = 1024

abbrev pub slash : Text
slash = b'/' ∷ []

-- The path that LIST opens.
unfoldable pub list_path : Site → Text → Text
list_path S curr_dir = fit path_max (S.root_dir ++ slash ++ curr_dir)

-- The path that CD resolves.
unfoldable pub cd_path : Site → Text → Text → Text
cd_path S curr_dir arg =
    if starts_with slash arg
    then fit path_max (S.root_dir ++ slash ++ arg)
    else fit path_max (S.root_dir ++ slash ++ curr_dir ++ slash ++ arg)

unfoldable pub skip_slash : Text → Text
skip_slash [] = []
skip_slash (c ∷ cs) = if c == b'/' then cs else c ∷ cs

-- The new directory after `realpath`: the old one when it fails or leaves the root.
unfoldable pub resolved : Site → Text → Option Text → Text
resolved S curr_dir none = curr_dir
resolved S curr_dir (some real) =
    if starts_with S.root_dir real then skip_slash (drop (length S.root_dir) real) else curr_dir

unfoldable pub change_dir : Host → Site → Text → Text → Text
change_dir H S curr_dir arg = resolved S curr_dir (H.realpath (cd_path S curr_dir arg))

-- The line of a link whose target `readlink` gave.
unfoldable pub link_line : Host → Text → Text → Option Text → Text
link_line H dirpath name none = []
link_line H dirpath name (some found) =
    let target = fit path_max found in
    if H.is_regular (fit path_max (dirpath ++ slash ++ target))
    then fit maxline (name ++ bytes " --> " ++ target ++ crlf)
    else fit maxline (name ++ bytes " -->> " ++ target ++ crlf)

-- The line of a file whose kind `lstat` gave; nothing is sent where it failed.
unfoldable pub kind_line : Host → Text → Text → Option Kind → Text
kind_line H dirpath name none = []
kind_line H dirpath name (some directory) = fit maxline (name ++ slash ++ crlf)
kind_line H dirpath name (some link) =
    link_line H dirpath name (H.readlink (fit path_max (dirpath ++ slash ++ name)))
kind_line H dirpath name (some other) = fit maxline (name ++ crlf)

unfoldable pub entry_line : Host → Text → Text → Text
entry_line H dirpath name =
    if same name (bytes ".")
    then []
    else kind_line H dirpath name (H.lstat (fit path_max (dirpath ++ slash ++ name)))

unfoldable pub entry_lines : Host → Text → List Text → Text
entry_lines H dirpath [] = []
entry_lines H dirpath (name ∷ names) = entry_line H dirpath name ++ entry_lines H dirpath names

-- LIST. The error's text is sent without its last byte, the newline.
unfoldable pub listing : Host → Text → Option (List Text) → Text
listing H dirpath none = bytes "(cannot open dir)\r" ++ crlf
listing H dirpath (some names) = entry_lines H dirpath names ++ crlf

-- INFO. The error's text is sent with its NUL and the byte that follows it in memory.
unfoldable pub info_reply : Host → Option Text → Text
info_reply H (some (c ∷ info)) = (c ∷ info) ++ crlf
info_reply H _ = bytes "(no INFO available)\r\n" ++ (0 ∷ H.stray ∷ [])

-- What the server sends when a client has connected: 22 bytes, of which the last is the NUL.
unfoldable pub greeting : Option Text → Text
greeting (some (c ∷ info)) = bytes "Welcome to myserver\r\n" ++ (0 ∷ []) ++ (c ∷ info) ++ crlf
greeting _ = bytes "Welcome to myserver\r\n" ++ (0 ∷ [])

-- What one turn of the loop sends, the directory it leaves, and whether the loop goes on.
pub record Turn : Type 0 where
  pub sent : Text
  pub curr_dir : Text
  pub is_open : Bool

abbrev pub turn : Text → Text → Bool → Turn
turn text dir goes_on = record { sent = text; curr_dir = dir; is_open = goes_on }

unfoldable pub dispatch : Host → Site → Text → Text → Turn
dispatch H S curr_dir [] = turn [] curr_dir true
dispatch H S curr_dir (c ∷ cs) =
    let cmd = c ∷ cs in
    if starts_with (bytes "ECHO ") cmd
    then turn (drop 5 cmd ++ crlf) curr_dir true
    else if same cmd (bytes "QUIT")
    then turn (bytes "BYE\r\n" ++ (0 ∷ [])) curr_dir false
    else if same cmd (bytes "INFO")
    then turn (info_reply H S.info_buf) curr_dir true
    else if starts_with (bytes "CD ") cmd
    then turn crlf (change_dir H S curr_dir (drop 3 cmd)) true
    else if same cmd (bytes "LIST")
    then turn (listing H (list_path S curr_dir) (H.opendir (list_path S curr_dir))) curr_dir true
    else turn (bytes "Unknown command\r\n") curr_dir true

-- One turn of the loop, on what `recv` gave.
unfoldable pub handle : Host → Site → Text → Text → Turn
handle H S curr_dir buffer = dispatch H S curr_dir (strtok buffer)

-- The directory after a list of `recv`s, up to the one that closes the connection.
unfoldable pub serve : Host → Site → Text → List Text → Text × Text
serve H S curr_dir [] = ([], curr_dir)
serve H S curr_dir (buffer ∷ buffers) =
    let t = handle H S curr_dir buffer in
    let (sent, last) = serve H S t.curr_dir buffers in
    if t.is_open then (t.sent ++ sent, last) else (t.sent, t.curr_dir)
