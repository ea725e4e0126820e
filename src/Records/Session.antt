-- ===== src/Records/Session.antt =====
-- `main` of lab07/src/main.c: its commands, typed one by one or given as arguments.
pub mod Effects
pub mod Arguments
use osi_s.Prelude.{
  ◌^◌, Perm, take-append-drop, length-replicate, ℕ, zero, suc, ◌+◌, ◌-◌, ◌*◌, ◌/◌, ◌%◌, ◌≤◌, ◌<◌,
  min, ◌≡◌, refl, sym, ap, ap₂, ◌∙◌, subst, ◌≢◌, ◌↔◌, ◌⊎◌, inl, inr, Bool, true, false, not, ◌&&◌,
  ◌||◌, Option, none, some, List, [], ◌∷◌, ◌++◌, append-nil, append_assoc, map, reverse, arith, ltb,
  leb, ◌==◌, if◌then◌else◌, ==_iff, Bool-cases, Option-cases, length, take, drop, length-append,
  length-take, length-drop, Text, bytes, same, starts_with, has, before, before_all, has-take,
  take_all, take-append_le, dec_lt, dec_le, fgets, same_iff, starts_with-append, starts_with_self,
  drop_prefix, ℕ_discrete, if_both, take-append, starts_with_split, same_path, has-append,
  fgets-line, fgets_cut, before-append, is_space, is_digit, all_digits, read_digits, scan_number,
  scan_number-append, skip_spaces,
}
use osi_s.Records.{
  ℤ, pos, negsuc, Record, File, Round, Outcome, Result, Prefix, cmd_put, cmd_get, cmd_lst,
  init_file,
}

-- `atoi`
abbrev pub to_ℤ : Option (Bool × ℕ) → ℤ
to_ℤ none = pos 0
to_ℤ (some (false, n)) = pos n
to_ℤ (some (true, zero)) = pos 0
to_ℤ (some (true, suc n)) = negsuc n

unfoldable pub atoi : Text → ℤ
atoi text = to_ℤ (scan_number text)

-- The part of a line that the program looks at, and the words that `strtok` with " " finds in it.
unfoldable pub word : Text → Text
word [] = []
word (c ∷ cs) = if c == b' ' then [] else c ∷ word cs

unfoldable pub skip_blanks : Text → Text
skip_blanks [] = []
skip_blanks (c ∷ cs) = let rest = skip_blanks cs in if c == b' ' then rest else c ∷ cs

unfoldable pub after_word : Text → Text
after_word [] = []
after_word (c ∷ cs) = let rest = after_word cs in if c == b' ' then cs else rest

unfoldable pub strtok : Text → Text × Text
strtok text = let found = skip_blanks text in (word found, after_word found)

-- `toupper` on ASCII, and `strcasecmp(a, b) == 0`.
abbrev pub upper : ℕ → ℕ
upper c = if leb b'a' c && leb c b'z' then c - 32 else c

abbrev pub same_case : Text → Text → Bool
same_case a b = same (map upper a) (map upper b)

-- What a line asks for; [] is NULL.
pub data Command : Type 0 where
  blank lst init quit usage unknown : Command
  get put : ℤ → Command

abbrev pub with_number : (ℤ → Command) → Text → Command
with_number command [] = usage
with_number command (c ∷ cs) = command (atoi (c ∷ cs))

abbrev pub argument : Text → Text
argument rest = (strtok rest).0

unfoldable pub parse_words : Text → Text → Command
parse_words [] rest = blank
parse_words (c ∷ cs) rest =
    let cmd = c ∷ cs in
    if same_case cmd (bytes "LST")
    then lst
    else if same_case cmd (bytes "GET")
    then with_number get (argument rest)
    else if same_case cmd (bytes "PUT")
    then with_number put (argument rest)
    else if same_case cmd (bytes "INIT")
    then init
    else if same_case cmd (bytes "QUIT") || same_case cmd (bytes "EXIT")
    then quit
    else unknown

-- A line as `fgets` leaves it, up to its newline.
unfoldable pub parse_line : Text → Command
parse_line line = let (cmd, rest) = strtok (before b'\n' (before 0 line)) in parse_words cmd rest

-- What a command prints; a file that does not open is `unopened`.
pub data Printed : Type 0 where
  unopened nothing usage_text unknown_text initialised : Printed
  records : List (ℕ × Record) → Printed
  record_read : Option Record → Printed
  put_ended : Outcome → Printed

-- What goes on around a command: whether a lock is granted, and the rounds of `cmd_put`, with what is
-- typed in them and what other processes do to the file.
pub record Around : Type 0 where
  pub granted : Bool
  pub rounds : List Round

-- The data file, if there is one; `text` is what `snprintf` puts into the arrays of `init_file`.
abbrev pub run_get : ℤ → Around → Option File → Printed
run_get rec_no a none = unopened
run_get rec_no a (some file) = record_read (cmd_get rec_no a.granted file).0

abbrev pub run_put : ℤ → Around → Option File → Printed × Option File
run_put rec_no a none = (unopened, none)
run_put rec_no a (some file) =
    let r = cmd_put rec_no a.rounds file in (put_ended r.outcome, some r.file)

abbrev pub run_lst : Option File → Printed
run_lst none = unopened
run_lst (some file) = records (cmd_lst 0 file)

-- QUIT and EXIT end the loop.
abbrev pub goes_on : Command → Bool
goes_on quit = false
goes_on _ = true

-- A command from the arguments: in capitals only, with neither INIT nor a number left out, and with
-- none for a refusal.
abbrev pub parse_arguments : List Text → Option Command
parse_arguments (cmd ∷ []) = if same cmd (bytes "LST") then some lst else none
parse_arguments (cmd ∷ number ∷ []) =
    if same cmd (bytes "LST")
    then some lst
    else if same cmd (bytes "GET")
    then some (get (atoi number))
    else if same cmd (bytes "PUT")
    then some (put (atoi number))
    else none
parse_arguments (cmd ∷ rest) = if same cmd (bytes "LST") then some lst else none
parse_arguments [] = none

-- MAX_CMD_LEN
abbrev pub max_cmd_len : ℕ
max_cmd_len = 128

module _ (text : Prefix → ℕ → List ℕ) where
  unfoldable pub run : Command → Around → Option File → Printed × Option File
  run blank a file = (nothing, file)
  run lst a file = (run_lst file, file)
  run (get rec_no) a file = (run_get rec_no a file, file)
  run (put rec_no) a file = run_put rec_no a file
  run init a file = (initialised, some (init_file text))
  run quit a file = (nothing, file)
  run usage a file = (usage_text, file)
  run unknown a file = (unknown_text, file)

  -- The loop over what the calls of `fgets` read, each with what goes on around it, up to QUIT or the
  -- end. A line of the input that has `max_cmd_len` bytes or more comes in several pieces.
  unfoldable pub interactive : List (Text × Around) → Option File → List Printed × Option File
  interactive [] file = ([], file)
  interactive ((line, a) ∷ lines) file =
      let (said, next) = run (parse_line line) a file in
      let (more, last) = interactive lines next in
      if goes_on (parse_line line) then (said ∷ more, last) else ([], file)

  abbrev pub run_if : Option Command → Around → Option File → Option (Printed × Option File)
  run_if none a file = none
  run_if (some command) a file = some (run command a file)

  -- `main` with arguments behind the program's name.
  unfoldable pub with_arguments : List Text → Around → Option File → Option (Printed × Option File)
  with_arguments args a file = run_if (parse_arguments args) a file
