-- ===== src/Environment.antt =====
-- lab02/src/parent.c and child.c: environments as lists of "NAME=value" texts, and how the parent
-- builds one for its children from the names in env.txt.
pub mod Programs
pub mod Build
pub mod Lookup
pub mod Runs
pub mod Files
use osi_s.Prelude.{
  ◌^◌, Perm, take-append-drop, length-replicate, ℕ, zero, suc, ◌+◌, ◌-◌, ◌*◌, ◌/◌, ◌%◌, ◌≤◌, ◌<◌,
  min, ◌≡◌, refl, sym, ap, ap₂, ◌∙◌, subst, ◌≢◌, ◌↔◌, ◌⊎◌, inl, inr, Bool, true, false, not, ◌&&◌,
  ◌||◌, Option, none, some, List, [], ◌∷◌, ◌++◌, append-nil, append_assoc, map, reverse, arith, ltb,
  leb, ◌==◌, if◌then◌else◌, ==_iff, Bool-cases, Option-cases, length, take, drop, length-append,
  length-take, length-drop, Text, bytes, same, starts_with, has, before, before_all, has-take,
  take_all, take-append_le, dec_lt, dec_le, fgets, same_iff, starts_with-append, starts_with_self,
  drop_prefix, ℕ_discrete, if_both, take-append, starts_with_split, same_path, has-append,
  fgets-line, fgets_cut, before-append,
}
use osi_s.Remote.Server.{token}

-- `environ`, without the NULL at its end.
abbrev pub Environ : Type 0
Environ = List Text

abbrev pub equals : Text
equals = b'=' ∷ []

-- The first entry that starts with the key, from behind it: the loops of `FindChildPath` over
-- `child_env` and `environ`.
unfoldable pub find_entry : Text → Environ → Option Text
find_entry key [] = none
find_entry key (e ∷ es) =
    let rest = find_entry key es in if starts_with key e then some (drop (length key) e) else rest

-- The library's `getenv`.
unfoldable pub getenv : Environ → Text → Option Text
getenv env [] = none
getenv env (c ∷ cs) = find_entry ((c ∷ cs) ++ equals) env

-- The library's `setenv` with overwriting: in place, or behind all others.
unfoldable pub setenv : Text → Text → Environ → Environ
setenv name value [] = (name ++ (equals ++ value)) ∷ []
setenv name value (e ∷ es) =
    let rest = setenv name value es in
    if starts_with (name ++ equals) e then (name ++ (equals ++ value)) ∷ es else e ∷ rest

-- What the calls of `fgets` with room for 255 bytes read, up to the end of the file.
unfoldable pub read_lines : ℕ → Text → List Text
read_lines zero file = []
read_lines (suc n) [] = []
read_lines (suc n) (c ∷ cs) = let (line, rest) = fgets 255 (c ∷ cs) in line ∷ read_lines n rest

-- A read is at least a byte, so there are no more than the file has bytes.
abbrev pub file_lines : Text → List Text
file_lines file = read_lines (length file) file

-- `line[strcspn(line, "\r\n")] = '\0'`, and the text that `line` is then.
unfoldable pub line_name : Text → Text
line_name line = token (before 0 line)

-- `value ? value : ""`
unfoldable pub or_empty : Option Text → Text
or_empty none = []
or_empty (some value) = value

-- "%s=%s"
unfoldable pub entry : Environ → Text → Text
entry env name = name ++ (equals ++ or_empty (getenv env name))

abbrev pub child_path : Text
child_path = bytes "CHILD_PATH"

-- `MAX_ENV_VARS`
abbrev pub max_env_vars : ℕ
max_env_vars = 100

-- The loop of `CreateChildEnv` from where `count` entries are written.
unfoldable pub name_entry : Environ → Text → List Text
name_entry env [] = []
name_entry env (c ∷ cs) = entry env (c ∷ cs) ∷ []

unfoldable pub create_loop : Environ → List Text → ℕ → List Text
create_loop env [] count = []
create_loop env (line ∷ lines) count =
    let written = name_entry env (line_name line) in
    let rest = create_loop env lines (count + length written) in
    if ltb count max_env_vars then written ++ rest else []

-- The entry that is written after the loop where the parent has CHILD_PATH.
unfoldable pub path_entry : Option Text → List Text
path_entry none = []
path_entry (some path) = (child_path ++ (equals ++ path)) ∷ []

-- How `CreateChildEnv` ends: `exit` without env.txt, a write behind the array `env_entries`, or the
-- new environment.
pub data ChildEnv : Type 0 where
  exited overrun : ChildEnv
  built : Environ → ChildEnv

-- The entries and the NULL behind them go into an array of `MAX_ENV_VARS`.
unfoldable pub create_child_env : Environ → Option Text → ChildEnv
create_child_env env none = exited
create_child_env env (some file) =
    let entries = create_loop env (file_lines file) 0 ++ path_entry (getenv env child_path) in
    if ltb (length entries) max_env_vars then built entries else overrun

-- `FindChildPath`
unfoldable pub find_child_path : ℕ → Environ → Environ → Option Text
find_child_path mode env child_env =
    if mode == b'+'
    then getenv env child_path
    else if mode == b'*'
    then find_entry (child_path ++ equals) child_env
    else if mode == b'&'
    then find_entry (child_path ++ equals) env
    else none
