-- ===== src/Environment/Programs.antt =====
-- The two programs of lab02: `main` and `StartChild` of parent.c, and child.c.
use osi_s.Prelude.{
  ℕ, ◌+◌, Bool, ◌||◌, Option, none, some, List, [], ◌∷◌, ◌++◌, ◌==◌, if◌then◌else◌, take, Text,
  bytes, same, is_space,
}
use osi_s.Remote.Server.{fit}
use osi_s.Environment.{
  Environ, getenv, setenv, file_lines, line_name, name_entry, ChildEnv, exited, overrun, built,
  create_child_env, find_child_path,
}

-- The system's answers: whether the n-th `fork` succeeds, `access` with X_OK, `execve`, the host's
-- name where the system gives one, and what the library prints for "%02d".
pub record System : Type 0 where
  pub forks : ℕ → Bool
  pub access : Text → Bool
  pub execve : Text → Bool
  pub gethostname : Option Text
  pub number : ℕ → Text

-- A child's end before its program runs, or the program with what `execve` hands it: its path, argv
-- and envp.
pub data Child : Type 0 where
  unforked pathless inaccessible unexecuted : Child
  runs : Text → List Text → Environ → Child

-- CHILD_NAME_FORMAT into an array of 16 bytes.
unfoldable pub child_name : System → ℕ → Text
child_name S n = fit 16 (bytes "child_" ++ S.number n)

unfoldable pub child_argv : ℕ → Text → List Text
child_argv mode name = if mode == b'+' then name ∷ bytes "env" ∷ [] else name ∷ []

-- The new process up to the child's program.
unfoldable pub exec_child : System → ℕ → Text → Environ → Option Text → Child
exec_child S mode name child_env none = pathless
exec_child S mode name child_env (some path) =
    if S.access path
    then (if S.execve path then runs path (child_argv mode name) child_env else unexecuted)
    else inaccessible

-- `StartChild`; `child_count` has been raised before `fork`.
unfoldable pub start_child : System → Environ → Environ → ℕ → ℕ → Child
start_child S env child_env mode child_count =
    if S.forks child_count
    then exec_child S mode (child_name S child_count) child_env (find_child_path mode env child_env)
    else unforked

abbrev pub is_mode : ℕ → Bool
is_mode c = c == b'+' || (c == b'*' || c == b'&')

-- The loop of `main` on what is typed: the children of the commands, numbered from `child_count`.
unfoldable pub commands : System → Environ → Environ → Text → ℕ → List Child
commands S env child_env [] child_count = []
commands S env child_env (c ∷ input) child_count =
    let rest =
      commands S env child_env input (if is_mode c then child_count + 1 else child_count) in
    if is_space c
    then rest
    else if c == b'q'
    then []
    else if is_mode c
    then start_child S env child_env c child_count ∷ rest
    else rest

-- The environment after the calls of `setenv` in `main`.
unfoldable pub set_hostname : Environ → Option Text → Option Text → Environ
set_hostname env (some value) gethostname = env
set_hostname env none none = env
set_hostname env none (some name) = setenv (bytes "HOSTNAME") name env

unfoldable pub prepare : System → Environ → Environ
prepare S env =
    let env' = setenv (bytes "LC_COLLATE") (bytes "C") env in
    set_hostname env' (getenv env' (bytes "HOSTNAME")) S.gethostname

-- `PrintEnvSorted`, where `qsort` is the library's on the order of `strcmp`.
unfoldable pub print_env_sorted : (List Text → List Text) → Environ → List Text
print_env_sorted qsort env = qsort (take 100 env)

-- `main` of parent.c from a process's environment, env.txt and the input: its children, or none where
-- it ends in `CreateChildEnv`.
unfoldable pub with_env : System → Environ → Text → ChildEnv → Option (List Child)
with_env S env input exited = none
with_env S env input overrun = none
with_env S env input (built child_env) = some (commands S env child_env input 0)

unfoldable pub main : System → Environ → Option Text → Text → Option (List Child)
main S environ file input =
    let env = prepare S environ in with_env S env input (create_child_env env file)

-- The loop of child.c over the lines of env.txt.
unfoldable pub print_names : Environ → List Text → List Text
print_names envp [] = []
print_names envp (line ∷ lines) = name_entry envp (line_name line) ++ print_names envp lines

-- The variables that child.c prints; none where it finds no env.txt.
unfoldable pub from_file : Environ → Option Text → Option (List Text)
from_file envp none = none
from_file envp (some file) = some (print_names envp (file_lines file))

unfoldable pub child_main : List Text → Environ → Option Text → Option (List Text)
child_main (name ∷ mode ∷ rest) envp file =
    if same mode (bytes "env") then from_file envp file else some envp
child_main argv envp file = some envp

-- What a child prints, if its program runs.
unfoldable pub output : Option Text → Child → Option (List Text)
output file (runs path argv envp) = child_main argv envp file
output file child = none
