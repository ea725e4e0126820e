-- ===== src/Tests/Environment.antt =====
-- The theorems on lab02 at concrete inputs.
use osi_s.Prelude.{
  ◌≡◌, refl, true, some, List, [], ◌∷◌, map, arith, ltb, if◌then◌else◌, length, Text, bytes, same,
  starts_with, has, before, fgets,
}
use osi_s.Environment.{
  Environ, file_lines, entry, line_name, read_lines, built, max_env_vars, overrun, create_child_env,
  getenv, setenv, find_entry, path_entry,
}
use osi_s.Environment.Build.{names, named, wanted, create_child_env-names}
use osi_s.Environment.Lookup.{no_equals}
use osi_s.Environment.Programs.{System, Child, prepare, set_hostname, main, output}
use osi_s.Environment.Runs.{typed, printed_all, main-printed}
use osi_s.Remote.Server.{token}

-- A host that only runs the program './c'.
abbrev system : System
system = record {
  forks = λ n. true;
  access = λ path. same path (bytes "./c");
  execve = λ path. true;
  gethostname = some (bytes "h");
  number = λ n. bytes "00";
}

abbrev environ : Environ
environ = bytes "HOME=/r" ∷ bytes "CHILD_PATH=./c" ∷ []

abbrev env_txt : Text
env_txt = bytes "HOME\nLC_COLLATE\n"

main-printed_example :
    let env = prepare system environ in
    let ns = names (file_lines env_txt) in
    (children : List Child) × (main system environ (some env_txt) (bytes "+ *q&") ≡ some children)
    × (map (output (some env_txt)) children ≡ printed_all system env ns (typed (bytes "+ *q&")) 0)
    × (entry env (bytes "LC_COLLATE") ≡ bytes "LC_COLLATE=C")
unfolding same names named line_name read_lines fgets token before no_equals has prepare
    set_hostname setenv getenv find_entry starts_with path_entry
main-printed_example = main-printed system environ env_txt (bytes "+ *q&") refl refl (omega arith)

create_child_env-names_example : create_child_env environ (some env_txt) ≡ (
    if ltb (length (wanted environ (names (file_lines env_txt)))) max_env_vars
    then built (wanted environ (names (file_lines env_txt)))
    else overrun)
create_child_env-names_example = create_child_env-names environ env_txt
