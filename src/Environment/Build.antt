-- ===== src/Environment/Build.antt =====
-- What `CreateChildEnv` (lab02/src/parent.c) makes of env.txt: its loops against the list of the
-- names in the file, and the end of its array.
use osi_s.Prelude.{
  ℕ, suc, ◌+◌, ◌-◌, ◌<◌, ◌≡◌, refl, sym, ap, ◌∙◌, true, false, some, List, [], ◌∷◌, ◌++◌, map,
  arith, ltb, if◌then◌else◌, length, take, length-append, length-take, Text, take_all, dec_lt,
}
use osi_s.Environment.{
  Environ, getenv, file_lines, line_name, entry, child_path, max_env_vars, name_entry, create_loop,
  path_entry, overrun, built, create_child_env,
}
use osi_s.Environment.Programs.{print_names}

-- The names that a list of lines has: every line but the empty ones.
unfoldable pub named : Text → List Text
named [] = []
named (c ∷ cs) = (c ∷ cs) ∷ []

unfoldable pub names : List Text → List Text
names [] = []
names (line ∷ lines) = named (line_name line) ++ names lines

name_entry_lem : (env : Environ) (name : Text) → name_entry env name ≡ map (entry env) (named name)
unfolding name_entry named
name_entry_lem env [] = refl
name_entry_lem env (c ∷ cs) = refl

map-append_named :
    (env : Environ) (name : Text) (ns : List Text)
    → map (entry env) (named name ++ ns) ≡ name_entry env name ++ map (entry env) ns
unfolding name_entry named
map-append_named env [] ns = refl
map-append_named env (c ∷ cs) ns = refl

-- The child's loop reads the same names.
pub print_names-names :
    (envp : Environ) (lines : List Text) → print_names envp lines ≡ map (entry envp) (names lines)
unfolding print_names names
print_names-names envp [] = refl
print_names-names envp (line ∷ lines) =
    ap (◌++◌ (name_entry envp (line_name line))) (print_names-names envp lines)
    ∙ sym (map-append_named envp (line_name line) (names lines))

take_room :
    (env : Environ) (name : Text) (count : ℕ) (E : List Text)
    → count < 100
    → name_entry env name ++ take (100 - (count + length (name_entry env name))) E
      ≡ take (100 - count) (name_entry env name ++ E)
unfolding name_entry
take_room env [] count E h = ap (λ n. take n E) (omega arith)
take_room env (c ∷ cs) count E h = rw (room) refl
  where
    room : 100 - count ≡ suc (100 - (count + 1))
    room = omega arith

above : (n : ℕ) → (¬ (n < 100)) → ltb n 100 ≡ false
above n h = ground arith

create_loop-names :
    (env : Environ) (lines : List Text) (count : ℕ)
    → create_loop env lines count ≡ take (100 - count) (map (entry env) (names lines))
unfolding create_loop names
create_loop-names env [] count = sym (take_all (100 - count) [] (omega arith))
create_loop-names env (line ∷ lines) count = elim (dec_lt count 100) [
  | yes h ↦
      rw
        (
          below h,
          create_loop-names env lines (count + length (name_entry env (line_name line))),
          map-append_named env (line_name line) (names lines),
        )
        (take_room env (line_name line) count (map (entry env) (names lines)) h)
  | no h ↦ rw (above count h, none_left h) refl
]
  where
    below : count < 100 → ltb count 100 ≡ true
    below h = ground arith

    none_left : (¬ (count < 100)) → 100 - count ≡ 0
    none_left h = omega arith

-- The whole environment that env.txt asks for.
abbrev pub wanted : Environ → List Text → Environ
wanted env ns = map (entry env) ns ++ path_entry (getenv env child_path)

fits :
    (E P : Environ)
    → (if ltb (length (take 100 E ++ P)) 100 then built (take 100 E ++ P) else overrun)
      ≡ (if ltb (length (E ++ P)) 100 then built (E ++ P) else overrun)
fits E P = elim (dec_lt (length (E ++ P)) 100) [
  | yes h ↦ rw (take_all 100 E (omega (arith, length-append E P))) refl
  | no h ↦ rw (above (length (E ++ P)) h, above (length (take 100 E ++ P)) (cut h)) refl
]
  where
    cut : (¬ (length (E ++ P) < 100)) → ¬ (length (take 100 E ++ P) < 100)
    cut h = omega (arith, length-append E P, length-append (take 100 E) P, length-take 100 E)

-- `CreateChildEnv` builds an entry "NAME=value" for every line of env.txt that is not empty, in
-- order, and one for CHILD_PATH where the parent has it, when these are less than MAX_ENV_VARS; when
-- they are MAX_ENV_VARS or more, it writes behind its array.
pub create_child_env-names :
    (env : Environ) (file : Text)
    → let entries = wanted env (names (file_lines file)) in
      create_child_env env (some file)
      ≡ (if ltb (length entries) max_env_vars then built entries else overrun)
unfolding create_child_env
create_child_env-names env file =
    ap
      (λ (es : Environ).
        let entries = es ++ path_entry (getenv env child_path) in
        if ltb (length entries) max_env_vars then built entries else overrun)
      (create_loop-names env (file_lines file) 0)
    ∙ fits (map (entry env) (names (file_lines file))) (path_entry (getenv env child_path))
