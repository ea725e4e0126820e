-- ===== src/Environment/Runs.antt =====
-- Whole runs of lab02/src/parent.c with the children of lab02/src/child.c.
use osi_s.Prelude.{
  ℕ, ◌+◌, ◌<◌, ◌≡◌, refl, sym, ap, ap₂, ◌∙◌, inl, inr, Bool, true, false, ◌&&◌, Option, none, some,
  List, [], ◌∷◌, ◌++◌, append-nil, map, arith, ltb, ◌==◌, if◌then◌else◌, Bool-cases, length, Text,
  bytes, same, is_space,
}
use osi_s.Environment.{
  Environ, getenv, setenv, file_lines, or_empty, entry, child_path, max_env_vars, path_entry,
  overrun, built, find_child_path,
}
use osi_s.Environment.Build.{names, print_names-names, wanted, create_child_env-names}
use osi_s.Environment.Lookup.{
  no_equals, mem, getenv-setenv, getenv-setenv_other, map-entry_built, find_entry-wanted,
}
use osi_s.Environment.Programs.{
  System, Child, child_name, child_argv, exec_child, start_child, is_mode, commands, set_hostname,
  prepare, with_env, main, from_file, child_main, output,
}

-- What the n-th child of a command prints, as a function of the parent's environment and the names in
-- env.txt: nothing where a call fails or CHILD_PATH is not set.
abbrev pub variables : Environ → List Text → ℕ → List Text
variables env ns mode =
    map (entry env) ns ++ (if mode == b'+' then [] else path_entry (getenv env child_path))

unfoldable pub printed_at : System → Environ → List Text → ℕ → Option Text → Option (List Text)
printed_at S env ns mode none = none
printed_at S env ns mode (some path) =
    if S.access path && S.execve path then some (variables env ns mode) else none

unfoldable pub printed : System → Environ → List Text → ℕ → ℕ → Option (List Text)
printed S env ns mode n =
    if S.forks n then printed_at S env ns mode (getenv env child_path) else none

-- The commands before 'q' that start a child.
unfoldable pub typed : Text → List ℕ
typed [] = []
typed (c ∷ input) =
    let rest = typed input in
    if is_space c then rest else if c == b'q' then [] else if is_mode c then c ∷ rest else rest

unfoldable pub printed_all : System → Environ → List Text → List ℕ → ℕ → List (Option (List Text))
printed_all S env ns [] n = []
printed_all S env ns (mode ∷ modes) n = printed S env ns mode n ∷ printed_all S env ns modes (n + 1)

module _ (S : System) (env : Environ) (file : Text) where
  from_file-wanted :
      no_equals (names (file_lines file)) ≡ true
      → from_file (wanted env (names (file_lines file))) (some file)
        ≡ some (map (entry env) (names (file_lines file)))
  unfolding from_file
  from_file-wanted h =
      let ns = names (file_lines file) in
      ap some (
        print_names-names (wanted env ns) (file_lines file)
        ∙ map-entry_built env ns ns (path_entry (getenv env child_path)) h h (λ m e. e))

  -- The program that runs, in either mode.
  child_main-variables :
      (mode : ℕ) (name : Text)
      → no_equals (names (file_lines file)) ≡ true
      → child_main (child_argv mode name) (wanted env (names (file_lines file))) (some file)
        ≡ some (variables env (names (file_lines file)) mode)
  unfolding child_main child_argv same
  child_main-variables mode name h = elim (Bool-cases (mode == b'+')) [
    | inl e ↦ rw e (
        from_file-wanted h ∙ ap some (sym (append-nil (map (entry env) (names (file_lines file))))))
    | inr e ↦ rw e refl
  ]

  exec_child-output :
      (mode : ℕ) (name : Text) (path : Option Text)
      → no_equals (names (file_lines file)) ≡ true
      → output (some file) (exec_child S mode name (wanted env (names (file_lines file))) path)
        ≡ printed_at S env (names (file_lines file)) mode path
  unfolding exec_child output printed_at
  exec_child-output mode name none h = refl
  exec_child-output mode name (some path) h = elim (Bool-cases (S.access path)) [
    | inr a ↦ rw a refl
    | inl a ↦ elim (Bool-cases (S.execve path)) [
      | inr e ↦ rw (a, e) refl
      | inl e ↦ rw (a, e) (child_main-variables mode name h)
    ]
  ]

  -- `access` refuses the empty path, which only '*' can find.
  printed_at-or_empty :
      (mode : ℕ) (ns : List Text) (listed : Bool) (path : Option Text)
      → S.access [] ≡ false
      → printed_at S env ns mode (if listed then some (or_empty path) else path)
        ≡ printed_at S env ns mode path
  unfolding printed_at or_empty
  printed_at-or_empty mode ns true none a = rw a refl
  printed_at-or_empty mode ns true (some path) a = refl
  printed_at-or_empty mode ns false path a = refl

  -- The three ways to find the program.
  printed_at-find_child_path :
      (mode : ℕ)
      → S.access [] ≡ false
      → no_equals (names (file_lines file)) ≡ true
      → is_mode mode ≡ true
      → printed_at S env
          (names (file_lines file))
          mode
          (find_child_path mode env (wanted env (names (file_lines file))))
        ≡ printed_at S env (names (file_lines file)) mode (getenv env child_path)
  unfolding find_child_path getenv
  printed_at-find_child_path mode a h m = elim (Bool-cases (mode == b'+')) [
    | inl e ↦ rw e refl
    | inr e ↦ elim (Bool-cases (mode == b'*')) [
      | inl f ↦
          let ns = names (file_lines file) in
          rw (e, f, find_entry-wanted env ns h)
            (printed_at-or_empty mode ns (mem child_path ns) (getenv env child_path) a)
      | inr f ↦ rw (e, f, amp e f) refl
    ]
  ]
    where
      amp : (mode == b'+') ≡ false → (mode == b'*') ≡ false → (mode == b'&') ≡ true
      amp e f = ground arith

  start_child-output :
      (mode n : ℕ)
      → S.access [] ≡ false
      → no_equals (names (file_lines file)) ≡ true
      → is_mode mode ≡ true
      → output (some file) (start_child S env (wanted env (names (file_lines file))) mode n)
        ≡ printed S env (names (file_lines file)) mode n
  unfolding start_child printed output
  start_child-output mode n a h m = elim (Bool-cases (S.forks n)) [
    | inr e ↦ rw e refl
    | inl e ↦
        rw e (exec_child-output mode (child_name S n) _ h ∙ printed_at-find_child_path mode a h m)
  ]

  commands-printed :
      (input : Text) (n : ℕ)
      → S.access [] ≡ false
      → no_equals (names (file_lines file)) ≡ true
      → map (output (some file)) (commands S env (wanted env (names (file_lines file))) input n)
        ≡ printed_all S env (names (file_lines file)) (typed input) n
  unfolding commands typed printed_all
  commands-printed [] n a h = refl
  commands-printed (c ∷ input) n a h = elim (Bool-cases (is_space c)) [
    | inl e ↦ rw (e, spaceless e) (commands-printed input n a h)
    | inr e ↦ elim (Bool-cases (c == b'q')) [
      | inl f ↦ rw (e, f) refl
      | inr f ↦ elim (Bool-cases (is_mode c)) [
        | inl g ↦
            rw (e, f, g)
              (ap₂ ◌∷◌ (start_child-output c n a h g) (commands-printed input (n + 1) a h))
        | inr g ↦ rw (e, f, g) (commands-printed input n a h)
      ]
    ]
  ]
    where
      spaceless : is_space c ≡ true → is_mode c ≡ false
      spaceless e = ground arith

entry-prepare :
    (S : System) (environ : Environ)
    → entry (prepare S environ) (bytes "LC_COLLATE") ≡ bytes "LC_COLLATE=C"
unfolding entry prepare or_empty set_hostname
entry-prepare S environ =
    ap (λ (o : Option Text). bytes "LC_COLLATE=" ++ or_empty o)
      (hostname (setenv (bytes "LC_COLLATE") (bytes "C") environ) _ S.gethostname
        ∙ getenv-setenv environ (bytes "C"))
  where
    hostname :
        (env : Environ) (o host : Option Text)
        → getenv (set_hostname env o host) (bytes "LC_COLLATE") ≡ getenv env (bytes "LC_COLLATE")
    hostname env (some value) host = refl
    hostname env none none = refl
    hostname env none (some name) = getenv-setenv_other env name

-- Where env.txt has no '=' and the environment for the children fits, the parent gets through its
-- input, and each child that a command starts prints, whichever of the three commands it is: the
-- variables that env.txt names, with the values that the parent has after its two calls of `setenv`,
-- and in the modes '*' and '&' then CHILD_PATH; nothing where a call of the system fails or the
-- parent has no CHILD_PATH. `access` refuses the empty path. LC_COLLATE, where it is listed, is C.
pub main-printed :
    (S : System) (environ : Environ) (file input : Text)
    → let env = prepare S environ in
      let ns = names (file_lines file) in
      S.access [] ≡ false
      → no_equals ns ≡ true
      → length (wanted env ns) < max_env_vars
      → (children : List Child) × (main S environ (some file) input ≡ some children)
        × (map (output (some file)) children ≡ printed_all S env ns (typed input) 0)
        × (entry env (bytes "LC_COLLATE") ≡ bytes "LC_COLLATE=C")
unfolding main with_env
main-printed S environ file input a h k =
    let env = prepare S environ in
    let ns = names (file_lines file) in
    (
      commands S env (wanted env ns) input 0,
      ap (with_env S env input) (create_child_env-names env file ∙ fits),
      commands-printed S env file input 0 a h,
      entry-prepare S environ,
    )
  where
    fits :
        let entries = wanted (prepare S environ) (names (file_lines file)) in
        (if ltb (length entries) max_env_vars then built entries else overrun) ≡ built entries
    fits = ground arith
