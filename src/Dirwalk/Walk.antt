-- ===== src/Dirwalk/Walk.antt =====
-- What the walk of lab01/src/dirwalkFunc.c prints.
use osi_s.Prelude.{
  ℕ, ◌≡◌, refl, sym, ap, ◌∙◌, List, [], ◌∷◌, ◌++◌, Bool, true, false, ◌||◌, if◌then◌else◌, arith,
  append_assoc, subst, append-nil, Bool-cases, inl, inr, ◌==◌,
}
use osi_s.Dirwalk.{
  Options, Kind, symlink, directory, regular, special, lost, is_dir, is_lost, Listing, end, failed,
  entry, same_name, dot, dot_dot, ends_in_slash, full_path, selected, walk_directory,
}

-- The types that the options -l, -d and -f stand for.
abbrev pub wanted : Options → Kind → Bool
wanted o symlink = o.show_links
wanted o directory = o.show_dirs
wanted o regular = o.show_files
wanted o special = false
wanted o lost = false

abbrev pub printed_kinds : Options → Bool → Kind → Bool
printed_kinds o true kind = wanted o kind
printed_kinds o false kind = true

-- A name that a directory can have: not empty, and no slash at its end.
abbrev pub IsName : List ℕ → Type 0
IsName [] = ⊥
IsName (c ∷ cs) = ends_in_slash (c ∷ cs) ≡ false

abbrev pub HasNames : Listing → Type 0
HasNames end = Unit
HasNames failed = Unit
HasNames (entry name kind below rest) = IsName name × HasNames below × HasNames rest

-- The start directory without a slash at its end.
abbrev pub start_dir : List ℕ → List ℕ
start_dir [] = []
start_dir (c ∷ []) = if c == b'/' then [] else c ∷ []
start_dir (c ∷ d ∷ cs) = c ∷ start_dir (d ∷ cs)

abbrev pub slashed : List (List ℕ) → List ℕ
slashed [] = []
slashed (name ∷ names) = b'/' ∷ (name ++ slashed names)

-- The path of the names from the start directory on, each behind one slash.
abbrev pub spelled : List ℕ → List (List ℕ) → List ℕ
spelled start names = start_dir start ++ slashed names

-- Every entry below a directory, by its names from the start on, with its kind, in the order of
-- `find`: an entry, then what lies below it. Links are not followed.
unfoldable pub everything : List (List ℕ) → Listing → List (List (List ℕ) × Kind)
everything names end = []
everything names failed = []
everything names (entry name kind below rest) =
    let here = names ++ (name ∷ []) in
    let inner = everything here below in
    let others = everything names rest in
    if same_name name dot || same_name name dot_dot || is_lost kind
    then others
    else (here, kind) ∷ ((if is_dir kind then inner else []) ++ others)

unfoldable pub keep : List ℕ → (Kind → Bool) → List (List (List ℕ) × Kind) → List (List ℕ)
keep start test [] = []
keep start test ((names, kind) ∷ found) =
    (if test kind then spelled start names ∷ [] else []) ++ keep start test found

keep-append :
    (start : List ℕ) (test : Kind → Bool) (a b : List (List (List ℕ) × Kind))
    → keep start test (a ++ b) ≡ keep start test a ++ keep start test b
unfolding keep
keep-append start test [] b = refl
keep-append start test ((names, kind) ∷ a) b =
    ap (λ l. (if test kind then spelled start names ∷ [] else []) ++ l) (keep-append start test a b)
    ∙ sym (
        append_assoc (if test kind then spelled start names ∷ [] else []) (keep start test a)
          (keep start test b))

slashed-append :
    (names : List (List ℕ)) (name : List ℕ)
    → slashed (names ++ (name ∷ [])) ≡ slashed names ++ (b'/' ∷ name)
slashed-append [] name = ap (◌∷◌ b'/') (append-nil name)
slashed-append (n ∷ names) name =
    ap (λ l. b'/' ∷ (n ++ l)) (slashed-append names name)
    ∙ ap (◌∷◌ b'/') (sym (append_assoc n (slashed names) (b'/' ∷ name)))

spelled-append :
    (start : List ℕ) (names : List (List ℕ)) (name : List ℕ)
    → spelled start (names ++ (name ∷ [])) ≡ spelled start names ++ (b'/' ∷ name)
spelled-append start names name =
    ap (start_dir start ++◌) (slashed-append names name)
    ∙ sym (append_assoc (start_dir start) (slashed names) (b'/' ∷ name))

start_dir_slash :
    (path : List ℕ) (name : List ℕ)
    → ends_in_slash path ≡ true
    → path ++ name ≡ start_dir path ++ (b'/' ∷ name)
start_dir_slash [] name h = ground arith
start_dir_slash (c ∷ []) name h = ground arith
start_dir_slash (c ∷ d ∷ cs) name h = ap (◌∷◌ c) (start_dir_slash (d ∷ cs) name h)

start_dir_same : (path : List ℕ) → ends_in_slash path ≡ false → start_dir path ≡ path
start_dir_same [] h = refl
start_dir_same (c ∷ []) h = ground arith
start_dir_same (c ∷ d ∷ cs) h = ap (◌∷◌ c) (start_dir_same (d ∷ cs) h)

same_name-dot :
    (path name : List ℕ)
    → same_name path dot ≡ true
    → b'.' ∷ b'/' ∷ name ≡ start_dir path ++ (b'/' ∷ name)
same_name-dot [] name h = ground arith
same_name-dot (c ∷ []) name h =
    subst (λ x. b'.' ∷ b'/' ∷ name ≡ start_dir (x ∷ []) ++ (b'/' ∷ name)) {x = b'.'} (ground arith)
      refl
same_name-dot (c ∷ d ∷ cs) name h = ground arith

full_path_lem : (path name : List ℕ) → full_path path name ≡ start_dir path ++ (b'/' ∷ name)
unfolding full_path
full_path_lem path name = elim (Bool-cases (same_name path dot)) [
  | inl e ↦ rw (e) (same_name-dot path name e)
  | inr e ↦ elim (Bool-cases (ends_in_slash path)) [
    | inl s ↦ rw (e, s) (start_dir_slash path name s)
    | inr s ↦ rw (e, s) (ap (λ l. l ++ (b'/' ∷ name)) (sym (start_dir_same path s)))
  ]
]

ends_in_slash-append :
    (path : List ℕ) (c : ℕ) (cs : List ℕ)
    → ends_in_slash (path ++ (b'/' ∷ c ∷ cs)) ≡ ends_in_slash (c ∷ cs)
ends_in_slash-append [] c cs = refl
ends_in_slash-append (d ∷ []) c cs = refl
ends_in_slash-append (d ∷ e ∷ path) c cs = ends_in_slash-append (e ∷ path) c cs

full_path-spelled :
    (start path name : List ℕ) (names : List (List ℕ))
    → start_dir path ≡ spelled start names
    → full_path path name ≡ spelled start (names ++ (name ∷ []))
full_path-spelled start path name names h =
    full_path_lem path name ∙ ap (λ l. l ++ (b'/' ∷ name)) h ∙ sym (spelled-append start names name)

start_dir-full_path :
    (path name : List ℕ) → IsName name → start_dir (full_path path name) ≡ full_path path name
start_dir-full_path path [] h = absurd h
start_dir-full_path path (c ∷ cs) h = start_dir_same (full_path path (c ∷ cs)) (
    ap ends_in_slash (full_path_lem path (c ∷ cs)) ∙ ends_in_slash-append (start_dir path) c cs ∙ h)

-- The test that the walk makes selects the kinds of the options.
selected_lem :
    (o : Options) (filter : Bool) (k : Kind)
    → is_lost k ≡ false
    → selected o filter k ≡ printed_kinds o filter k
unfolding selected
selected_lem o false k h = refl
selected_lem o true symlink h = ground arith
selected_lem o true directory h = ground arith
selected_lem o true regular h = ground arith
selected_lem o true special h = ground arith
selected_lem o true lost h = ground arith

-- The entry itself, and what the walk prints below it and behind it.
entry-keep :
    (start : List ℕ) (o : Options) (filter : Bool) (path name : List ℕ) (kind : Kind)
    (names : List (List ℕ)) (below rest : Listing)
    → full_path path name ≡ spelled start (names ++ (name ∷ []))
    → walk_directory (full_path path name) o filter below
      ≡ keep start (printed_kinds o filter) (everything (names ++ (name ∷ [])) below)
    → walk_directory path o filter rest
      ≡ keep start (printed_kinds o filter) (everything names rest)
    → walk_directory path o filter (entry name kind below rest)
      ≡ keep start (printed_kinds o filter) (everything names (entry name kind below rest))
unfolding walk_directory everything keep
entry-keep start o filter path name symlink names below rest e f g =
    ground (arith, e, g, selected_lem o filter symlink refl)
entry-keep start o filter path name directory names below rest e f g = ground (
  arith,
  e,
  f,
  g,
  selected_lem o filter directory refl,
  keep-append start (printed_kinds o filter) (everything (names ++ (name ∷ [])) below)
      (everything names rest),
)
entry-keep start o filter path name regular names below rest e f g =
    ground (arith, e, g, selected_lem o filter regular refl)
entry-keep start o filter path name special names below rest e f g =
    ground (arith, e, g, selected_lem o filter special refl)
entry-keep start o filter path name lost names below rest e f g = ground (arith, e, g)

walk-keep :
    (start : List ℕ) (o : Options) (filter : Bool) (path : List ℕ) (names : List (List ℕ))
    (tree : Listing)
    → HasNames tree
    → start_dir path ≡ spelled start names
    → walk_directory path o filter tree
      ≡ keep start (printed_kinds o filter) (everything names tree)
walk-keep start o filter path names end h e = unfold walk_directory everything keep in refl
walk-keep start o filter path names failed h e = unfold walk_directory everything keep in refl
walk-keep start o filter path names (entry name kind below rest) h e =
    let here = full_path-spelled start path name names e in
    entry-keep start o filter path name kind names below rest here
      (walk-keep start o filter (full_path path name) (names ++ (name ∷ [])) below h.1
        (start_dir-full_path path name h.0 ∙ here))
      (walk-keep start o filter path names rest h.2 e)

-- In a tree whose names are not empty and do not end in a slash, the walk prints the paths of
-- the entries, each behind the start directory with one slash between two names, in order: with a
-- type option the links for -l, the directories for -d and the regular files for -f, and without one
-- every entry. Entries that `lstat` cannot read are left out, and links are not followed.
pub walk_directory-keep :
    (path : List ℕ) (o : Options) (filter : Bool) (tree : Listing)
    → HasNames tree
    → walk_directory path o filter tree ≡ keep path (printed_kinds o filter) (everything [] tree)
walk_directory-keep path o filter tree h =
    walk-keep path o filter path [] tree h (sym (append-nil (start_dir path)))
