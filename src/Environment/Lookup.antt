-- ===== src/Environment/Lookup.antt =====
-- `getenv` in an environment that `CreateChildEnv` (lab02/src/parent.c) has built: a name that
-- env.txt lists has there the value that it has in the parent's own environment.
use osi_s.Prelude.{
  ◌≡◌, refl, sym, ap, ap₂, ◌∙◌, subst, inl, inr, Bool, true, false, not, ◌&&◌, ◌||◌, Option, none,
  some, List, [], ◌∷◌, ◌++◌, append_assoc, map, arith, if◌then◌else◌, Bool-cases, length, drop,
  Text, bytes, same, starts_with, has, same_iff, starts_with_self, drop_prefix, same_path,
}
use osi_s.Environment.{
  Environ, equals, find_entry, getenv, setenv, or_empty, entry, child_path, path_entry,
}
use osi_s.Environment.Build.{wanted}

-- No name has an '='.
unfoldable pub no_equals : List Text → Bool
no_equals [] = true
no_equals (n ∷ ns) = not (has b'=' n) && no_equals ns

unfoldable pub mem : Text → List Text → Bool
mem n [] = false
mem n (m ∷ ms) = same n m || mem n ms

starts_with-entry :
    (n m v : Text)
    → has b'=' n ≡ false
    → has b'=' m ≡ false
    → starts_with (n ++ equals) (m ++ (equals ++ v)) ≡ same n m
unfolding starts_with has same
starts_with-entry [] [] v h k = refl
starts_with-entry [] (d ∷ m) v h k = ground arith
starts_with-entry (c ∷ n) [] v h k = ground arith
starts_with-entry (c ∷ n) (d ∷ m) v h k = ground (arith, starts_with-entry n m v)

drop_key : (n v : Text) → drop (length (n ++ equals)) (n ++ (equals ++ v)) ≡ v
drop_key n v =
    ap (drop (length (n ++ equals))) (sym (append_assoc n equals v)) ∙ drop_prefix (n ++ equals) v

-- One entry: its own value to its own name, and no other name's.
find_entry-entry :
    (env : Environ) (n m : Text) (es : Environ)
    → has b'=' n ≡ false
    → has b'=' m ≡ false
    → find_entry (n ++ equals) (entry env m ∷ es)
      ≡ (if same n m then some (or_empty (getenv env n)) else find_entry (n ++ equals) es)
unfolding find_entry entry
find_entry-entry env n m es h k = elim (Bool-cases (same n m)) [
  | inl e ↦
      subst
        (λ (m : Text).
          find_entry (n ++ equals) (entry env m ∷ es)
          ≡ (if same n m then some (or_empty (getenv env n)) else find_entry (n ++ equals) es))
        (sym (same_path n m e)) (own)
  | inr e ↦ rw (starts_with-entry n m (or_empty (getenv env m)) h k, e) refl
]
  where
    own :
        find_entry (n ++ equals) (entry env n ∷ es)
        ≡ (if same n n then some (or_empty (getenv env n)) else find_entry (n ++ equals) es)
    own =
        rw
          (
            starts_with-entry n n (or_empty (getenv env n)) h h,
            (same_iff n n).1 refl,
            drop_key n (or_empty (getenv env n)),
          )
          refl

pub find_entry-map :
    (env : Environ) (n : Text) (ns : List Text) (rest : Environ)
    → has b'=' n ≡ false
    → no_equals ns ≡ true
    → find_entry (n ++ equals) (map (entry env) ns ++ rest)
      ≡ (if mem n ns then some (or_empty (getenv env n)) else find_entry (n ++ equals) rest)
unfolding no_equals mem
find_entry-map env n [] rest h k = refl
find_entry-map env n (m ∷ ns) rest h k =
    find_entry-entry env n m (map (entry env) ns ++ rest) h (ground arith)
    ∙ rw (find_entry-map env n ns rest h (ground arith)) (ground arith)

-- A listed name has one entry in both environments.
entry-mem :
    (env : Environ) (n : Text) (ns : List Text) (rest : Environ)
    → has b'=' n ≡ false
    → no_equals ns ≡ true
    → mem n ns ≡ true
    → entry (map (entry env) ns ++ rest) n ≡ entry env n
unfolding entry getenv or_empty
entry-mem env [] ns rest h k l = refl
entry-mem env (c ∷ cs) ns rest h k l =
    let n = c ∷ cs in
    ap (λ o. n ++ (equals ++ or_empty o))
      (find_entry-map env n ns rest h k
        ∙ ap (λ b. if b then some (or_empty (getenv env n)) else find_entry (n ++ equals) rest) l)

pub map-entry_built :
    (env : Environ) (ms ns : List Text) (rest : Environ)
    → no_equals ms ≡ true
    → no_equals ns ≡ true
    → ((m : Text) → mem m ms ≡ true → mem m ns ≡ true)
    → map (entry (map (entry env) ns ++ rest)) ms ≡ map (entry env) ms
unfolding no_equals mem
map-entry_built env [] ns rest h k l = refl
map-entry_built env (m ∷ ms) ns rest h k l =
    ap₂ ◌∷◌ (entry-mem env m ns rest (ground arith) k (l m (ground (arith, same_iff m m)))) (
      map-entry_built env ms ns rest (ground arith) k
        (λ (x : Text) (e : mem x ms ≡ true). l x (ground arith)))

-- The path that a search of the built environment finds.
pub find_entry-path_entry :
    (path : Option Text) → find_entry (child_path ++ equals) (path_entry path) ≡ path
unfolding find_entry path_entry starts_with
find_entry-path_entry none = refl
find_entry-path_entry (some path) = refl

pub find_entry-wanted :
    (env : Environ) (ns : List Text)
    → no_equals ns ≡ true
    → find_entry (child_path ++ equals) (wanted env ns) ≡ (
        if mem child_path ns
        then some (or_empty (getenv env child_path))
        else getenv env child_path)
unfolding has
find_entry-wanted env ns h =
    find_entry-map env child_path ns (path_entry (getenv env child_path)) refl h
    ∙ ap
        (λ (o : Option Text).
          if mem child_path ns then some (or_empty (getenv env child_path)) else o)
        (find_entry-path_entry (getenv env child_path))

-- `setenv`: the variable's new value, and the old values of others.
find_entry_own :
    (name value : Text) (es : Environ)
    → find_entry (name ++ equals) ((name ++ (equals ++ value)) ∷ es) ≡ some value
unfolding find_entry
find_entry_own name value es =
    rw
      (
        subst (λ (e : Text). starts_with (name ++ equals) e ≡ true) (append_assoc name equals value)
            (starts_with_self (name ++ equals) value),
        drop_key name value,
      )
      refl

find_entry-setenv :
    (env : Environ) (name value : Text)
    → find_entry (name ++ equals) (setenv name value env) ≡ some value
unfolding find_entry setenv
find_entry-setenv [] name value = find_entry_own name value []
find_entry-setenv (e ∷ env) name value = elim (Bool-cases (starts_with (name ++ equals) e)) [
  | inl h ↦ rw h (find_entry_own name value env)
  | inr h ↦ rw (h, h) (find_entry-setenv env name value)
]

starts_with-other :
    (e : Text)
    → starts_with (bytes "HOSTNAME" ++ equals) e ≡ true
    → starts_with (bytes "LC_COLLATE" ++ equals) e ≡ false
unfolding starts_with
starts_with-other [] h = refl
starts_with-other (c ∷ e) h = ground arith

find_entry-setenv_other :
    (env : Environ) (value : Text)
    → find_entry (bytes "LC_COLLATE" ++ equals) (setenv (bytes "HOSTNAME") value env)
      ≡ find_entry (bytes "LC_COLLATE" ++ equals) env
unfolding find_entry setenv starts_with
find_entry-setenv_other [] value = refl
find_entry-setenv_other (e ∷ env) value =
    elim (Bool-cases (starts_with (bytes "HOSTNAME" ++ equals) e)) [
      | inl h ↦ rw (h, starts_with-other e h) refl
      | inr h ↦ rw (h, find_entry-setenv_other env value) refl
    ]

pub getenv-setenv :
    (env : Environ) (value : Text)
    → getenv (setenv (bytes "LC_COLLATE") value env) (bytes "LC_COLLATE") ≡ some value
unfolding getenv
getenv-setenv env value = find_entry-setenv env (bytes "LC_COLLATE") value

pub getenv-setenv_other :
    (env : Environ) (value : Text)
    → getenv (setenv (bytes "HOSTNAME") value env) (bytes "LC_COLLATE")
      ≡ getenv env (bytes "LC_COLLATE")
unfolding getenv
getenv-setenv_other env value = find_entry-setenv_other env value
