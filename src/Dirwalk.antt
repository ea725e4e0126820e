-- ===== src/Dirwalk.antt =====
-- lab01/src/dirwalkFunc.c and mainDirwalk.c: the walk over a directory tree with its filters. The
-- tree as `scandir` and `lstat` show it is the input: an entry is a name, what `lstat` says of it,
-- and what lies below. The order of `scandir`, sorted or not, is that of the entries.
pub mod Walk
pub mod Arguments
use osi_s.Prelude.{
  ℕ, zero, suc, ◌+◌, List, [], ◌∷◌, ◌++◌, Bool, true, false, not, ◌&&◌, ◌||◌, Option, none, some,
  ◌==◌, if◌then◌else◌,
}

pub record Options : Type 0 where
  pub show_links : Bool
  pub show_dirs : Bool
  pub show_files : Bool
  pub sort_output : Bool

-- `S_ISLNK`, `S_ISDIR`, `S_ISREG` of `lstat`, anything else, and an `lstat` that fails.
pub data Kind : Type 0 where
  symlink directory regular special lost : Kind

abbrev pub is_symlink : Kind → Bool
is_symlink symlink = true
is_symlink _ = false

abbrev pub is_dir : Kind → Bool
is_dir directory = true
is_dir _ = false

abbrev pub is_file : Kind → Bool
is_file regular = true
is_file _ = false

abbrev pub is_lost : Kind → Bool
is_lost lost = true
is_lost _ = false

-- What `scandir` finds in a directory: nothing more, an entry with what lies below and the rest, or
-- a directory that cannot be read.
pub data Listing : Type 0 where
  end failed : Listing
  entry : List ℕ → Kind → Listing → Listing → Listing

abbrev pub same_name : List ℕ → List ℕ → Bool
same_name [] [] = true
same_name (c ∷ cs) (d ∷ ds) = c == d && same_name cs ds
same_name _ _ = false

abbrev pub dot : List ℕ
dot = b'.' ∷ []

abbrev pub dot_dot : List ℕ
dot_dot = b'.' ∷ b'.' ∷ []

abbrev pub ends_in_slash : List ℕ → Bool
ends_in_slash [] = false
ends_in_slash (c ∷ []) = c == b'/'
ends_in_slash (c ∷ d ∷ cs) = ends_in_slash (d ∷ cs)

-- `full_path`; PATH_MAX is taken to be enough.
unfoldable pub full_path : List ℕ → List ℕ → List ℕ
full_path path name =
    if same_name path dot
    then b'.' ∷ b'/' ∷ name
    else if ends_in_slash path
    then path ++ name
    else path ++ (b'/' ∷ name)

-- The condition under which an entry is printed.
unfoldable pub selected : Options → Bool → Kind → Bool
selected o filter k =
    if filter
    then (o.show_links && is_symlink k)
      || ((o.show_dirs && is_dir k) || (o.show_files && is_file k))
    else true

-- `walk_directory`: the paths that are printed, in order.
unfoldable pub walk_directory : List ℕ → Options → Bool → Listing → List (List ℕ)
walk_directory path o filter end = []
walk_directory path o filter failed = []
walk_directory path o filter (entry name kind below rest) =
    let full = full_path path name in
    let inner = walk_directory full o filter below in
    let others = walk_directory path o filter rest in
    if same_name name dot || same_name name dot_dot
    then others
    else if is_lost kind
    then others
    else (if selected o filter kind then full ∷ [] else [])
      ++ ((if is_dir kind && not (is_symlink kind) then inner else []) ++ others)

-- The settings of `main`: options, whether a type filter is set, and the start directory.
pub record Settings : Type 0 where
  pub options : Options
  pub filter : Bool
  pub path : List ℕ

abbrev pub init : Settings
init = record {
  options = record {
    show_links = false;
    show_dirs = false;
    show_files = false;
    sort_output = false;
  };
  filter = false;
  path = dot;
}

-- One option letter; `none` is the usage message and `exit`.
unfoldable pub letter : ℕ → Settings → Option Settings
letter c s =
    if c == b'l'
    then some (record s { options = record (s.options) { show_links = true }; filter = true })
    else if c == b'd'
    then some (record s { options = record (s.options) { show_dirs = true }; filter = true })
    else if c == b'f'
    then some (record s { options = record (s.options) { show_files = true }; filter = true })
    else if c == b's'
    then some (record s { options = record (s.options) { sort_output = true } })
    else none

abbrev pub and_then : Option Settings → (Settings → Option Settings) → Option Settings
and_then none f = none
and_then (some s) f = f s

unfoldable pub letters : List ℕ → Settings → Option Settings
unfolding letter
letters [] s = some s
letters (c ∷ cs) s = and_then (letter c s) (letters cs)

-- One argument: options after '-', or the start directory.
unfoldable pub argument : List ℕ → Settings → Option Settings
unfolding letters
argument [] s = some (record s { path = [] })
argument (c ∷ cs) s = if c == b'-' then letters cs s else some (record s { path = c ∷ cs })

unfoldable pub arguments : List (List ℕ) → Settings → Option Settings
unfolding argument
arguments [] s = some s
arguments (a ∷ as') s = and_then (argument a s) (arguments as')

-- What `main` prints after reading its arguments.
unfoldable pub output : Settings → Listing → List (List ℕ)
output s tree =
    (if s.options.show_dirs || not s.filter then s.path ∷ [] else [])
    ++ walk_directory s.path s.options s.filter tree
