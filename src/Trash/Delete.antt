-- ===== src/Trash/Delete.antt =====
-- CourseWork/src/interceptor/trash_unlink.c: deleting a file moves it into the trash.
use osi_s.Prelude.{
  ℕ, [], ◌∷◌, ◌++◌, Bool, true, false, Option, none, some, if◌then◌else◌, ◌==◌, Text, bytes,
  starts_with, length, take,
}
use osi_s.Trash.{Disk, Node}
use osi_s.Trash.Info.{info_text}
use osi_s.Trash.Paths.{trash_root, files_dir, info_dir, file_path, info_path}

-- `getenv("TRASH_BASE")`, or ".".
abbrev pub get_trash_base : Option Text → Text
get_trash_base none = bytes "."
get_trash_base (some env) = env

-- What a call finds around it: the base, the working directory, the texts of the time and of
-- "%ld_%05d", the library's `basename`, and a size in digits.
pub record Env : Type 0 where
  pub base : Text
  pub cwd : Option Text
  pub time : Text
  pub stamp : Text
  pub basename : Text → Text
  pub size : Node → Text

abbrev pub later : Option Text → Option Text → Option Text
later (some rest) here = some rest
later none here = here

-- `strrchr(text, c)`: the text from the last byte `c` on.
unfoldable pub strrchr : ℕ → Text → Option Text
strrchr c [] = none
strrchr c (d ∷ ds) = later (strrchr c ds) (if d == c then some (d ∷ ds) else none)

-- `get_file_extension`; a name that begins with its last dot has none.
unfoldable pub get_file_extension : Text → Text
unfolding strrchr
get_file_extension filename = elim (strrchr b'.' filename) [
  | none ↦ []
  | some dot ↦ if length dot == length filename then [] else dot
]

-- `generate_unique_name`, with room for 255 bytes.
unfoldable pub generate_unique_name : Text → Text → Text
generate_unique_name stamp orig_name = take 255 (stamp ++ get_file_extension orig_name)

module _ (D : Disk) where
  open D use {State}

  -- A call whose failure is ignored.
  abbrev pub attempt : State → Option State → State
  attempt s none = s
  attempt s (some t) = t

  unfoldable pub ensure_directories : Text → State → State
  ensure_directories base s =
      let one = attempt s (D.mkdir s (trash_root base)) in
      let two = attempt one (D.mkdir one (files_dir base)) in
      attempt two (D.mkdir two (info_dir base))

  abbrev pub orig_real : Text → Option Text → Text
  orig_real abs_path none = abs_path
  orig_real abs_path (some real) = real

  -- The move, after the checks; the result of `write_info_file` is ignored.
  unfoldable pub moved : Env → Text → Text → Text → Node → State → Option State → State × Bool
  moved env abs_path newname orig st s none = (s, false)
  moved env abs_path newname orig st s (some t) = (
    attempt t (D.write t (info_path env.base newname) (info_text orig env.time (env.size st))),
    true,
  )

  abbrev pub removed : State → Option State → State × Bool
  removed s none = (s, false)
  removed s (some t) = (t, true)

  -- `move_to_trash` after `stat`.
  unfoldable pub move_found : Env → Text → Text → State → Option Node → State × Bool
  unfolding moved
  move_found env abs_path orig s none = (s, false)
  move_found env abs_path orig s (some st) =
      let newname = generate_unique_name env.stamp (env.basename abs_path) in
      if starts_with (trash_root env.base) abs_path
      then removed s (D.unlink s abs_path)
      else moved env abs_path newname orig st s (D.rename s abs_path (file_path env.base newname))

  -- `move_to_trash`; true is the result 0.
  unfoldable pub move_to_trash : Env → Text → State → State × Bool
  unfolding ensure_directories move_found
  move_to_trash env abs_path s =
      let ready = ensure_directories env.base s in
      move_found env abs_path (orig_real abs_path (D.realpath ready abs_path)) ready
        (D.stat ready abs_path)

  -- `build_abs_path`; the directory is the working directory, or the one that a descriptor's link in
  -- /proc names.
  unfoldable pub build_abs_path : Option Text → Text → Option Text
  build_abs_path dir [] = elim dir [ none ↦ none | some d ↦ some (d ++ bytes "/") ]
  build_abs_path dir (c ∷ cs) =
      if c == b'/'
      then some (c ∷ cs)
      else elim dir [ none ↦ none | some d ↦ some (d ++ (b'/' ∷ c ∷ cs)) ]

  -- `real_unlink` where the move has not worked out; `real` is that call with its own arguments.
  abbrev pub or_real : (State → Option State) → State × Bool → State × Bool
  or_real real (s, true) = (s, true)
  or_real real (s, false) = removed s (real s)

  unfoldable pub try_move : Env → Option Text → State → State × Bool
  unfolding move_to_trash
  try_move env none s = (s, false)
  try_move env (some abs_path) s = move_to_trash env abs_path s

  unfoldable pub unlink : Env → Text → State → State × Bool
  unfolding try_move
  unlink env pathname s =
      or_real (λ t. D.unlink t pathname) (try_move env (build_abs_path env.cwd pathname) s)

  -- `unlinkat`; `remove_dir` is the flag AT_REMOVEDIR, `dir` what the descriptor names.
  unfoldable pub unlinkat :
      Env → Option Text → Text → Bool → (State → Option State) → State → State × Bool
  unfolding try_move
  unlinkat env dir pathname remove_dir real s =
      if remove_dir
      then removed s (real s)
      else or_real real (try_move env (build_abs_path dir pathname) s)
