-- ===== src/Trash/Commands.antt =====
-- The commands of CourseWork/src/cli: restore.c, purge.c and main.c. The `unlink` that they
-- call is the system's.
use osi_s.Prelude.{
  ℕ, zero, suc, ◌-◌, List, [], ◌∷◌, Bool, true, false, ◌&&◌, Option, none, some, if◌then◌else◌, ltb,
  Text, bytes, same, length, take, drop,
}
use osi_s.Trash.{Disk, Node, regular, directory}
use osi_s.Trash.Info.{read_original}
use osi_s.Trash.Paths.{info_dir, file_path, info_path}

-- The name of an entry without ".info", if it has that ending and six bytes at least.
unfoldable pub entry_id : Text → Option Text
entry_id name =
    if ltb (length name) 6
    then none
    else if same (drop (length name - 5) name) (bytes ".info")
    then some (take (length name - 5) name)
    else none

abbrev pub worst : ℕ → ℕ → ℕ
worst status zero = status
worst status (suc code) = 1

module _ (D : Disk) where
  open D use {State}

  -- `fopen` for reading: what a regular file holds.
  abbrev pub contents : Option Node → Option Text
  contents (some (regular text)) = some text
  contents _ = none

  abbrev pub dropped : State → Option State → State
  dropped s none = s
  dropped s (some t) = t

  -- The end of `cmd_restore`, after `rename`.
  abbrev pub restored : Text → Text → State → Option State → State × ℕ
  restored base id s none = (s, 1)
  restored base id s (some t) = (dropped t (D.unlink t (info_path base id)), 0)

  -- `access(dir, F_OK)`
  abbrev pub if_there : Option Node → State × ℕ → State × ℕ → State × ℕ
  if_there none absent present = absent
  if_there (some _) absent present = present

  -- `cmd_restore` after the path is read; `dirname` is the library's.
  unfoldable pub restore_to : (Text → Text) → Text → Text → Text → State → State × ℕ
  restore_to dirname base id [] s = (s, 1)
  restore_to dirname base id (c ∷ cs) s =
      if_there (D.stat s (dirname (c ∷ cs))) (s, 1)
        (restored base id s (D.rename s (file_path base id) (c ∷ cs)))

  unfoldable pub restore_from : (Text → Text) → Text → Text → Option Text → State → State × ℕ
  unfolding restore_to
  restore_from dirname base id none s = (s, 1)
  restore_from dirname base id (some text) s = restore_to dirname base id (read_original text) s

  unfoldable pub cmd_restore : (Text → Text) → Text → Text → State → State × ℕ
  unfolding restore_from
  cmd_restore dirname base id s =
      restore_from dirname base id (contents (D.stat s (info_path base id))) s

  -- `remove_tree_cb`; FTW_DP is a directory whose contents have been visited.
  abbrev pub remove_tree_cb : State → Text × Bool → Option State
  remove_tree_cb s (path, true) = D.rmdir s path
  remove_tree_cb s (path, false) = D.unlink s path

  -- `nftw` goes on while the callback returns 0.
  abbrev pub go_on : State → Option State → (State → State × Bool) → State × Bool
  go_on s none f = (s, false)
  go_on s (some t) f = f t

  unfoldable pub remove_all : List (Text × Bool) → State → State × Bool
  remove_all [] s = (s, true)
  remove_all (e ∷ es) s = go_on s (remove_tree_cb s e) (remove_all es)

  unfoldable pub remove_tree : Text → State → State × Bool
  unfolding remove_all
  remove_tree path s = remove_all (D.walk s path) s

  abbrev pub tried : State → Option State → State × Bool
  tried s none = (s, false)
  tried s (some t) = (t, true)

  -- The first part of `cmd_purge`, and whether it counts for `ok`.
  unfoldable pub purge_file : Text → State → Option Node → State × Bool
  unfolding remove_tree
  purge_file path s none = (s, false)
  purge_file path s (some directory) = remove_tree path s
  purge_file path s (some _) = tried s (D.unlink s path)

  unfoldable pub cmd_purge : Text → Text → State → State × ℕ
  unfolding purge_file
  cmd_purge base id s =
      let (t, one) = purge_file (file_path base id) s (D.stat s (file_path base id)) in
      let (u, two) = tried t (D.unlink t (info_path base id)) in (u, if one && two then 0 else 1)

  abbrev pub step_purge : State × ℕ → ℕ → (ℕ → State → State × ℕ) → State × ℕ
  step_purge (t, code) status f = f (worst status code) t

  abbrev pub if_entry : Option Text → (Text → State × ℕ) → State × ℕ → State × ℕ
  if_entry none f skip = skip
  if_entry (some id) f skip = f id

  -- `strncpy` into `id`, an array of 64 bytes.
  unfoldable pub purge_loop : Text → List Text → ℕ → State → State × ℕ
  purge_loop base [] status s = (s, status)
  purge_loop base (name ∷ names) status s =
      if_entry (entry_id name)
        (λ id.
          if ltb (length id) 64
          then step_purge (cmd_purge base id s) status (purge_loop base names)
          else D.overrun s id)
        (purge_loop base names status s)

  unfoldable pub opened : Text → State → Option (List Text) → State × ℕ
  unfolding purge_loop
  opened base s none = (s, 1)
  opened base s (some names) = purge_loop base names 0 s

  unfoldable pub cmd_purge_all : Text → State → State × ℕ
  unfolding opened
  cmd_purge_all base s = opened base s (D.names s (info_dir base))

-- The commands of `main`, after the program's own name.
pub data Command : Type 0 where
  list usage : Command
  browse restore purge : Text → Command
  purge_all : Command

unfoldable pub parse : List Text → Command
parse [] = usage
parse (name ∷ args) =
    if same name (bytes "list")
    then list
    else if same name (bytes "browse")
    then elim args [ [] ↦ browse (bytes ".") | start ∷ _ ↦ browse start ]
    else elim args [
      | [] ↦ usage
      | arg ∷ more ↦ elim more [
        | [] ↦
            if same name (bytes "restore")
            then restore arg
            else if same name (bytes "purge")
            then if same arg (bytes "--all") then purge_all else purge arg
            else usage
        | _ ∷ _ ↦ usage
      ]
    ]
