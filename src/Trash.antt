-- ===== src/Trash.antt =====
-- The trash can of CourseWork: src/interceptor/trash_unlink.c, which takes the place of `unlink` and
-- `unlinkat`, and the commands of src/cli. The file system is not the program's: it is the record
-- `Disk`, with the behaviour that its manual pages promise as `IsLawful`.
pub mod Info
pub mod Delete
pub mod Commands
pub mod Paths
pub mod Restore
pub mod Links
pub mod Purge
pub mod Listing
pub mod Memory
use osi_s.Prelude.{
  ℕ, ◌≡◌, List, [], ◌++◌, ◌∷◌, Bool, true, false, ◌||◌, Option, none, some, if◌then◌else◌, Text,
  same, starts_with,
}

-- What stands at a path: a file with its bytes, a directory, or a link with its target.
pub data Node : Type 0 where
  regular : Text → Node
  directory : Node
  link : Text → Node

-- `path` is `dir` or lies below it.
unfoldable pub under : Text → Text → Bool
under dir path = same dir path || starts_with (dir ++ (b'/' ∷ [])) path

-- The calls of the system and of its library. `none` is a failure, which leaves all as it was.
-- `lstat` shows a path itself, `stat` what it leads to through links. `walk` is the order in which
-- `nftw` with FTW_DEPTH | FTW_PHYS visits a tree, with what is a directory, and `names` what
-- `readdir` finds, if the directory opens. The record is about paths as `realpath` gives them, which
-- name a place in one way: absolute, with no '.', '..' or doubled '/', and with no link on the way.
-- `lstat` shows nothing at any other path, and the other calls fail on it. `overrun` is what a
-- function ends with when it has written a text behind an array: C leaves that undefined, and it is
-- anything.
pub record Disk : Type 1 where
  pub State : Type 0
  pub lstat : State → Text → Option Node
  pub stat : State → Text → Option Node
  pub realpath : State → Text → Option Text
  pub names : State → Text → Option (List Text)
  pub walk : State → Text → List (Text × Bool)
  pub rename : State → Text → Text → Option State
  pub unlink : State → Text → Option State
  pub rmdir : State → Text → Option State
  pub write : State → Text → Text → Option State
  pub mkdir : State → Text → Option State
  pub overrun : State → Text → State × ℕ

abbrev pub is_directory : Node → Bool
is_directory directory = true
is_directory _ = false

-- Every path of a list is under `dir`.
abbrev pub AllUnder : Text → List (Text × Bool) → Type 0
AllUnder dir [] = Unit
AllUnder dir ((path, d) ∷ es) = (under dir path ≡ true) × AllUnder dir es

-- What the manual pages say.
pub record IsLawful (D : Disk) : Type 0 where
  -- What stood at a path, and below it, stands at the new one; all else stays.
  pub lstat-rename_new :
      (s t : D.State) (a b rest : Text)
      → D.rename s a b ≡ some t
      → under b (b ++ rest) ≡ true
      → D.lstat t (b ++ rest) ≡ D.lstat s (a ++ rest)
  pub lstat-rename_old :
      (s t : D.State) (a b p : Text)
      → D.rename s a b ≡ some t
      → under a p ≡ true
      → under b p ≡ false
      → D.lstat t p ≡ none
  pub lstat-rename_other :
      (s t : D.State) (a b p : Text)
      → D.rename s a b ≡ some t
      → under a p ≡ false
      → under b p ≡ false
      → D.lstat t p ≡ D.lstat s p
  pub lstat-unlink :
      (s t : D.State) (a p : Text)
      → D.unlink s a ≡ some t
      → D.lstat t p ≡ (if same a p then none else D.lstat s p)
  pub lstat-rmdir :
      (s t : D.State) (a p : Text)
      → D.rmdir s a ≡ some t
      → D.lstat t p ≡ (if same a p then none else D.lstat s p)
  pub lstat-write :
      (s t : D.State) (a text p : Text)
      → D.write s a text ≡ some t
      → D.lstat t p ≡ (if same a p then some (regular text) else D.lstat s p)
  -- A directory that is made was not there.
  pub lstat-mkdir :
      (s t : D.State) (a p : Text)
      → D.mkdir s a ≡ some t
      → D.lstat t p ≡ (if same a p then some directory else D.lstat s p)
  pub stat_regular :
      (s : D.State) (p text : Text)
      → D.lstat s p ≡ some (regular text)
      → D.stat s p ≡ some (regular text)
  -- A walk visits what lies under its root.
  pub walk_under : (s : D.State) (a : Text) → AllUnder a (D.walk s a)
