-- ===== src/Trash/Paths.antt =====
-- The paths of CourseWork's trash: the formats TRASH_FILES_FMT and TRASH_INFO_FMT of
-- src/interceptor/trash_unlink.c, and the same ones in src/cli/restore.c and src/cli/purge.c.
pub mod Apart
use osi_s.Prelude.{
  ℕ, ◌≡◌, refl, sym, ap, ◌∙◌, List, [], ◌∷◌, ◌++◌, append_assoc, Bool, true, false, ◌||◌, Text,
  bytes, same, starts_with, starts_with-append, same_iff, arith, Bool-cases, inl, inr, has,
}
use osi_s.Trash.{under}

abbrev pub trash_root : Text → Text
trash_root base = base ++ bytes "/.trash"

abbrev pub files_dir : Text → Text
files_dir base = base ++ bytes "/.trash/files"

abbrev pub info_dir : Text → Text
info_dir base = base ++ bytes "/.trash/info"

unfoldable pub file_path : Text → Text → Text
file_path base id = base ++ (bytes "/.trash/files/" ++ id)

unfoldable pub info_path : Text → Text → Text
info_path base id = base ++ (bytes "/.trash/info/" ++ (id ++ bytes ".info"))
