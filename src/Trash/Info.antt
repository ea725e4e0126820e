-- ===== src/Trash/Info.antt =====
-- The note that CourseWork/src/interceptor/trash_unlink.c writes beside a deleted file, and how
-- CourseWork/src/cli/restore.c reads the original path back.
pub mod Laws
use osi_s.Prelude.{
  ℕ, zero, suc, ◌+◌, List, [], ◌∷◌, ◌++◌, Bool, true, false, Option, none, some, if◌then◌else◌,
  Text, bytes, starts_with, before, fgets, length, drop,
}

-- "original_path="
unfoldable pub key : Text
key = bytes "original_path="

-- What `write_info_file` prints; `time` and `size` are the texts of the time and of the size.
unfoldable pub info_text : Text → Text → Text → Text
info_text orig_path time size =
    key
    ++ (orig_path
        ++ (b'\n'
            ∷ (bytes "deleted_time="
                ++ (time ++ (b'\n' ∷ (bytes "size=" ++ (size ++ (b'\n' ∷ []))))))))

-- `sscanf(line, "original_path=%[^\n]", original) == 1`: the match may not be empty.
abbrev pub not_empty : Text → Option Text
not_empty [] = none
not_empty (c ∷ cs) = some (c ∷ cs)

unfoldable pub scan : Text → Option Text
scan line = if starts_with key line then not_empty (before b'\n' (drop (length key) line)) else none

abbrev pub found_or : Option Text → Text → Text
found_or none later = later
found_or (some original) later = original

-- `while (fgets(line, sizeof(line), fp))` until a line fits, with `char line[256]`; the first
-- argument bounds the rounds.
unfoldable pub read_loop : ℕ → Text → Text
unfolding scan
read_loop zero text = []
read_loop (suc n) [] = []
read_loop (suc n) (c ∷ cs) =
    let (line, rest) = fgets 255 (c ∷ cs) in
    let later = read_loop n rest in found_or (scan line) later

-- `original`, empty if no line has it.
unfoldable pub read_original : Text → Text
unfolding read_loop
read_original text = read_loop (length text) text
