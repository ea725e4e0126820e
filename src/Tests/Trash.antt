-- ===== src/Tests/Trash.antt =====
-- The theorems on the trash can at concrete inputs, on a file system in memory.
use osi_s.Prelude.{
  ◌≡◌, refl, ap, true, none, some, [], ◌∷◌, arith, Text, bytes, same, starts_with, has,
}
use osi_s.Trash.{Disk, regular, directory, link, under}
use osi_s.Trash.Commands.{cmd_restore}
use osi_s.Trash.Delete
use osi_s.Trash.Delete.{Env, ensure_directories, generate_unique_name, get_file_extension, strrchr}
use osi_s.Trash.Info.{info_text}
use osi_s.Trash.Links.{restore-unlink_link}
use osi_s.Trash.Memory.{Memory, put, carry, memory_disk, memory_disk-IsLawful}
use osi_s.Trash.Paths.{file_path, info_path}
use osi_s.Trash.Paths.Apart.{under_split}
use osi_s.Trash.Restore.{restore-unlink}

-- One file, '/a/f', with one byte.
abbrev one_file : Memory
one_file = put (bytes "/a/f") (some (regular (b'x' ∷ []))) (λ p. none)

abbrev disk : Disk
disk = memory_disk (λ p. p) []

abbrev around : Env
around = record {
  base = bytes "/t";
  cwd = none;
  time = bytes "5";
  stamp = bytes "1";
  basename = λ p. bytes "f";
  size = λ n. bytes "1";
}

abbrev with_dirs : Memory → Memory
with_dirs s =
    put (bytes "/t/.trash/info") (some directory)
      (put (bytes "/t/.trash/files") (some directory) (put (bytes "/t/.trash") (some directory) s))

abbrev file_1 : Text
file_1 = bytes "/t/.trash/files/1"

abbrev note_1 : Text
note_1 = bytes "/t/.trash/info/1.info"

abbrev note_text : Text → Text
note_text real = info_text real (bytes "5") (bytes "1")

abbrev deleted : Text → Text → Memory → Memory
deleted path real s = put note_1 (some (regular (note_text real))) (carry path file_1 (with_dirs s))

abbrev put_back : Text → Memory → Memory
put_back real s = put note_1 none (carry file_1 real s)

no_file_yet :
    (q : Text) → under (file_path (bytes "/t") (bytes "1")) q ≡ true → with_dirs one_file q ≡ none
unfolding same file_path
no_file_yet q h =
    let cut = under_split (file_path (bytes "/t") (bytes "1")) q h in ap (with_dirs one_file) cut.1

restore-unlink_example :
    (Delete.unlink disk around (bytes "/a/f") one_file
      ≡ (deleted (bytes "/a/f") (bytes "/a/f") one_file, true))
    × (cmd_restore disk
          (λ p. bytes "/t/.trash")
          (bytes "/t")
          (bytes "1")
          (deleted (bytes "/a/f") (bytes "/a/f") one_file)
        ≡ (put_back (bytes "/a/f") (deleted (bytes "/a/f") (bytes "/a/f") one_file), 0))
    × (put_back (bytes "/a/f") (deleted (bytes "/a/f") (bytes "/a/f") one_file) (bytes "/a/f")
        ≡ with_dirs one_file (bytes "/a/f"))
unfolding has starts_with same under ensure_directories generate_unique_name get_file_extension
    strrchr file_path info_path info_text
restore-unlink_example =
    restore-unlink disk (memory_disk-IsLawful (λ p. p) []) around (λ p. bytes "/t/.trash")
      (bytes "/a/f") (regular (b'x' ∷ [])) directory one_file
      (carry (bytes "/a/f") file_1 (with_dirs one_file))
      (deleted (bytes "/a/f") (bytes "/a/f") one_file)
      (carry file_1 (bytes "/a/f") (deleted (bytes "/a/f") (bytes "/a/f") one_file))
      (put_back (bytes "/a/f") (deleted (bytes "/a/f") (bytes "/a/f") one_file)) (bytes "/a/f") refl
      refl (omega arith) refl refl refl refl no_file_yet refl refl refl refl refl refl

-- The restored link '/a/l' takes the place of the file '/b' that it led to.
abbrev linked : Memory
linked =
    put (bytes "/a/l") (some (link (bytes "/b")))
      (put (bytes "/b") (some (regular (b'x' ∷ []))) (λ p. none))

abbrev links : Disk
links = memory_disk (λ p. bytes "/b") []

restore-unlink_link_example :
    (Delete.unlink links around (bytes "/a/l") linked
      ≡ (deleted (bytes "/a/l") (bytes "/b") linked, true))
    × (cmd_restore links
          (λ p. bytes "/t/.trash")
          (bytes "/t")
          (bytes "1")
          (deleted (bytes "/a/l") (bytes "/b") linked)
        ≡ (put_back (bytes "/b") (deleted (bytes "/a/l") (bytes "/b") linked), 0))
    × (put_back (bytes "/b") (deleted (bytes "/a/l") (bytes "/b") linked) (bytes "/b")
        ≡ some (link (bytes "/b")))
unfolding has starts_with same under ensure_directories generate_unique_name get_file_extension
    strrchr file_path info_path info_text
restore-unlink_link_example =
    restore-unlink_link links (memory_disk-IsLawful (λ p. bytes "/b") []) around
      (λ p. bytes "/t/.trash") (bytes "/a/l") (bytes "/b") (bytes "/b") (link (bytes "/b"))
      directory linked (carry (bytes "/a/l") file_1 (with_dirs linked))
      (deleted (bytes "/a/l") (bytes "/b") linked)
      (carry file_1 (bytes "/b") (deleted (bytes "/a/l") (bytes "/b") linked))
      (put_back (bytes "/b") (deleted (bytes "/a/l") (bytes "/b") linked)) refl refl refl
      (omega arith) refl refl refl refl refl refl refl refl refl refl
