-- ===== src/Tests/Files.antt =====
-- The theorems on lab07 and lab01 at concrete inputs.
use osi_s.Prelude.{ℕ, ◌≡◌, refl, List, [], ◌∷◌, true, false, none, some, bytes}
use osi_s.Records.{pos, File, Round, write_record, cmd_put, blank}
use osi_s.Records.Put.{Others, IsSafe, cmd_put-IsSafe}
use osi_s.Dirwalk.{
  Options, directory, regular, Listing, end, entry, Settings, walk_directory, arguments, init, dot,
  letter, letters, argument,
}
use osi_s.Dirwalk.Walk.{everything, keep, walk_directory-keep}

abbrev two_records : File
two_records = record blank { semester = 1 } ∷ record blank { semester = 2 } ∷ []

-- The first round meets a change by another process, the second does not.
abbrev conflict : Round
conflict = record {
  name = none;
  address = none;
  semester = some 5;
  others = λ file. write_record (pos 0) (record blank { semester = 9 }) file;
  granted = true;
  since = λ file. file;
  meanwhile = λ file. file;
  again = true;
}

abbrev calm : Round
calm = record conflict { others = λ file. file }

cmd_put-IsSafe_example :
    (g : File) × (h : File) × Others (conflict ∷ calm ∷ []) two_records g h
    × IsSafe (pos 0) h h (cmd_put (pos 0) (conflict ∷ calm ∷ []) two_records)
cmd_put-IsSafe_example =
    cmd_put-IsSafe (pos 0) (conflict ∷ calm ∷ []) two_records (λ f. refl, (λ f. refl, tt))

-- A directory 'a' with a file 'b', then a file 'c'.
abbrev tree : Listing
tree = entry (b'.' ∷ []) directory end (
    entry (b'a' ∷ []) directory (entry (b'b' ∷ []) regular end end)
      (entry (b'c' ∷ []) regular end end))

abbrev only_files : Options
only_files = record {
  show_links = false;
  show_dirs = false;
  show_files = true;
  sort_output = false;
}

walk_directory-keep_example :
    walk_directory dot only_files true tree ≡ bytes "./a/b" ∷ bytes "./c" ∷ []
unfolding everything keep
walk_directory-keep_example =
    walk_directory-keep dot only_files true tree (refl, tt, (refl, (refl, tt, tt), (refl, tt, tt)))

abbrev dash_ds : List ℕ
dash_ds = b'-' ∷ b'd' ∷ b's' ∷ []

abbrev dirs_sorted : Settings
dirs_sorted = record {
  options = record { show_links = false; show_dirs = true; show_files = false; sort_output = true };
  filter = true;
  path = b'x' ∷ [];
}

dirs_sorted_read : arguments (dash_ds ∷ (b'x' ∷ []) ∷ []) init ≡ some dirs_sorted
unfolding arguments argument letters letter
dirs_sorted_read = refl
