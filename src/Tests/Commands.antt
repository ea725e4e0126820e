-- ===== src/Tests/Commands.antt =====
-- The theorems on the sessions of lab07 at concrete inputs.
use osi_s.Prelude.{
  arith, ℕ, ◌≡◌, refl, true, none, some, List, [], ◌∷◌, Text, bytes, same, has, before, read_digits,
  scan_number,
}
use osi_s.Records.{File, Prefix, Round, blank, cmd_get, read_record}
use osi_s.Records.Session.{
  Around, Printed, record_read, interactive, parse_line, parse_words, strtok, skip_blanks, word,
  after_word, atoi, with_arguments, run,
}
use osi_s.Records.Session.Effects.{Leaves, stored, interactive_keeps}
use osi_s.Records.Session.Arguments.{typed, interactive-with_arguments}

abbrev two_records : File
two_records = record blank { semester = 1 } ∷ record blank { semester = 2 } ∷ []

-- The semester of a record is set to five, and no other process writes.
abbrev five : Round
five = record {
  name = none;
  address = none;
  semester = some 5;
  others = λ file. file;
  granted = true;
  since = λ file. file;
  meanwhile = λ file. file;
  again = true;
}

abbrev typing : Around
typing = record { granted = true; rounds = five ∷ [] }

abbrev text : Prefix → ℕ → List ℕ
text p i = []

abbrev lines : List (Text × Around)
lines = (bytes "put 0\n", typing) ∷ (bytes "LST\n", typing) ∷ []

alone : Leaves 1 typing.rounds
alone = (λ f. refl, λ f. refl, λ f. omega arith, λ f. refl, tt)

interactive_keeps_example :
    stored 1 (interactive text lines (some two_records)).1 ≡ stored 1 (some two_records)
unfolding parse_line parse_words strtok skip_blanks word after_word before same atoi scan_number
    read_digits
interactive_keeps_example =
    interactive_keeps text 1 lines (some two_records) (refl, alone, (refl, alone, tt))

abbrev read_one : Printed
read_one = record_read (some (record blank { semester = 2 }))

interactive-with_arguments_example :
    interactive text ((typed (bytes "GET") (bytes "1"), typing) ∷ []) (some two_records)
    ≡ (read_one ∷ [], some two_records)
unfolding same has with_arguments run atoi cmd_get read_record scan_number read_digits
interactive-with_arguments_example =
    interactive-with_arguments text (bytes "GET") b'1' [] typing (some two_records)
      (read_one, some two_records) refl (omega arith) refl
