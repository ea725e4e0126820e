-- ===== src/Records/Session/Effects.antt =====
-- What a session of commands (lab07/src/main.c) may change in the file.
use osi_s.Prelude.{
  ℕ, zero, suc, ◌<◌, ◌≤◌, ◌≡◌, refl, sym, ap, ◌∙◌, inl, inr, Bool, true, false, not, Option, none,
  some, List, [], ◌∷◌, arith, ◌==◌, if◌then◌else◌, length, Text, if_both,
}
use osi_s.Records.{
  ℤ, pos, negsuc, Record, File, record_at, read_record, write_record, Round, Prefix, cmd_put,
}
use osi_s.Records.Access.{read_record-write_record}
use osi_s.Records.Put.{Others, IsSafe, cmd_put-Ends}
use osi_s.Records.Session.{
  Command, blank, lst, init, quit, usage, unknown, get, put, parse_line, Printed, Around, run,
  goes_on, interactive,
}

-- Other processes leave record `k` alone in all rounds, and none shortens the file between a second
-- reading and the write.
abbrev pub Leaves : ℕ → List Round → Type 0
Leaves k [] = Unit
Leaves k (r ∷ rounds) =
    ((f : File) → read_record (pos k) (r.others f) ≡ read_record (pos k) f)
    × ((f : File) → read_record (pos k) (r.since f) ≡ read_record (pos k) f)
    × ((f : File) → length f ≤ length (r.since f))
    × ((f : File) → read_record (pos k) (r.meanwhile f) ≡ read_record (pos k) f)
    × Leaves k rounds

read_record-Others :
    (k : ℕ) (rounds : List Round) (file g h : File)
    → Others rounds file g h
    → Leaves k rounds
    → (read_record (pos k) h ≡ read_record (pos k) file) × (length g ≤ length h)
read_record-Others k [] file g h o l =
    (ap (read_record (pos k)) (sym o.1), omega (arith, ap length o.0, ap length o.1))
read_record-Others k (r ∷ rounds) file g h (inl o) l =
    (ap (read_record (pos k)) (sym o.1), omega (arith, ap length o.0, ap length o.1))
read_record-Others k (r ∷ rounds) file g h (inr (inl o)) l =
    (ap (read_record (pos k)) (sym o.1) ∙ l.0 file, omega (arith, ap length o.0, ap length o.1))
read_record-Others k (r ∷ rounds) file g h (inr (inr (inl o))) l = (
  ap (read_record (pos k)) (sym o.1) ∙ l.1 (r.others file) ∙ l.0 file,
  omega (arith, ap length o.0, ap length o.1, l.2 (r.others file)),
)
read_record-Others k (r ∷ rounds) file g h (inr (inr (inr o))) l =
    let now = r.since (r.others file) in
    let rest = read_record-Others k rounds (r.meanwhile now) g h o l.4 in
    (rest.0 ∙ l.3 now ∙ l.1 (r.others file) ∙ l.0 file, rest.1)

record_at-length : (i : ℕ) (file : File) (r : Record) → record_at i file ≡ some r → i < length file
record_at-length i [] r h = cc
record_at-length zero (x ∷ file) r h = omega arith
record_at-length (suc i) (x ∷ file) r h = omega (arith, record_at-length i file r h)

abbrev pub is_at : ℤ → ℕ → Bool
is_at (pos i) k = i == k
is_at (negsuc i) k = false

-- A write to another record, of one that was read when the file was not longer.
write_keeps :
    (rec_no : ℤ) (k : ℕ) (orig work : Record) (g h : File)
    → is_at rec_no k ≡ false
    → read_record rec_no g ≡ some orig
    → length g ≤ length h
    → read_record (pos k) (write_record rec_no work h) ≡ read_record (pos k) h
write_keeps (pos i) k orig work g h n e l =
    read_record-write_record i k work h (omega (arith, there e))
    ∙ ap (λ b. if b then some work else read_record (pos k) h) n
  where
    there : read_record (pos i) g ≡ some orig → i < length g
    there e = unfold read_record in record_at-length i g orig e
write_keeps (negsuc i) k orig work g h n e l = unfold read_record write_record in refl

cmd_put_keeps :
    (rec_no : ℤ) (k : ℕ) (rounds : List Round) (file : File)
    → is_at rec_no k ≡ false
    → Leaves k rounds
    → read_record (pos k) (cmd_put rec_no rounds file).file ≡ read_record (pos k) file
cmd_put_keeps rec_no k rounds file n l =
    let (g, h, o, s) = cmd_put-Ends rec_no rounds file in
    let kept = read_record-Others k rounds file g h o l in safe g h s kept.1 ∙ kept.0
  where
    safe :
        (g h : File)
        → IsSafe rec_no g h (cmd_put rec_no rounds file)
        → length g ≤ length h
        → read_record (pos k) (cmd_put rec_no rounds file).file ≡ read_record (pos k) h
    safe g h (inl (orig, work, u, e, f)) l =
        ap (read_record (pos k)) f ∙ write_keeps rec_no k orig work g h n e l
    safe g h (inr (f, u)) l = ap (read_record (pos k)) f

-- A command that is neither INIT nor a PUT of record `k`.
abbrev pub avoids : ℕ → Command → Bool
avoids k init = false
avoids k (put rec_no) = not (is_at rec_no k)
avoids k _ = true

-- All lines of a session avoid record `k`, and so do the other processes.
abbrev pub Avoid : ℕ → List (Text × Around) → Type 0
Avoid k [] = Unit
Avoid k ((line, a) ∷ lines) =
    (avoids k (parse_line line) ≡ true) × Leaves k a.rounds × Avoid k lines

-- The record in the data file, if there is one.
abbrev pub stored : ℕ → Option File → Option Record
stored k none = none
stored k (some file) = read_record (pos k) file

module _ (text : Prefix → ℕ → List ℕ) where
  run_keeps :
      (k : ℕ) (command : Command) (a : Around) (file : Option File)
      → avoids k command ≡ true
      → Leaves k a.rounds
      → stored k (run text command a file).1 ≡ stored k file
  unfolding run
  run_keeps k blank a file h l = refl
  run_keeps k lst a file h l = refl
  run_keeps k (get rec_no) a file h l = refl
  run_keeps k (put rec_no) a none h l = refl
  run_keeps k (put rec_no) a (some file) h l = cmd_put_keeps rec_no k a.rounds file (ground arith) l
  run_keeps k init a file h l = cc
  run_keeps k quit a file h l = refl
  run_keeps k usage a file h l = refl
  run_keeps k unknown a file h l = refl

  -- A session of any commands but INIT leaves every record as it was that no PUT of the session
  -- names, if the other processes leave it alone too and none shortens the file between the second
  -- reading of a PUT and its write: whatever is typed, whichever locks are granted, and wherever the
  -- session ends.
  pub interactive_keeps :
      (k : ℕ) (lines : List (Text × Around)) (file : Option File)
      → Avoid k lines
      → stored k (interactive text lines file).1 ≡ stored k file
  unfolding interactive
  interactive_keeps k [] file h = refl
  interactive_keeps k ((line, a) ∷ lines) file h =
      let (said, next) = run text (parse_line line) a file in
      let (more, last) = interactive text lines next in
      if_both (λ (r : List Printed × Option File). stored k r.1 ≡ stored k file)
        (goes_on (parse_line line)) (said ∷ more, last) ([], file)
        (interactive_keeps k lines next h.2 ∙ run_keeps k (parse_line line) a file h.0 h.1) refl
