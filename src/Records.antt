-- ===== src/Records.antt =====
-- lab07/src/main.c: records of fixed size in a file, locked one by one. What other processes do
-- to the file while the user types is an input, as is what the user types; while a record is locked
-- other processes leave it alone.
pub mod Put
pub mod Access
pub mod Session
use osi_s.Prelude.{
  ℕ, zero, suc, ◌+◌, ◌*◌, ◌%◌, List, [], ◌∷◌, ◌++◌, Bool, true, false, Option, none, some,
  replicate, ℕ_discrete,
}
use mathlib.Core.Logic.{ite}

pub data ℤ : Type 0 where
  pos : ℕ → ℤ
  negsuc : ℕ → ℤ

-- `struct record_s`; `name` and `address` are the 80 bytes of their arrays.
pub record Record : Type 0 where
  pub name : List ℕ
  pub address : List ℕ
  pub semester : ℕ

-- `memcmp` over two records.
unfoldable pub Record-discrete : Discrete Record
Record-discrete = hlevel ℕ_discrete

abbrev pub File : Type 0
File = List Record

abbrev pub record_count : ℕ
record_count = 10

-- sizeof(struct record_s)
abbrev pub record_size : ℕ
record_size = 161

abbrev pub blank : Record
blank = record { name = replicate 80 0; address = replicate 80 0; semester = 0 }

abbrev pub record_at : ℕ → File → Option Record
record_at i [] = none
record_at zero (r ∷ rs) = some r
record_at (suc i) (r ∷ rs) = record_at i rs

-- A write past the end leaves a hole of zeros.
abbrev pub put_at : ℕ → Record → File → File
put_at zero rec [] = rec ∷ []
put_at zero rec (r ∷ rs) = rec ∷ rs
put_at (suc i) rec [] = blank ∷ put_at i rec []
put_at (suc i) rec (r ∷ rs) = r ∷ put_at i rec rs

-- `lseek` to a negative offset fails; a read at or past the end is short.
unfoldable pub read_record : ℤ → File → Option Record
read_record (pos i) file = record_at i file
read_record (negsuc i) file = none

unfoldable pub write_record : ℤ → Record → File → File
write_record (pos i) rec file = put_at i rec file
write_record (negsuc i) rec file = file

-- `fl.l_start` and the end of the range of `lock_record` and `unlock_record`.
unfoldable pub lock_range : ℕ → ℕ × ℕ
lock_range rec_no = (rec_no * record_size, rec_no * record_size + record_size)

-- `fgets` into an array and the NUL over its newline: the typed bytes, then two NULs; nothing at
-- the end of the input. The line is taken to fit into the array.
abbrev pub overwrite : List ℕ → List ℕ → List ℕ
overwrite [] bytes = bytes
overwrite (c ∷ cs) [] = []
overwrite (c ∷ cs) (b ∷ bytes) = c ∷ overwrite cs bytes

unfoldable pub type_into : Option (List ℕ) → List ℕ → List ℕ
type_into none bytes = bytes
type_into (some line) bytes = overwrite (line ++ (0 ∷ 0 ∷ [])) bytes

-- What a user does in one round of `cmd_put`, and what others do to the file: three answers (no
-- number for the semester is Enter), what others do up to the second reading, whether the lock is
-- granted, what others do after that reading in spite of the lock, as INIT does, what they do while
-- the user thinks about a conflict, and the answer to it, which is no for '-'.
pub record Round : Type 0 where
  pub name : Option (List ℕ)
  pub address : Option (List ℕ)
  pub semester : Option ℕ
  pub others : File → File
  pub granted : Bool
  pub since : File → File
  pub meanwhile : File → File
  pub again : Bool

abbrev pub chosen : Option ℕ → ℕ → ℕ
chosen none old = old
chosen (some n) old = n % 256

unfoldable pub edit : Round → Record → Record
unfolding type_into
edit r orig = record {
  name = type_into r.name orig.name;
  address = type_into r.address orig.address;
  semester = chosen r.semester orig.semester;
}

-- The ends of `cmd_put`: each return, or still waiting for the user.
pub data Outcome : Type 0 where
  unreadable unchanged lock_failed vanished left pending : Outcome
  updated : Record → Record → Outcome

pub data Act : Type 0 where
  locked unlocked wrote closed : Act

pub record Result : Type 0 where
  pub outcome : Outcome
  pub file : File
  pub acts : List Act

abbrev pub finish : Outcome → File → List Act → Result
finish o f acts = record { outcome = o; file = f; acts = acts }

-- Under the lock: the record is read again and compared with the one the user saw. `file` is as it
-- is after what others have done since that reading, and `later` as it is at the answer.
unfoldable pub put_locked :
    ℤ → Record → Record → Option Record → Bool → File → File → Result → Result
put_locked rec_no orig work none again file later rest =
    finish vanished file (locked ∷ unlocked ∷ closed ∷ [])
put_locked rec_no orig work (some fresh) again file later rest =
    ite (Record-discrete orig fresh)
      (finish (updated orig work) (write_record rec_no work file)
        (locked ∷ wrote ∷ unlocked ∷ closed ∷ []))
      (elim again [
        | true ↦ record rest { acts = locked ∷ unlocked ∷ rest.acts }
        | false ↦ finish left later (locked ∷ unlocked ∷ closed ∷ [])
      ])

abbrev pub if_granted : Bool → Result → Result → Result
if_granted true a b = a
if_granted false a b = b

-- A round after the record has been read; `rest` is what `goto Again` does.
unfoldable pub put_round : ℤ → Round → Option Record → File → Result → Result
unfolding put_locked edit
put_round rec_no r none file rest = finish unreadable file (closed ∷ [])
put_round rec_no r (some orig) file rest =
    let work = edit r orig in
    let now = r.others file in
    ite (Record-discrete orig work) (finish unchanged now (closed ∷ [])) (
      if_granted r.granted
        (put_locked rec_no orig work (read_record rec_no now) r.again (r.since now)
          (r.meanwhile (r.since now)) rest)
        (finish lock_failed now (closed ∷ [])))

-- `cmd_put` on as many rounds as the user has patience for.
unfoldable pub cmd_put : ℤ → List Round → File → Result
unfolding put_round
cmd_put rec_no [] file = finish pending file []
cmd_put rec_no (r ∷ rounds) file =
    put_round rec_no r (read_record rec_no file) file
      (cmd_put rec_no rounds (r.meanwhile (r.since (r.others file))))

-- `cmd_get`: what is printed, and the locks.
unfoldable pub cmd_get : ℤ → Bool → File → Option Record × List Act
cmd_get rec_no false file = (none, closed ∷ [])
cmd_get rec_no true file = (read_record rec_no file, locked ∷ unlocked ∷ closed ∷ [])

-- `cmd_lst` prints every record with its index.
unfoldable pub cmd_lst : ℕ → File → List (ℕ × Record)
cmd_lst idx [] = []
cmd_lst idx (r ∷ rs) = (idx, r) ∷ cmd_lst (idx + 1) rs

-- `init_file`, where `text` is what `snprintf` puts into an array for a prefix and a number.
pub data Prefix : Type 0 where
  student address_prefix : Prefix

pub init_loop : (Prefix → ℕ → List ℕ) → ℕ → ℕ → File
init_loop text zero i = []
init_loop text (suc n) i =
    record { name = text student i; address = text address_prefix i; semester = i % 8 + 1 }
    ∷ init_loop text n (i + 1)

unfoldable pub init_file : (Prefix → ℕ → List ℕ) → File
unfolding init_loop
init_file text = init_loop text record_count 0
