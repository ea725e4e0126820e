-- ===== src/Records/Access.antt =====
-- Reading, locking and initialising the records of lab07/src/main.c.
use osi_s.Prelude.{
  ℕ, zero, suc, ◌+◌, ◌%◌, ◌≤◌, ◌<◌, ◌≡◌, ◌≢◌, refl, ap, ◌∙◌, List, [], ◌∷◌, some, arith, ◌⊎◌, inl,
  inr, ◌==◌, if◌then◌else◌, length, dec_lt,
}
use osi_s.Records.{
  pos, Record, File, record_at, read_record, write_record, lock_range, type_into, overwrite, Prefix,
  student, address_prefix, init_loop, init_file,
}

-- After a write of a record that exists, that record reads as written and every other as before.
pub read_record-write_record :
    (i k : ℕ) (rec : Record) (file : File)
    → i < length file
    → read_record (pos k) (write_record (pos i) rec file)
      ≡ (if i == k then some rec else read_record (pos k) file)
unfolding read_record write_record
read_record-write_record i k rec [] h = absurd (omega arith)
read_record-write_record zero zero rec (r ∷ file) h = refl
read_record-write_record zero (suc k) rec (r ∷ file) h = ground arith
read_record-write_record (suc i) zero rec (r ∷ file) h = ground arith
read_record-write_record (suc i) (suc k) rec (r ∷ file) h =
    ground (arith, read_record-write_record i k rec file (omega arith))

-- The locked ranges of two records have no byte in common.
pub lock_range_disjoint :
    (i k : ℕ)
    → i ≢ k
    → ((lock_range i).1 ≤ (lock_range k).0) ⊎ ((lock_range k).1 ≤ (lock_range i).0)
unfolding lock_range
lock_range_disjoint i k h = elim (dec_lt i k) [
  | yes p ↦ inl (omega arith)
  | no p ↦ inr (omega arith)
]

record_at-init_loop :
    (text : Prefix → ℕ → List ℕ) (n i k : ℕ)
    → k < n
    → record_at k (init_loop text n i)
      ≡ some (record {
        name = text student (i + k);
        address = text address_prefix (i + k);
        semester = (i + k) % 8 + 1;
      })
unfolding init_loop
record_at-init_loop text zero i k h = absurd (omega arith)
record_at-init_loop text (suc n) i zero h =
    ap
      (λ j.
        some
          (record { name = text student j; address = text address_prefix j; semester = j % 8 + 1 }))
      (omega arith)
record_at-init_loop text (suc n) i (suc k) h =
    record_at-init_loop text n (i + 1) k (omega arith)
    ∙ ap
        (λ j.
          some (record {
            name = text student j;
            address = text address_prefix j;
            semester = j % 8 + 1;
          }))
        {x = i + 1 + k} (omega arith)

length-init_loop : (text : Prefix → ℕ → List ℕ) (n i : ℕ) → length (init_loop text n i) ≡ n
unfolding init_loop
length-init_loop text zero i = refl
length-init_loop text (suc n) i = ap suc (length-init_loop text n (i + 1))

-- `INIT` makes ten records; record `k` carries the texts of `k` and a semester from 1 to 8.
pub init_file_lem :
    (text : Prefix → ℕ → List ℕ) (k : ℕ)
    → k < 10
    → (length (init_file text) ≡ 10)
      × (rec : Record) × (read_record (pos k) (init_file text) ≡ some rec)
      × (rec.name ≡ text student k)
      × (rec.address ≡ text address_prefix k)
      × (rec.semester ≡ k % 8 + 1)
unfolding init_file read_record
init_file_lem text k h = (
  length-init_loop text 10 0,
  record { name = text student k; address = text address_prefix k; semester = k % 8 + 1 },
  record_at-init_loop text 10 0 k h
      ∙ ap
          (λ j. some (record {
            name = text student j;
            address = text address_prefix j;
            semester = j % 8 + 1;
          }))
          {x = 0 + k} {y = k} (omega arith),
  refl,
  refl,
  refl,
)

-- Enter at the prompt for the name or the address does not skip it: the text becomes empty.
pub enter_clears :
    (c : ℕ) (bytes : List ℕ) → (rest : List ℕ) × (type_into (some []) (c ∷ bytes) ≡ 0 ∷ rest)
unfolding type_into
enter_clears c bytes = (overwrite (0 ∷ []) bytes, refl)
