-- ===== src/SortIndex/Files.antt =====
-- The index files that lab06/src/gen.c makes, and what lab06/src/view.c and sort_index.c accept.
use osi_s.Prelude.{
  ℕ, ◌+◌, ◌*◌, ◌%◌, ◌≤◌, ◌<◌, ◌≡◌, not, ◌||◌, Option, none, some, arith, ltb, ◌==◌, if◌then◌else◌,
}
use osi_s.SortIndex.Chunks.{expected_size, accept_file}

-- `main` of gen.c: the size of the file that it makes for a number of records, if it takes the
-- number that `strtoull` gave without an error.
unfoldable pub generate : ℕ → Option ℕ
generate records =
    if records == 0 || not (records % 256 == 0) then none else some (expected_size records)

-- `main` of view.c: the number of entries that it prints of a file of this size with this number of
-- records in its header.
unfoldable pub view : ℕ → ℕ → Option ℕ
view filesize records =
    if ltb filesize 8
    then none
    else if ltb filesize (expected_size records)
    then none
    else some records

generate_size :
    (records size : ℕ)
    → generate records ≡ some size
    → records < 576460752303423488
    → size ≡ 8 + records * 16
unfolding generate
generate_size records size e h = ground arith

-- A file of fewer than 2^59 records that gen.c makes is accepted by sort_index.c, which takes its whole
-- size, and by view.c, which prints all entries; and each of these lies in the file.
generate-view :
    (records size : ℕ)
    → generate records ≡ some size
    → records < 576460752303423488
    → (accept_file size records ≡ some size)
      × (view size records ≡ some records)
      × ((i : ℕ) → i < records → 8 + i * 16 + 16 ≤ size)
unfolding generate view accept_file
generate-view records size e h =
    let wide = generate_size records size e h in
    (ground (arith, wide), ground (arith, wide), λ i k. omega (arith, wide))

-- For a file of fewer than 2^60 - 1 entries, a header with 2^60 more records than that passes both checks, since the size wraps in
-- 64 bits: view.c goes on to print entries that are not in the file.
view_wraps :
    (k : ℕ)
    → k < 1152921504606846975
    → (accept_file (8 + k * 16) (1152921504606846976 + k) ≡ some (8 + k * 16))
      × (view (8 + k * 16) (1152921504606846976 + k) ≡ some (1152921504606846976 + k))
unfolding view accept_file
view_wraps k h =
    let wrapped : expected_size (1152921504606846976 + k) ≡ 8 + k * 16 = omega arith in
    (ground (arith, wrapped), ground (arith, wrapped))
