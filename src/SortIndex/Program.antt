-- ===== src/SortIndex/Program.antt =====
-- `main` of lab06/src/sort_index.c over a whole file: its chunks one after the other. The file is the
-- list of its entries, of 16 bytes each; a page's size, and with it `memsize`, is a multiple of that.
pub mod Chunkwise
use osi_s.Prelude.{
  ◌^◌, Perm, take-append-drop, length-replicate, ℕ, zero, suc, ◌+◌, ◌-◌, ◌*◌, ◌/◌, ◌%◌, ◌≤◌, ◌<◌,
  min, ◌≡◌, refl, sym, ap, ap₂, ◌∙◌, subst, ◌≢◌, ◌↔◌, ◌⊎◌, inl, inr, Bool, true, false, not, ◌&&◌,
  ◌||◌, Option, none, some, List, [], ◌∷◌, ◌++◌, append-nil, append_assoc, map, reverse, arith, ltb,
  leb, ◌==◌, if◌then◌else◌, ==_iff, Bool-cases, Option-cases, length, take, drop, length-append,
  length-take, length-drop, Text, bytes, same, starts_with, has, before, before_all, has-take,
  take_all, take-append_le, dec_lt, dec_le, fgets, same_iff, starts_with-append, starts_with_self,
  drop_prefix, ℕ_discrete, if_both, take-append, starts_with_split, same_path, has-append,
  fgets-line, fgets_cut, before-append, is_space, is_digit, all_digits, read_digits, scan_number,
  scan_number-append, skip_spaces,
}
use osi_s.SortIndex.{sort_chunk}
use osi_s.SortIndex.Chunks.{accept_file}
use osi_s.SortIndex.Claims.{block_works, pair_works, times}
use osi_s.SortIndex.Settings.{Settings, check_arguments}

-- The order in which the threads get to their works in one chunk: the blocks, and for each round and
-- number of pairs the pairs, each work whole before the next. Which thread does a work does not
-- matter. Two `do_merge` of one pair that overlap in time are left out.
pub record Schedule : Type 0 where
  pub blocks_order : List ℕ
  pub pairs_order : ℕ → ℕ → List ℕ

-- The schedules of the program: every work as often as the threads' own numbers and the claims make
-- it, in any order.
pub record IsSchedule (S : Settings) (W : Schedule) : Type 0 where
  pub blocks_as : (k : ℕ) → times k W.blocks_order ≡ times k (block_works S.threads S.blocks)
  pub pairs_as : (s m k : ℕ) → times k (W.pairs_order s m) ≡ times k (pair_works S.threads m)

-- What the threads do to the entries of one mapping.
abbrev pub sort_mapped :
    {A : Type 0} → (A → A → Bool) → (List A → List A) → Schedule → Settings → List A → List A
sort_mapped leq qsort W S base =
    sort_chunk leq qsort W.blocks_order W.pairs_order S.blocks (S.block_size / 16) base

abbrev pub behind : {A : Type 0} → List A → Option (List A) → Option (List A)
behind done none = none
behind done (some rest) = some (done ++ rest)

-- The bytes that the threads work on from `page_offset` on, in entries.
abbrev pub worked : Settings → ℕ
worked S = S.blocks * (S.block_size / 16)

-- `while (data_offset < expected)`: each round sorts the entries of the next `memsize` bytes in place;
-- none where the threads work on more entries than are left, which are outside of the mapping. The
-- first argument bounds the rounds, and the sort of a chunk may differ from round to round.
unfoldable pub sort_loop :
    {A : Type 0} → ℕ → (ℕ → List A → List A) → ℕ → ℕ → List A → Option (List A)
sort_loop zero sort size work entries = none
sort_loop (suc n) sort size work [] = some []
sort_loop (suc n) sort size work (e ∷ es) =
    let rest = sort_loop n sort size work (drop size (e ∷ es)) in
    let now = sort n (take size (e ∷ es)) in
    if ltb (length (e ∷ es)) work then none else behind now rest

unfoldable pub sort_entries :
    {A : Type 0}
    → (A → A → Bool)
    → (List A → List A)
    → (ℕ → Schedule)
    → Settings
    → List A
    → Option (List A)
sort_entries leq qsort W S entries =
    sort_loop (suc (length entries)) (λ n. sort_mapped leq qsort (W n) S) (S.memsize / 16)
      (worked S) entries

-- How `main` ends: with a message, with an access outside of a mapping, or with the sorted entries.
pub data Run (A : Type 0) : Type 0 where
  rejected outside : Run A
  finished : List A → Run A

abbrev pub ended : {A : Type 0} → Option (List A) → Run A
ended none = outside
ended (some entries) = finished entries

abbrev pub with_size : {A : Type 0} → Option ℕ → Option (List A) → Run A
with_size none entries = rejected
with_size (some size) entries = ended entries

abbrev pub with_settings :
    {A : Type 0}
    → (A → A → Bool)
    → (List A → List A)
    → (ℕ → Schedule)
    → ℕ
    → List A
    → Option Settings
    → Run A
with_settings leq qsort W filesize entries none = rejected
with_settings leq qsort W filesize entries (some S) =
    with_size (accept_file filesize (length entries)) (sort_entries leq qsort W S entries)

-- `main`, for arguments as `strtol` reads them, a file's size and its entries, whose number is in its
-- header. `W` has the schedule of each chunk, by the rounds left.
unfoldable pub main :
    {A : Type 0}
    → (A → A → Bool)
    → (List A → List A)
    → (ℕ → Schedule)
    → ℕ
    → ℕ
    → ℕ
    → ℕ
    → ℕ
    → ℕ
    → List A
    → Run A
main leq qsort W pagesize cores ms bl th filesize entries =
    with_settings leq qsort W filesize entries (check_arguments pagesize cores ms bl th)
