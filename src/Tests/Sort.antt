-- ===== src/Tests/Sort.antt =====
-- The theorems on lab06 at concrete inputs, with an insertion sort for `qsort`.
use osi_s.Prelude.{
  ◌++◌, ◌+◌, ◌<◌, ℕ, zero, suc, ◌*◌, ◌<◌, ◌≡◌, refl, List, [], ◌∷◌, true, false, arith, ltb, length,
  Perm, inl, inr,
}
use mathlib.Core.List.Perm
use mathlib.Core.List.{mem-cons_self}
use osi_s.SortIndex.{
  Index, Marks, cmp_index_s, equal, merge_loop, local_sort, merge_round, sort_chunk,
}
use osi_s.SortIndex.Calendar.{
  date, IsDate, next_day, days_after, julian_number, days_after-julian_number,
}
use osi_s.SortIndex.Calendar.Today.{
  Tm, tm, date_of, seconds, new_century, current_mjd, mjd_max, mjd_max-days_after,
}
use osi_s.SortIndex.Compare.{leq, cmp_index_s-Order}
use osi_s.SortIndex.Merge.{IsSorted, merge_loop-IsSorted, merge_loop-perm, length-merge_loop}
use osi_s.SortIndex.Phases.{Among}
use osi_s.SortIndex.Phases.Blocks.{Sorts}
use osi_s.SortIndex.Settings.{Settings, check_arguments, refused, and_loop}
use osi_s.SortIndex.Program.{Schedule, IsSchedule, finished, main}
use osi_s.SortIndex.Claims.{block_works, pair_works}
use osi_s.SortIndex.Program.Chunkwise.{InChunks, main-InChunks, main_unsorted}
use osi_s.SortIndex.Chunks.{chunks, holders, AllPaged, chunks_partition}

-- Times as natural numbers.
before_trans : (a b c : ℕ) → ltb a b ≡ true → ltb b c ≡ true → ltb a c ≡ true
before_trans a b c p q = ground arith

before_irrefl : (a : ℕ) → ltb a a ≡ false
before_irrefl a = ground arith

before_total : (a b : ℕ) → ltb a b ≡ false → ltb b a ≡ false → a ≡ b
before_total a b p q = ground arith

abbrev days : Marks
days = record {
  Mark = ℕ;
  before = ltb;
  before_trans = before_trans;
  before_irrefl = before_irrefl;
  before_total = before_total;
}

abbrev Entry : Type 0
Entry = Index ℕ

abbrev entry : ℕ → ℕ → Entry
entry t n = record { time_mark = t; recno = n }

qsort : List Entry → List Entry
qsort [] = []
qsort (x ∷ xs) = merge_loop (leq days) (x ∷ []) (qsort xs) []

qsort-perm : (l : List Entry) → Perm (qsort l) l
unfolding qsort
qsort-perm [] = Perm.rfl
qsort-perm (x ∷ xs) =
    Perm.trans (merge_loop-perm (leq days) (x ∷ []) (qsort xs)) (Perm.cons x (qsort-perm xs))

length-qsort : (l : List Entry) → length (qsort l) ≡ length l
unfolding qsort
length-qsort [] = refl
length-qsort (x ∷ xs) =
    omega (arith, length-merge_loop (leq days) (x ∷ []) (qsort xs), length-qsort xs)

qsort-IsSorted : (l : List Entry) → IsSorted (leq days) (qsort l)
unfolding qsort
qsort-IsSorted [] = tt
qsort-IsSorted (x ∷ xs) =
    merge_loop-IsSorted (leq days) (cmp_index_s-Order days) (x ∷ []) (qsort xs) (tt, tt)
      (qsort-IsSorted xs)

qsort-Sorts : Sorts (leq days) qsort
qsort-Sorts = record { perm = qsort-perm; same_length = length-qsort; sorts = qsort-IsSorted }

abbrev four : List Entry
four = entry 9 1 ∷ entry 3 2 ∷ entry 9 0 ∷ entry 1 4 ∷ []

-- Four blocks of one entry, on pages of 64 bytes.
abbrev one_each : Settings
one_each = record { memsize = 64; blocks = 4; threads = 1; block_size = 16 }

-- Blocks of eight bytes: 'four' stays as it is.
abbrev too_small : Settings
too_small = record { memsize = 4096; blocks = 512; threads = 1; block_size = 8 }

below_two : (k : ℕ) → k < 2 → Among k (1 ∷ 0 ∷ [])
below_two zero h = inr (inl refl)
below_two (suc zero) h = inl refl
below_two (suc (suc k)) h = absurd (omega arith)

single-AllSorted : (k : ℕ) → k < 4 → IsSorted (leq days) (osi_s.SortIndex.slice (k * 1) 1 four)
single-AllSorted zero h = (tt, tt)
single-AllSorted (suc zero) h = (tt, tt)
single-AllSorted (suc (suc zero)) h = (tt, tt)
single-AllSorted (suc (suc (suc zero))) h = (tt, tt)
single-AllSorted (suc (suc (suc (suc k)))) h = absurd (omega arith)

chunks_partition_example :
    (holders 5000 (chunks 4096 4096 8200) ≡ 1) × AllPaged 4096 (chunks 4096 4096 8200)
chunks_partition_example =
    chunks_partition 4096 4096 8200 5000 (omega arith) (omega arith) (omega arith)

-- Two chunks of four entries.
abbrev later_four : List Entry
later_four = entry 5 3 ∷ entry 1 5 ∷ entry 7 7 ∷ entry 2 8 ∷ []

-- The threads' own works first, then the claimed ones.
abbrev by_number : ℕ → Schedule
by_number n = record { blocks_order = block_works 1 4; pairs_order = λ s m. pair_works 1 m }

by_number-IsSchedule : (n : ℕ) → IsSchedule one_each (by_number n)
by_number-IsSchedule n = record { blocks_as = λ k. refl; pairs_as = λ s m k. refl }

main-InChunks_example :
    (out : List Entry) × (main (leq days) qsort by_number 64 1 64 4 1 136 (four ++ later_four)
      ≡ finished out)
    × InChunks (leq days) 4 (four ++ later_four) out
unfolding check_arguments refused and_loop
main-InChunks_example =
    main-InChunks days qsort by_number 64 1 64 4 1 136 2 one_each (four ++ later_four) qsort-Sorts
      refl by_number-IsSchedule (omega arith) (omega arith) (omega arith) (omega arith)
      (omega arith) (omega arith)

main_unsorted_example :
    (out : List Entry) × (main (leq days) qsort by_number 64 1 64 4 1 136 (four ++ later_four)
      ≡ finished out)
    × ¬ IsSorted (leq days) out
unfolding check_arguments refused and_loop cmp_index_s
main_unsorted_example =
    main_unsorted days qsort by_number 64 1 64 4 1 136 1 one_each four later_four (entry 9 1)
      (entry 5 3) qsort-Sorts refl by_number-IsSchedule (omega arith) (omega arith) (omega arith)
      (omega arith) (omega arith) (omega arith) (omega arith) mem-cons_self mem-cons_self refl

-- 1 March 2024, thirteen hours, four minutes and five seconds.
abbrev afternoon : Tm
afternoon = tm 124 2 1 13 4 5

afternoon_date : date_of afternoon ≡ days_after 45350 new_century
unfolding date_of days_after next_day
afternoon_date = refl

-- The number of the first day of the modified Julian days, whose day 15020 is 1 January 1900.
first_day : days_after 15020 (date 1858 11 17) ≡ new_century
unfolding days_after next_day
first_day = refl

mjd_max-days_after_example :
    (current_mjd afternoon ≡ 60370 * 86400 + 47045 + 43200) × (mjd_max afternoon ≡ 60370)
unfolding seconds
mjd_max-days_after_example = mjd_max-days_after afternoon 45350 afternoon_date (omega arith)

days_after-julian_number_example :
    julian_number (days_after 366 (date 2024 1 1)) ≡ julian_number (date 2024 1 1) + 366
unfolding IsDate
days_after-julian_number_example = days_after-julian_number 366 (date 2024 1 1) (ground arith)
