-- ===== src/SortIndex/Calendar.antt =====
-- The day number of `current_mjd` in lab06/src/gen.c, against the calendar.
pub mod Today
use osi_s.Prelude.{
  ◌^◌, Perm, take-append-drop, length-replicate, ℕ, zero, suc, ◌+◌, ◌-◌, ◌*◌, ◌/◌, ◌%◌, ◌≤◌, ◌<◌,
  min, ◌≡◌, refl, sym, ap, ap₂, ◌∙◌, subst, ◌≢◌, ◌↔◌, ◌⊎◌, inl, inr, Bool, true, false, not, ◌&&◌,
  ◌||◌, Option, none, some, List, [], ◌∷◌, ◌++◌, append-nil, append_assoc, map, reverse, arith, ltb,
  leb, ◌==◌, if◌then◌else◌, ==_iff, Bool-cases, Option-cases, length, take, drop, length-append,
  length-take, length-drop, Text, bytes, same, starts_with, has, before, before_all, has-take,
  take_all, take-append_le, dec_lt, dec_le, fgets, same_iff, starts_with-append, starts_with_self,
  drop_prefix, ℕ_discrete, if_both, take-append, starts_with_split, same_path, has-append,
  fgets-line, fgets_cut, before-append, is_space, is_digit, all_digits, read_digits, scan_number,
  scan_number-append, skip_spaces,
}

-- `JDN` for a year, a month from 1 to 12 and a day.
unfoldable pub julian_day : ℕ → ℕ → ℕ → ℕ
julian_day year month day =
    let a = (14 - month) / 12 in
    let y = year + 4800 - a in
    let m = month + 12 * a - 3 in
    day + (153 * m + 2) / 5 + 365 * y + y / 4 - y / 100 + y / 400 - 32045

abbrev pub is_leap : ℕ → Bool
is_leap year = year % 4 == 0 && (not (year % 100 == 0) || year % 400 == 0)

-- The length of a month.
abbrev pub month_days : ℕ → ℕ → ℕ
month_days year month =
    if month == 2
    then (if is_leap year then 29 else 28)
    else if month == 4 || (month == 6 || (month == 9 || month == 11))
    then 30
    else 31

-- A day of the calendar.
pub data Date : Type 0 where
  date : (year month day : ℕ) → Date

unfoldable pub IsDate : Date → Type 0
IsDate (date year month day) =
    (1 ≤ month) × (month ≤ 12) × (1 ≤ day) × (day ≤ month_days year month)

-- The day after.
unfoldable pub next_day : Date → Date
next_day (date year month day) =
    if ltb day (month_days year month)
    then date year month (day + 1)
    else if month == 12
    then date (year + 1) 1 1
    else date year (month + 1) 1

-- The day `n` days after.
unfoldable pub days_after : ℕ → Date → Date
days_after zero d = d
days_after (suc n) d = next_day (days_after n d)

unfoldable pub julian_number : Date → ℕ
julian_number (date year month day) = julian_day year month day

leap_step :
    (y : ℕ)
    → (y + 4800) / 4 + (y + 4799) / 100 + (y + 4800) / 400
      ≡ (y + 4799) / 4 + (y + 4800) / 100 + (y + 4799) / 400 + (if is_leap y then 1 else 0)
leap_step y = ground arith

same_month :
    (year month day : ℕ)
    → 1 ≤ month
    → julian_day year month (day + 1) ≡ julian_day year month day + 1
unfolding julian_day
same_month year month day h = omega arith

-- The twelve ends of a month.
last_day :
    (year month : ℕ)
    → 1 ≤ month
    → month < 12
    → julian_day year (month + 1) 1 ≡ julian_day year month (month_days year month) + 1
unfolding julian_day
last_day year (suc zero) h k = omega arith
last_day year (suc (suc zero)) h k = grind (arith, leap_step year)
last_day year (suc (suc (suc zero))) h k = omega arith
last_day year (suc (suc (suc (suc zero)))) h k = omega arith
last_day year (suc (suc (suc (suc (suc zero))))) h k = omega arith
last_day year (suc (suc (suc (suc (suc (suc zero)))))) h k = omega arith
last_day year (suc (suc (suc (suc (suc (suc (suc zero))))))) h k = omega arith
last_day year (suc (suc (suc (suc (suc (suc (suc (suc zero)))))))) h k = omega arith
last_day year (suc (suc (suc (suc (suc (suc (suc (suc (suc zero))))))))) h k = omega arith
last_day year (suc (suc (suc (suc (suc (suc (suc (suc (suc (suc zero)))))))))) h k = omega arith
last_day year (suc (suc (suc (suc (suc (suc (suc (suc (suc (suc (suc zero))))))))))) h k =
    omega arith
last_day year (suc (suc (suc (suc (suc (suc (suc (suc (suc (suc (suc (suc month)))))))))))) h k =
    absurd (omega arith)
last_day year zero h k = absurd (omega arith)

year_end : (year : ℕ) → julian_day (year + 1) 1 1 ≡ julian_day year 12 31 + 1
unfolding julian_day
year_end year = grind (arith, leap_step year)

month_days_pos : (year month : ℕ) → 1 ≤ month_days year month
month_days_pos year month = ground arith

next_day-IsDate : (d : Date) → IsDate d → IsDate (next_day d)
unfolding next_day IsDate
next_day-IsDate (date year month day) h = elim (Bool-cases (ltb day (month_days year month))) [
  | inl e ↦ ground (arith, e)
  | inr e ↦ elim (Bool-cases (month == 12)) [
    | inl k ↦ ground (arith, e, k)
    | inr k ↦ ground (arith, e, k, month_days_pos year (month + 1))
  ]
]

next_day-inside :
    (year month day : ℕ)
    → ltb day (month_days year month) ≡ true
    → next_day (date year month day) ≡ date year month (day + 1)
unfolding next_day
next_day-inside year month day e = rw (e) refl

next_day-month :
    (year month day : ℕ)
    → ltb day (month_days year month) ≡ false
    → month == 12 ≡ false
    → next_day (date year month day) ≡ date year (month + 1) 1
unfolding next_day
next_day-month year month day e k = rw (e, k) refl

next_day-year :
    (year month day : ℕ)
    → ltb day (month_days year month) ≡ false
    → month == 12 ≡ true
    → next_day (date year month day) ≡ date (year + 1) 1 1
unfolding next_day
next_day-year year month day e k = rw (e, k) refl

-- From one day to the next, the day number grows by 1.
pub next_day-julian_number :
    (d : Date) → IsDate d → julian_number (next_day d) ≡ julian_number d + 1
unfolding julian_number IsDate
next_day-julian_number (date year month day) h =
    elim (Bool-cases (ltb day (month_days year month))) [
      | inl e ↦ ap julian_number (next_day-inside year month day e) ∙ same_month year month day h.0
      | inr e ↦ elim (Bool-cases (month == 12)) [
        | inl k ↦
            ap julian_number (next_day-year year month day e k)
            ∙ year_end year
            ∙ ap₂ (λ m d. julian_day year m d + 1) (ground (arith, k)) (ground (arith, e, k))
        | inr k ↦
            ap julian_number (next_day-month year month day e k)
            ∙ last_day year month h.0 (ground (arith, k))
            ∙ ap (λ d. julian_day year month d + 1) (ground (arith, e))
      ]
    ]

pub days_after-IsDate : (n : ℕ) (d : Date) → IsDate d → IsDate (days_after n d)
unfolding days_after
days_after-IsDate zero d h = h
days_after-IsDate (suc n) d h = next_day-IsDate (days_after n d) (days_after-IsDate n d h)

-- From a valid date, `n` days later the day number is larger by `n`: the formula counts the days
-- of the calendar, its leap years included.
pub days_after-julian_number :
    (n : ℕ) (d : Date) → IsDate d → julian_number (days_after n d) ≡ julian_number d + n
unfolding days_after
days_after-julian_number zero d h = omega arith
days_after-julian_number (suc n) d h =
    next_day-julian_number (days_after n d) (days_after-IsDate n d h)
    ∙ ap (λ k. k + 1) (days_after-julian_number n d h)
    ∙ omega arith
