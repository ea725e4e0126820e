-- ===== src/SortIndex/Calendar/Today.antt =====
-- The present day of lab06/src/gen.c: `current_mjd` and the latest day that the generator draws.
use osi_s.Prelude.{ℕ, ◌+◌, ◌-◌, ◌*◌, ◌/◌, ◌<◌, ◌≡◌, refl, ap, ◌∙◌, arith, ltb, if◌then◌else◌}
use osi_s.SortIndex.Calendar.{
  Date, date, IsDate, days_after, julian_day, julian_number, days_after-julian_number,
}

-- The fields of `struct tm` that `gmtime_r` fills in, for a year from 1900 on.
pub data Tm : Type 0 where
  tm : (tm_year tm_mon tm_mday tm_hour tm_min tm_sec : ℕ) → Tm

-- The result of `current_mjd` in seconds, exactly: the C code computes it in days as a `double`.
unfoldable pub current_mjd : Tm → ℕ
current_mjd (tm tm_year tm_mon tm_mday tm_hour tm_min tm_sec) =
    let jdn = julian_day (tm_year + 1900) (tm_mon + 1) tm_mday in
    let day_frac = tm_hour * 3600 + tm_min * 60 + tm_sec in
    let jd = jdn * 86400 + day_frac in jd - (2400000 * 86400 + 43200)

-- The date that the fields name.
unfoldable pub date_of : Tm → Date
date_of (tm tm_year tm_mon tm_mday tm_hour tm_min tm_sec) =
    date (tm_year + 1900) (tm_mon + 1) tm_mday

-- The seconds since midnight.
unfoldable pub seconds : Tm → ℕ
seconds (tm tm_year tm_mon tm_mday tm_hour tm_min tm_sec) = tm_hour * 3600 + tm_min * 60 + tm_sec

-- The latest day that the generator draws, with `floor` as the quotient by the seconds of a day.
unfoldable pub mjd_max : Tm → ℕ
mjd_max now = let mjd_today = current_mjd now in mjd_today / 86400 - 1

abbrev pub new_century : Date
new_century = date 1900 1 1

current_mjd-julian_number :
    (now : Tm)
    → current_mjd now
      ≡ julian_number (date_of now) * 86400 + seconds now - (2400000 * 86400 + 43200)
unfolding current_mjd julian_number date_of seconds
current_mjd-julian_number (tm tm_year tm_mon tm_mday tm_hour tm_min tm_sec) = refl

century_number : julian_number new_century ≡ 2415021
unfolding julian_number julian_day
century_number = refl

century-IsDate : IsDate new_century
unfolding IsDate
century-IsDate = ground arith

-- The number of a day of this calendar, from the days since 1900.
number_since :
    (now : Tm) (n : ℕ)
    → date_of now ≡ days_after n new_century
    → julian_number (date_of now) ≡ 2415021 + n
number_since now n h =
    ap julian_number h
    ∙ days_after-julian_number n new_century century-IsDate
    ∙ ap (λ k. k + n) century_number

-- On the day that is `n` days after 1 January 1900, whose modified Julian day is 15020 + n,
-- `current_mjd` is half a day more than 15020 + n and the part of the day that is over. So the
-- latest day the generator draws is the day before at a time before noon, and this day after noon.
pub mjd_max-days_after :
    (now : Tm) (n : ℕ)
    → date_of now ≡ days_after n new_century
    → seconds now < 86400
    → (current_mjd now ≡ (15020 + n) * 86400 + seconds now + 43200)
      × (mjd_max now ≡ 15020 + n - 1 + (if ltb (seconds now) 43200 then 0 else 1))
unfolding mjd_max
mjd_max-days_after now n h k = ground (arith, current_mjd-julian_number now, number_since now n h)
