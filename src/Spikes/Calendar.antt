-- ===== src/Spikes/Calendar.antt =====
-- What spikes/nl2sql-accuracy/seed.py uses of `datetime`: days counted from `DATA_START`, hours and
-- minutes, and `strftime("%Y-%m-%d %H:%M:%S")`.
use chat_chart.Base.{
  ℕ, zero, suc, ◌+◌, ◌-◌, ◌/◌, ◌%◌, Bool, ◌&&◌, ◌||◌, not, if◌then◌else◌, ltb, nat_eq, [], ◌∷◌,
  ◌++◌, Text, codes,
}

is_leap : ℕ → Bool
is_leap y = nat_eq (y % 4) 0 && (not (nat_eq (y % 100) 0) || nat_eq (y % 400) 0)

month_days : ℕ → ℕ → ℕ
unfolding is_leap
month_days y m =
    if nat_eq m 2
    then (if is_leap y then 29 else 28)
    else if nat_eq m 4 || nat_eq m 6 || nat_eq m 9 || nat_eq m 11
    then 30
    else 31

-- The date that lies some days after the first of a month, with one unit of fuel for each month's end.
-- Since a month has a day, the days are fuel enough.
date_from : ℕ → (year month : ℕ) → ℕ → ℕ × ℕ × ℕ
unfolding month_days
date_from zero y m d = (y, m, d + 1)
date_from (suc fuel) y m d =
    let later =
      date_from fuel (if nat_eq m 12 then y + 1 else y) (if nat_eq m 12 then 1 else m + 1)
        (d - month_days y m) in
    if ltb d (month_days y m) then (y, m, d + 1) else later

two_digits : ℕ → Text
two_digits n = (48 + n / 10 % 10) ∷ (48 + n % 10) ∷ []

-- A moment, counted from the beginning of 2025-01-01.
pub record Moment : Type 0 where
  pub day : ℕ
  pub hour : ℕ
  pub minute : ℕ

-- `strftime("%Y-%m-%d %H:%M:%S")`
unfoldable pub time_text : Moment → Text
unfolding date_from two_digits
time_text t =
    let (y, m, d) = date_from t.day 2025 1 t.day in
    two_digits (y / 100)
    ++ (two_digits y
        ++ (b'-'
            ∷ (two_digits m
                ++ (b'-'
                    ∷ (two_digits d
                        ++ (b' '
                            ∷ (two_digits t.hour
                                ++ (b':' ∷ (two_digits t.minute ++ codes ":00")))))))))

-- `t + timedelta(days=days, hours=hours)`
unfoldable pub add_time : (days hours : ℕ) → Moment → Moment
add_time days hours t = record t {
  day = t.day + days + (t.hour + hours) / 24;
  hour = (t.hour + hours) % 24;
}
