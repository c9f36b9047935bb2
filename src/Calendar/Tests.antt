-- ===== src/Calendar/Tests.antt =====
-- Runs of the functions of the calendar.
use easy_network.Base.{◌≡◌, refl, true, false, codes, lt_wf}
use native.Mathlib.Decide.{dec_lt}
use easy_network.Number.{to_string, digits_before}
use easy_network.Calendar.{
  Tm, padded, padded_month, get_current_date, get_current_day_time, get_current_day_week, week_days,
}

-- A Sunday.
abbrev moment : Tm
moment = record {
  tm_sec = 5;
  tm_min = 30;
  tm_hour = 9;
  tm_mday = 3;
  tm_mon = 8;
  tm_year = 123;
  tm_wday = 0;
}

date_run : get_current_date false moment ≡ codes "03.09.2023"
unfolding get_current_date padded padded_month to_string digits_before lt_wf dec_lt
date_run = refl

american_date_run : get_current_date true moment ≡ codes "09.03.2023"
unfolding get_current_date padded padded_month to_string digits_before lt_wf dec_lt
american_date_run = refl

time_run : get_current_day_time moment ≡ codes "09.30.05"
unfolding get_current_day_time padded to_string digits_before lt_wf dec_lt
time_run = refl

week_run : get_current_day_week moment ≡ codes "Monday"
unfolding get_current_day_week week_days
week_run = refl
