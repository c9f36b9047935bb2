-- ===== src/Calendar.antt =====
-- The texts that EN_Functions.cpp makes of the clock: the fields of `tm` are arguments.
mod Tests
use easy_network.Base.{
  ℕ, ◌+◌, Bool, true, false, List, [], ◌∷◌, ◌++◌, Bytes, codes, Option, none, some, get_elem?, ltb,
  if◌then◌else◌,
}
use easy_network.Number.{to_string}

-- `localtime(&now)`
pub record Tm : Type 0 where
  pub tm_sec : ℕ
  pub tm_min : ℕ
  pub tm_hour : ℕ
  pub tm_mday : ℕ
  pub tm_mon : ℕ
  pub tm_year : ℕ
  pub tm_wday : ℕ

-- A number with a zero in front where it has one digit.
pub padded : ℕ → Bytes
padded n = if ltb n 10 then codes "0" ++ to_string n else to_string n

-- The month is tested before one is added.
pub padded_month : ℕ → Bytes
padded_month m = if ltb m 9 then codes "0" ++ to_string (m + 1) else to_string (m + 1)

-- The cases of the switch, from 0 on.
pub week_days : List Bytes
week_days =
    codes "Monday"
    ∷ codes "Tuesday"
    ∷ codes "Wednesday"
    ∷ codes "Thursday"
    ∷ codes "Friday"
    ∷ codes "Saturday"
    ∷ codes "Sunday"
    ∷ []

pub get_current_day_week : Tm → Bytes
get_current_day_week t = elim (get_elem? week_days t.tm_wday) [ none ↦ [] | some day ↦ day ]

pub get_current_date : Bool → Tm → Bytes
get_current_date is_american_format t =
    let month = padded_month t.tm_mon ++ codes "." in
    let day = padded t.tm_mday ++ codes "." in
    (if is_american_format then month ++ day else day ++ month) ++ to_string (1900 + t.tm_year)

pub get_current_day_time : Tm → Bytes
get_current_day_time t =
    padded t.tm_hour ++ (codes "." ++ (padded t.tm_min ++ (codes "." ++ padded t.tm_sec)))
