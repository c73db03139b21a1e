-- ===== src/Clock.antt =====
-- What the code takes from django.utils.timezone: the current time, and the calendar day of a time
-- in the local zone. Times are seconds and days are day numbers.
use ki_use_case_radar.Common.{ℕ, Option, none, some}

pub record Clock : Type 0 where
  pub now : ℕ
  pub local_date : ℕ → ℕ

-- `timezone.localdate()`
abbrev pub today : Clock → ℕ
today c = c.local_date c.now

-- `timezone.localdate(value)`, which is today for None
abbrev pub date_of : Clock → Option ℕ → ℕ
date_of c none = today c
date_of c (some t) = c.local_date t
