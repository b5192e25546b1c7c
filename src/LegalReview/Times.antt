-- ===== src/LegalReview/Times.antt =====
-- legal-ruleset-review.mjs: ISO times in UTC, as `isoTime` reads them.
use air_call_demo_recording.Base.{
  ℕ, ◌+◌, ◌-◌, ◌*◌, ◌/◌, ◌%◌, ◌≡◌, refl, Bool, true, false, not, ◌&&◌, ◌||◌, Option, none, some,
  List, [], ◌∷◌, ltb, leb, ◌==◌, if◌then◌else◌, get_elem?, all,
}
use air_call_demo_recording.Base.Text.{Text}
use air_call_demo_recording.Base.Text.Patterns.{is_digit}
use air_call_demo_recording.Js.{Value, str}

abbrev digit : ℕ → ℕ
digit c = c - b'0'

abbrev pair : ℕ → ℕ → ℕ
pair a b = digit a * 10 + digit b

abbrev is_nil : Text → Bool
is_nil [] = true
is_nil _ = false

-- One to three digits, filled up with zeros, and the end.
unfoldable pub fraction : Text → Option ℕ
fraction (a ∷ z ∷ []) = if is_digit a && z == b'Z' then some (digit a * 100) else none
fraction (a ∷ b ∷ z ∷ []) =
    if is_digit a && is_digit b && z == b'Z' then some (pair a b * 10) else none
fraction (a ∷ b ∷ c ∷ z ∷ []) =
    if is_digit a && is_digit b && is_digit c && z == b'Z'
    then some (pair a b * 10 + digit c)
    else none
fraction _ = none

unfoldable pub millis : Text → Option ℕ
millis [] = none
millis (c ∷ rest) =
    if c == b'Z' && is_nil rest then some 0 else if c == b'.' then fraction rest else none

unfoldable pub is_leap : ℕ → Bool
is_leap y = y % 4 == 0 && not (y % 100 == 0) || y % 400 == 0

-- The days of a year before its months, from the first on, and of the whole year; no leap day.
abbrev month_table : List ℕ
month_table = 0 ∷ 31 ∷ 59 ∷ 90 ∷ 120 ∷ 151 ∷ 181 ∷ 212 ∷ 243 ∷ 273 ∷ 304 ∷ 334 ∷ 365 ∷ []

abbrev or_zero : Option ℕ → ℕ
or_zero none = 0
or_zero (some n) = n

unfoldable pub days_before_month : ℕ → ℕ
days_before_month m = or_zero (get_elem? month_table (m - 1))

abbrev leap_day : ℕ → ℕ → ℕ
leap_day y m = if is_leap y && ltb 2 m then 1 else 0

unfoldable pub days_in_month : ℕ → ℕ → ℕ
days_in_month y m =
    days_before_month (m + 1) + leap_day y (m + 1) - (days_before_month m + leap_day y m)

unfoldable pub days_before_year : ℕ → ℕ
days_before_year y = 365 * y + (y + 3) / 4 - (y + 99) / 100 + (y + 399) / 400

unfoldable pub time_of : ℕ → ℕ → ℕ → ℕ → ℕ → ℕ → ℕ → ℕ
time_of y m d hour minute second ms =
    (((days_before_year y + days_before_month m + leap_day y m + (d - 1)) * 24 + hour) * 60
        + minute)
      * 60000
    + second * 1000
    + ms

-- A date and a time that exist; any other reads back as another text.
abbrev pub checked : ℕ → ℕ → ℕ → ℕ → ℕ → ℕ → Option ℕ → Option ℕ
checked y m d hour minute second none = none
checked y m d hour minute second (some ms) =
    if leb 1 m
      && leb m 12
      && leb 1 d
      && leb d (days_in_month y m)
      && leb hour 23
      && leb minute 59
      && leb second 59
    then some (time_of y m d hour minute second ms)
    else none

unfoldable pub iso_time : Text → Option ℕ
iso_time
      (y1 ∷ y2 ∷ y3 ∷ y4 ∷ d1 ∷ m1 ∷ m2 ∷ d2 ∷ a1 ∷ a2 ∷ t ∷ h1 ∷ h2 ∷ c1 ∷ n1 ∷ n2 ∷ c2 ∷ s1 ∷ s2
        ∷ rest) =
    if all is_digit (y1 ∷ y2 ∷ y3 ∷ y4 ∷ m1 ∷ m2 ∷ a1 ∷ a2 ∷ h1 ∷ h2 ∷ n1 ∷ n2 ∷ s1 ∷ s2 ∷ [])
      && d1 == b'-'
      && d2 == b'-'
      && t == b'T'
      && c1 == b':'
      && c2 == b':'
    then checked (pair y1 y2 * 100 + pair y3 y4) (pair m1 m2) (pair a1 a2) (pair h1 h2) (pair n1 n2)
        (pair s1 s2) (millis rest)
    else none
iso_time _ = none

-- The milliseconds from the beginning of the year 0 to that of 1970.
abbrev pub epoch : ℕ
epoch = 62167219200000

abbrev pub not_after : Option ℕ → ℕ → Bool
not_after none now = false
not_after (some t) now = leb t (epoch + now)

abbrev pub is_after : Option ℕ → ℕ → Bool
is_after none now = false
is_after (some t) now = ltb (epoch + now) t

-- `pastOrPresentIso` and `futureIso`. No text of more than 30 units is an ISO time here.
unfoldable pub past_or_present : Value → ℕ → Bool
past_or_present (str t) now = not_after (iso_time t) now
past_or_present _ now = false

unfoldable pub future : Value → ℕ → Bool
future (str t) now = is_after (iso_time t) now
future _ now = false

-- The epoch is the beginning of 1970.
epoch_lem : time_of 1970 1 1 0 0 0 0 ≡ epoch
unfolding time_of days_before_year days_before_month is_leap
epoch_lem = refl
