-- ===== src/Helpers/Time.antt =====
-- app/src/helpers/time.js, and the dates of the language.
use superfluid_aragon_app.Prelude.{
  ℕ, ℤ, pos, ◌*◌, Option, none, some, pos_part, neg_part, leb, ◌+◌, if◌then◌else◌,
}

abbrev pub minute : ℕ
minute = 60

abbrev pub hour : ℕ
hour = 60 * minute

abbrev pub day : ℕ
day = 24 * hour

abbrev pub week : ℕ
week = 7 * day

abbrev pub month : ℕ
month = 30 * day

abbrev pub year : ℕ
year = 365 * day

-- A `Date`: its milliseconds, or an invalid one.
pub data Date : Type 0 where
  at : ℤ → Date
  invalid : Date

-- The language's bound on a date's milliseconds.
abbrev pub date_limit : ℕ
date_limit = 8640000000000000

abbrev pub new_date : ℤ → Date
new_date ms = if leb (pos_part ms + neg_part ms) date_limit then at ms else invalid

-- A missing timestamp times 1000 is no number.
unfoldable pub timestamp_to_date : Option ℕ → Date
timestamp_to_date none = invalid
timestamp_to_date (some timestamp) = new_date (pos (timestamp * 1000))
