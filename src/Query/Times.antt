-- ===== src/Query/Times.antt =====
-- The bounds of a request's time range in src/server/handlers/metrics.rs. The calendar is a library's.
use toki_sync.Prelude.{
  ℕ, ◌^◌, ◌≤◌, ◌<◌, ◌≡◌, refl, Bool, true, false, ◌&&◌, not, Option, none, some, Str, length, ltb,
  leb, ◌==◌, if◌then◌else◌, arith, ℤ, pos, negsuc, all, ◌+ℤ◌, ◌*ℤ◌, Result, ok, err, ◌>>=◌,
  pos_part, neg_part, ◌∙◌, ap,
}
use toki_sync.Query.{QueryError, bad_request}
use toki_sync.Query.Numbers.{is_digit, parse_i64}

-- `i64` products and sums that are checked for overflow.
abbrev pub in_i64 : ℤ → Option ℤ
in_i64 (pos n) = if ltb n (2 ^ 63) then some (pos n) else none
in_i64 (negsuc n) = if ltb n (2 ^ 63) then some (negsuc n) else none

-- What the calendar library reads: a date as its day since 1970-01-01, a date with a time as its second
-- since then.
pub record Calendar : Type 0 where
  pub parse_date : Str → Option ℤ
  pub parse_date_time : Str → Option ℤ

-- What a local time is in a zone: one instant, two of them, the earlier first, or none.
pub data LocalResult : Type 0 where
  one : ℤ → LocalResult
  ambiguous : ℤ → ℤ → LocalResult
  nowhere : LocalResult

-- The local date of an instant in milliseconds, as its day since 1970-01-01 (`none` out of the range of
-- the library), the weekday of a day from Monday, and the instants, in seconds, of a local time, which
-- is given by its second since 1970-01-01.
pub record Zone : Type 0 where
  pub local_day : ℤ → Option ℤ
  pub weekday : ℤ → ℕ
  pub from_local : ℤ → LocalResult

-- `LocalResult::single`
abbrev pub single : LocalResult → Option ℤ
single (one t) = some t
single (ambiguous a b) = none
single nowhere = none

-- Without a time zone, local times are UTC.
abbrev pub instant : Option Zone → ℤ → Option ℤ
instant none time = some time
instant (some tz) time = single (tz.from_local time)

-- An eight-byte text is a date, a fourteen-byte one a date with a time; shorter numbers are seconds.
abbrev pub as_seconds : Str → Option ℤ → Option ℤ
as_seconds s none = none
as_seconds s (some ts) =
    if not (length s == 8) && not (length s == 14) && leb (length s) 13 then some ts else none

abbrev pub date_seconds : Bool → ℤ → ℤ
date_seconds true d = d *ℤ pos 86400 +ℤ pos 86399
date_seconds false d = d *ℤ pos 86400

abbrev pub of_date : Option Zone → Bool → Option ℤ → Option (Result ℤ QueryError)
of_date tz is_end none = none
of_date tz is_end (some d) = elim (instant tz (date_seconds is_end d)) [
  | none ↦ some (err bad_request)
  | some t ↦ some (ok t)
]

abbrev pub of_date_time : Option Zone → Option ℤ → Option (Result ℤ QueryError)
of_date_time tz none = none
of_date_time tz (some t) = elim (instant tz t) [
  | none ↦ some (err bad_request)
  | some u ↦ some (ok u)
]

abbrev pub or_invalid : Option (Result ℤ QueryError) → Result ℤ QueryError
or_invalid none = err bad_request
or_invalid (some r) = r

abbrev pub calendar_time : Calendar → Str → Bool → Option Zone → Result ℤ QueryError
calendar_time cal s is_end tz =
    if length s == 8
    then or_invalid (of_date tz is_end (cal.parse_date s))
    else if length s == 14
    then or_invalid (of_date_time tz (cal.parse_date_time s))
    else err bad_request

abbrev pub seconds_or : Result ℤ QueryError → Option ℤ → Result ℤ QueryError
seconds_or r none = r
seconds_or r (some ts) = ok ts

unfoldable pub parse_toki_time : Calendar → Str → Bool → Option Zone → Result ℤ QueryError
parse_toki_time cal s is_end tz =
    seconds_or (calendar_time cal s is_end tz) (as_seconds s (parse_i64 s))

abbrev pub checked : Option ℤ → Result ℤ QueryError
checked none = err bad_request
checked (some z) = ok z

-- The end of a whole date is the midnight after it.
abbrev pub whole_date : Str → Bool → ℤ → Result ℤ QueryError
whole_date s is_end millis =
    if is_end && length s == 8 then checked (in_i64 (millis +ℤ pos 1000)) else ok millis

unfoldable pub parse_toki_bound_ms : Calendar → Str → Bool → Option Zone → Result ℤ QueryError
parse_toki_bound_ms cal s is_end tz =
    if length s == 13 && all is_digit s
    then checked (parse_i64 s)
    else parse_toki_time cal s is_end tz >>= λ seconds.
        checked (in_i64 (seconds *ℤ pos 1000)) >>= whole_date s is_end

calendar_date :
    (cal : Calendar) (s : Str) (is_end : Bool) (d : ℤ)
    → length s ≡ 8
    → cal.parse_date s ≡ some d
    → parse_toki_time cal s is_end none ≡ ok (date_seconds is_end d)
unfolding parse_toki_time
calendar_date cal s is_end d l e =
    ap (seconds_or (calendar_time cal s is_end none)) (not_seconds (parse_i64 s)) ∙ rw (l, e) refl
  where
    not_seconds : (o : Option ℤ) → as_seconds s o ≡ none
    not_seconds none = refl
    not_seconds (some ts) = rw l refl

bound_date :
    (cal : Calendar) (s : Str) (is_end : Bool) (d : ℤ)
    → length s ≡ 8
    → cal.parse_date s ≡ some d
    → parse_toki_bound_ms cal s is_end none
      ≡ checked (in_i64 (date_seconds is_end d *ℤ pos 1000)) >>= whole_date s is_end
unfolding parse_toki_bound_ms
bound_date cal s is_end d l e = rw (calendar_date cal s is_end d l e, l) refl

day_start :
    (d : ℤ)
    → pos_part d ≤ 100000000
    → neg_part d ≤ 100000000
    → in_i64 (d *ℤ pos 86400 *ℤ pos 1000) ≡ some (d *ℤ pos 86400000)
unfolding ◌*ℤ◌
day_start d h k = ground arith

day_end :
    (d : ℤ)
    → pos_part d ≤ 100000000
    → neg_part d ≤ 100000000
    → in_i64 ((d *ℤ pos 86400 +ℤ pos 86399) *ℤ pos 1000) ≡ some (d *ℤ pos 86400000 +ℤ pos 86399000)
unfolding ◌*ℤ◌ ◌+ℤ◌
day_end d h k = ground arith

day_after :
    (d : ℤ)
    → pos_part d ≤ 100000000
    → neg_part d ≤ 100000000
    → in_i64 (d *ℤ pos 86400000 +ℤ pos 86399000 +ℤ pos 1000) ≡ some ((d +ℤ pos 1) *ℤ pos 86400000)
unfolding ◌*ℤ◌ ◌+ℤ◌
day_after d h k = ground arith

next_pos : (d : ℤ) → pos_part d < 100000000 → pos_part (d +ℤ pos 1) ≤ 100000000
unfolding ◌+ℤ◌
next_pos d h = ground arith

next_neg : (d : ℤ) → neg_part d ≤ 100000000 → neg_part (d +ℤ pos 1) ≤ 100000000
unfolding ◌+ℤ◌
next_neg d h = ground arith

-- Without a time zone, the end bound of a date is the start bound of the next date, for dates within
-- a hundred million days of 1970: dates one after another leave no gap and do not overlap.
pub bound_dates_adjoin :
    (cal : Calendar) (s s' : Str) (d : ℤ)
    → length s ≡ 8
    → length s' ≡ 8
    → cal.parse_date s ≡ some d
    → cal.parse_date s' ≡ some (d +ℤ pos 1)
    → pos_part d < 100000000
    → neg_part d ≤ 100000000
    → parse_toki_bound_ms cal s true none ≡ parse_toki_bound_ms cal s' false none
bound_dates_adjoin cal s s' d l l' e e' h k =
    rw
      (
        bound_date cal s true d l e,
        bound_date cal s' false (d +ℤ pos 1) l' e',
        day_end d (omega (arith, h)) k,
        day_start (d +ℤ pos 1) (next_pos d h) (next_neg d k),
        l,
        day_after d (omega (arith, h)) k,
      )
      refl
