-- ===== src/Cli/Times.antt =====
-- The dates that client_cli/src/main.rs prints. The crate `chrono` is a parameter.
use Prim.Native.String.{◌++◌}
use stss.Prelude.{
  ℕ, ◌≡◌, ◌<◌, ◌-◌, ◌^◌, ◌/◌, ◌%◌, arith, ltb, Option, none, some, String, ℤ, pos, negsuc,
  if◌then◌else◌, show_i64, show_u32,
}
use stss.Protocol.{Timestamp, HistoryRecord}

-- `DateTime::from_timestamp`, of seconds and nanoseconds, and `format`.
pub record Calendar : Type 1 where
  pub DateTime : Type 0
  pub from_timestamp : ℤ → ℕ → Option DateTime
  pub format : DateTime → String → String

-- What the crate documents: no date is later than `MAX_UTC`, at the end of the year 262142.
pub record IsCalendar (c : Calendar) : Type 0 where
  pub from_timestamp_max : (s n : ℕ) → 8210266876799 < s → c.from_timestamp (pos s) n ≡ none

-- `as i64` on `u128`.
abbrev pub wrap_i64 : ℕ → ℤ
wrap_i64 n = if ltb n (2 ^ 63) then pos n else negsuc (2 ^ 64 - 1 - n)

abbrev pub as_i64 : ℕ → ℤ
as_i64 n = wrap_i64 (n % 2 ^ 64)

-- `try_into().unwrap_or_else(…)`: zero, with a warning.
abbrev pub i64_or_zero : ℕ → ℤ
i64_or_zero n = if ltb n (2 ^ 63) then pos n else pos 0

module _ (c : Calendar) where
  abbrev pub date_or : Option c.DateTime → String → String → String
  date_or none text other = other
  date_or (some datetime) text other = c.format datetime text

  unfoldable pub timestamp_format : Timestamp → String
  timestamp_format ts =
      let ts_seconds = as_i64 (ts.nanos / 1000000000) in
      let ts_nanos = ts.nanos % 1000000000 in
      date_or (c.from_timestamp ts_seconds ts_nanos) "%Y-%m-%d %H:%M:%S.%f"
        ("invalid Epoch: " ++ show_i64 ts_seconds ++ "s " ++ show_u32 ts_nanos ++ "ns")

  -- The time of a record in the table of "History".
  unfoldable pub time_str : HistoryRecord → String
  time_str record_of =
      let ts_seconds = i64_or_zero record_of.timestamp.nanos in
      date_or (c.from_timestamp ts_seconds 0) "%Y-%m-%d %H:%M:%S"
        ("Invalid Epoch: " ++ show_i64 ts_seconds)

  -- The table of "History" has no date for any record from 8210.266876800 seconds after the Unix epoch on, up
  -- to the year 2262: it takes the nanoseconds of the record for seconds, and prints that number as an
  -- invalid epoch.
  pub time_str_no_date :
      (r : HistoryRecord)
      → IsCalendar c
      → 8210266876799 < r.timestamp.nanos
      → r.timestamp.nanos < 2 ^ 63
      → time_str r ≡ "Invalid Epoch: " ++ show_i64 (pos r.timestamp.nanos)
  unfolding time_str
  time_str_no_date r law late early =
      let q = law.from_timestamp_max r.timestamp.nanos 0 late in ground (arith, q, early)
