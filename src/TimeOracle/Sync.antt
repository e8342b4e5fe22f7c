-- ===== src/TimeOracle/Sync.antt =====
-- The offset of server/src/time_oracle.rs is exact: a clock that is read with it tells the time of
-- the NTP server.
use stss.Prelude.{
  ℕ, ◌+◌, ◌*◌, ◌^◌, ◌≤◌, ◌<◌, ◌≡◌, ok, err, Result, ℤ, pos, negsuc, ◌≤ℤ◌, ◌+ℤ◌, ◌-ℤ◌, i64_max,
  i64_min, arith,
}
use stss.TimeOracle.{
  TimeOracleError, time_went_backwards, generic_network_error, nanos_per_sec, time_now,
  compute_offset,
}

abbrev pub OffsetPost : ℕ → ℕ → ℤ → Result TimeOracleError ℤ → Type 0
OffsetPost secs nanos local (ok offset) =
    (secs * nanos_per_sec + nanos < 2 ^ 64)
    × (pos 0 ≤ℤ local)
    × (i64_min ≤ℤ offset)
    × (offset ≤ℤ i64_max)
OffsetPost secs nanos local (err (generic_network_error _)) = 2 ^ 64 ≤ secs * nanos_per_sec + nanos
OffsetPost secs nanos local (err time_went_backwards) =
    (secs * nanos_per_sec + nanos < 2 ^ 64) × (local ≤ℤ negsuc 0)
OffsetPost secs nanos local (err _) = ⊥

-- An offset is returned exactly if the NTP time is below 2 ^ 64 nanoseconds and the local clock is
-- not before the epoch, and it fits `i64`; each of the two errors has its one cause.
pub compute_offset-OffsetPost :
    (secs nanos : ℕ) (local : ℤ) → OffsetPost secs nanos local (compute_offset secs nanos local)
unfolding compute_offset ◌-ℤ◌
compute_offset-OffsetPost secs nanos (pos n) = ground arith
compute_offset-OffsetPost secs nanos (negsuc n) = ground arith

-- With the offset that was computed at a local clock below 2 ^ 64 nanoseconds, that clock tells
-- the NTP time, if the two differ by less than 2 ^ 63 nanoseconds (292 years).
pub time_now-compute_offset :
    (secs nanos local : ℕ) (offset : ℤ)
    → local < 2 ^ 64
    → compute_offset secs nanos (pos local) ≡ ok offset
    → secs * nanos_per_sec + nanos < local + 2 ^ 63
    → local < secs * nanos_per_sec + nanos + 2 ^ 63
    → time_now (pos local) offset ≡ pos (secs * nanos_per_sec + nanos)
unfolding compute_offset time_now ◌-ℤ◌ ◌+ℤ◌
time_now-compute_offset secs nanos local offset small h near_low near_high = ground arith
