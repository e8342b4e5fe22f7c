-- ===== src/TimeOracle.antt =====
-- server/src/time_oracle.rs: the offset to an NTP server, the time that is told with it, and the
-- worker that keeps the offset up to date. A `SystemTime` is the number of nanoseconds since the
-- Unix epoch, in the range of a 64-bit Unix (`i64` seconds). The proofs are in the module below.
pub mod Sync
pub mod Worker
pub mod Bundle
use stss.Net.{SocketAddr}
use stss.Prelude.{
  ℕ, ◌+◌, ◌*◌, ◌-◌, ◌^◌, Bool, ◌&&◌, Option, none, some, String, Result, ok, err, ℤ, pos, negsuc,
  neg_part, pos_part, ◌+ℤ◌, ◌-ℤ◌, leb_ℤ, ltb_ℤ, i64_max, i64_min, ltb, if◌then◌else◌,
}

pub data TimeOracleError : Type 0 where
  socket_set_non_blocking : String → TimeOracleError
  listener_error : SocketAddr → String → TimeOracleError
  listener_conversion_error : String → TimeOracleError
  no_dns_address : String → String → TimeOracleError
  no_address_specified : String → TimeOracleError
  hostname_not_found : String → TimeOracleError
  generic_network_error : String → TimeOracleError
  time_went_backwards : TimeOracleError
  unreliable_port : TimeOracleError

abbrev pub nanos_per_sec : ℕ
nanos_per_sec = 1000000000

abbrev pub system_time_max : ℤ
system_time_max = pos ((2 ^ 63 - 1) * nanos_per_sec + 999999999)

abbrev pub system_time_min : ℤ
system_time_min = negsuc (2 ^ 63 * nanos_per_sec - 1)

abbrev pub in_system_time : ℤ → ℤ → ℤ
in_system_time fallback t =
    if leb_ℤ system_time_min t && leb_ℤ t system_time_max then t else fallback

-- `TimeOracle::time_now` at a local clock and a stored offset; `unsigned_abs` of a negative offset is
-- its `neg_part`.
unfoldable pub time_now : ℤ → ℤ → ℤ
time_now local_now offset =
    if leb_ℤ (pos 0) offset
    then in_system_time local_now (local_now +ℤ pos (pos_part offset))
    else in_system_time local_now (local_now -ℤ pos (neg_part offset))

-- `duration_since(UNIX_EPOCH)`, in nanoseconds; `none` stands for the error.
abbrev pub since_epoch : ℤ → Option ℕ
since_epoch (pos n) = some n
since_epoch (negsuc n) = none

-- `checked_mul` and `checked_add` on `u64`.
abbrev pub in_u64 : ℕ → Option ℕ
in_u64 n = if ltb n (2 ^ 64) then some n else none

unfoldable pub total_nanos : ℕ → ℕ → Option ℕ
total_nanos ntp_secs ntp_nanos = elim (in_u64 (ntp_secs * nanos_per_sec)) [
  | none ↦ none
  | some ns ↦ in_u64 (ns + ntp_nanos)
]

abbrev pub i128_max : ℤ
i128_max = pos (2 ^ 127 - 1)

abbrev pub i128_min : ℤ
i128_min = negsuc (2 ^ 127 - 1)

-- `i128::try_from(u128).unwrap_or(i128::MAX)`
abbrev pub saturating_i128 : ℕ → ℤ
saturating_i128 n = if ltb n (2 ^ 127) then pos n else i128_max

-- `checked_sub(…).unwrap_or(0)` on `i128`.
abbrev pub sub_or_zero : ℤ → ℤ → ℤ
sub_or_zero a b = let d = a -ℤ b in if leb_ℤ i128_min d && leb_ℤ d i128_max then d else pos 0

abbrev pub clamp_i64 : ℤ → ℤ
clamp_i64 d = if ltb_ℤ d i64_min then i64_min else if ltb_ℤ i64_max d then i64_max else d

abbrev pub offset_from : ℕ → Option ℕ → Result TimeOracleError ℤ
offset_from total none = err time_went_backwards
offset_from total (some local) = ok (clamp_i64 (sub_or_zero (pos total) (saturating_i128 local)))

unfoldable pub compute_offset : ℕ → ℕ → ℤ → Result TimeOracleError ℤ
unfolding total_nanos
compute_offset ntp_secs ntp_nanos local_now = elim (total_nanos ntp_secs ntp_nanos) [
  | none ↦ err (generic_network_error "NTP timestamp overflow")
  | some total ↦ offset_from total (since_epoch local_now)
]
