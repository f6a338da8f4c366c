-- ===== src/Timestamp.antt =====
-- src/timestamp.rs: the frequency of the counter from the registers of CPUID leaf 0x15, civil dates,
-- and the rendering of a time as ISO 8601.
pub mod Calendar
pub mod Civil
pub mod Render
use ticklog.Base.{
  ℕ, zero, suc, ◌+◌, ◌-◌, ◌*◌, ◌/◌, ◌%◌, ◌^◌, Byte, Bytes, Bool, ◌||◌, Option, none, some, [], ◌∷◌,
  ◌++◌, min, ltb, leb, ◌==◌, if◌then◌else◌,
}
use ticklog.Base.Int.{
  ℤ, pos, negsuc, pos_part, neg_part, ◌+ℤ◌, ◌-ℤ◌, scale, quot, div_euclid, rem_euclid, is_negative,
  wrap_signed,
}
use ticklog.Words.{u64_mod}

-- `saturating_mul` on u64
unfoldable pub tsc_freq_from_cpuid_0x15 : ℕ → ℕ → ℕ → Option ℕ
tsc_freq_from_cpuid_0x15 eax ebx ecx =
    if eax == 0 || ebx == 0 || ecx == 0 then none else some (min (u64_mod - 1) (ecx * ebx) / eax)

abbrev pub days_from_civil_epoch_to_unix : ℕ
days_from_civil_epoch_to_unix = 719468

-- the era of 400 years of a day counted from 0000-03-01
abbrev pub era_of : ℤ → ℤ
era_of z = if is_negative z then quot (z -ℤ pos 146096) 146097 else quot z 146097

abbrev pub year_of_era : ℕ → ℕ
year_of_era doe = (doe - doe / 1460 + doe / 36524 - doe / 146096) / 365

abbrev pub day_of_year : ℕ → ℕ
day_of_year doe = let yoe = year_of_era doe in doe - (365 * yoe + yoe / 4 - yoe / 100)

-- 0 is March
abbrev pub month_position : ℕ → ℕ
month_position doy = (5 * doy + 2) / 153

abbrev pub day_of_month : ℕ → ℕ
day_of_month doy = doy - (153 * month_position doy + 2) / 5 + 1

abbrev pub month_of : ℕ → ℕ
month_of doy = let mp = month_position doy in if ltb mp 10 then mp + 3 else mp - 9

-- Year, month and day; the year is cut to an i32.
unfoldable pub civil_from_days : ℤ → ℤ × ℕ × ℕ
civil_from_days days =
    let z = days +ℤ pos days_from_civil_epoch_to_unix in
    let doe = pos_part (z -ℤ scale (era_of z) 146097) in
    let y = pos (year_of_era doe) +ℤ scale (era_of z) 400 in
    let m = month_of (day_of_year doe) in
    (wrap_signed 32 (y +ℤ pos (if leb m 2 then 1 else 0)), m, day_of_month (day_of_year doe))

-- Hours, minutes, seconds and nanoseconds. The casts to u32 are exact below 2^32 seconds.
unfoldable pub time_from_ns : ℕ → ℕ × ℕ × ℕ × ℕ
time_from_ns ns =
    let secs = ns / 1000000000 % 2 ^ 32 in
    (secs / 3600, secs % 3600 / 60, secs % 60, ns % 1000000000)

abbrev pub ns_per_day : ℕ
ns_per_day = 1000000000 * 86400

-- `push_u32!`: the `digits` low decimal digits
unfoldable pub push_digits : ℕ → ℕ → Bytes
push_digits zero v = []
push_digits (suc digits) v = push_digits digits (v / 10) ++ (48 + v % 10) ∷ []

unfoldable pub zone_suffix : ℤ → Bytes
zone_suffix offset =
    let size = pos_part offset + neg_part offset in
    if size == 0
    then 90 ∷ []
    else (if is_negative offset then 45 else 43)
      ∷ (push_digits 2 (size / 3600) ++ 58 ∷ push_digits 2 (size % 3600 / 60))

-- nanoseconds since the epoch, shifted by the offset, on i64
abbrev pub local_ns : ℕ → ℤ → ℤ
local_ns ns offset = wrap_signed 64 (wrap_signed 64 (pos ns) +ℤ scale offset 1000000000)

unfoldable pub format_iso8601 : ℕ → ℤ → Bytes → Bytes
format_iso8601 ns offset buf =
    let local = local_ns ns offset in
    let (year, month, day) = civil_from_days (div_euclid local ns_per_day) in
    let (hour, min', sec, nanos) = time_from_ns (rem_euclid local ns_per_day) in
    buf
    ++ (push_digits 4 (rem_euclid year (2 ^ 32))
        ++ 45
          ∷ (push_digits 2 month
              ++ 45
                ∷ (push_digits 2 day
                    ++ 84
                      ∷ (push_digits 2 hour
                          ++ 58
                            ∷ (push_digits 2 min'
                                ++ 58
                                  ∷ (push_digits 2 sec
                                      ++ 46 ∷ (push_digits 9 nanos ++ zone_suffix offset)))))))
