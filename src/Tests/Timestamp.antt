-- ===== src/Tests/Timestamp.antt =====
-- src/timestamp.rs on days and times of its own tests.
use ticklog.Base.{ℕ, ◌+◌, ◌≡◌, refl, arith, [], none, some}
use ticklog.Base.Int.{pos, negsuc, ◌-ℤ◌}
use ticklog.Base.Text.{ascii}
use ticklog.Timestamp.{
  zone_suffix, civil_from_days, time_from_ns, tsc_freq_from_cpuid_0x15, format_iso8601, push_digits,
}
use ticklog.Timestamp.Calendar.{IsDate, day_number}
use ticklog.Timestamp.Civil.{civil_from_days-day_number}

epoch : civil_from_days (pos 0) ≡ (pos 1970, 1, 1)
unfolding civil_from_days
epoch = refl

eve : civil_from_days (negsuc 0) ≡ (pos 1969, 12, 31)
unfolding civil_from_days
eve = refl

leap_day : civil_from_days (pos 11016) ≡ (pos 2000, 2, 29)
unfolding civil_from_days
leap_day = refl

no_crystal : tsc_freq_from_cpuid_0x15 2 250 0 ≡ none
unfolding tsc_freq_from_cpuid_0x15
no_crystal = refl

crystal : tsc_freq_from_cpuid_0x15 2 250 24000000 ≡ some 3000000000
unfolding tsc_freq_from_cpuid_0x15
crystal = refl

start_of_time : format_iso8601 0 (pos 0) [] ≡ ascii "1970-01-01T00:00:00.000000000Z"
unfolding format_iso8601 civil_from_days time_from_ns push_digits zone_suffix
start_of_time = refl

civil_from_days-day_number_example :
    (y : ℕ) × (m : ℕ) × (d : ℕ) × (civil_from_days (pos 730484 -ℤ pos 719468) ≡ (pos y, m, d))
    × IsDate y m d
    × (day_number y m d ≡ 730484 + 60)
civil_from_days-day_number_example = civil_from_days-day_number 730484 (omega arith)
