-- ===== src/Rtc/Tests.antt =====
-- Runs of the clock and the uptime, and the theorems at these inputs.
use my_dos.Base.{◌≡◌, refl, arith, ◌++◌, [], ◌∷◌, codes, ◌==◌, if◌then◌else◌, length}
use my_dos.Rtc.{Registers, elapsed_uptime_seconds, format_rtc_datetime, format_short_uptime}
use my_dos.Rtc.Uptime.{elapsed_uptime_seconds_lem, read_clock, read_clock-format_short_uptime}

-- The clock at 00:00:05.
abbrev registers : Registers
registers n = if n == 0 then 0x05 else 0

clock_run : format_rtc_datetime registers ≡ codes "00:00:05, 00/00/00" ++ 0 ∷ []
unfolding format_rtc_datetime
clock_run = refl

-- Started ten seconds before midnight.
elapsed_uptime_seconds_lem_example : elapsed_uptime_seconds registers 86390 ≡ 15
elapsed_uptime_seconds_lem_example =
    elapsed_uptime_seconds_lem registers 86390 15 (omega arith) (refl, refl, refl)

read_clock-format_short_uptime_example :
    (read_clock (format_short_uptime 3725) ≡ 3725) × (length (format_short_uptime 3725) ≡ 9)
read_clock-format_short_uptime_example = read_clock-format_short_uptime 3725 (omega arith)
