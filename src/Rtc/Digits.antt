-- ===== src/Rtc/Digits.antt =====
-- The clock's digits: src/kernel/drivers/rtc.c.
use my_dos.Base.{ℕ, ◌+◌, ◌*◌, ◌/◌, ◌%◌, ◌≤◌, ◌<◌, ◌≡◌, arith, if◌then◌else◌}
use my_dos.CString.Digits.{read_decimal}
use my_dos.Rtc.{bcdtb, two_digits, twelve_hour}

-- The code of the clock chip: the tens in the high half of the byte.
abbrev pub to_bcd : ℕ → ℕ
to_bcd n = n / 10 * 16 + n % 10

-- Decoding gives back every number of two digits that the clock chip encodes.
pub bcdtb-to_bcd : (n : ℕ) → n < 100 → bcdtb (to_bcd n) ≡ n
unfolding bcdtb
bcdtb-to_bcd n h = omega arith

pub read_decimal-two_digits : (n : ℕ) → n < 100 → read_decimal (two_digits n) ≡ n
unfolding two_digits
read_decimal-two_digits n h = omega arith

-- For an hour of the day, the twelve-hour clock shows an hour from 1 to 12 that gives the hour back
-- with the half of the day.
pub twelve_hour_lem :
    (hour : ℕ)
    → hour < 24
    → (1 ≤ (twelve_hour hour).0)
      × ((twelve_hour hour).0 ≤ 12)
      × ((twelve_hour hour).0 % 12 + (if (twelve_hour hour).1 then 12 else 0) ≡ hour)
unfolding twelve_hour
twelve_hour_lem hour h = (ground arith, ground arith, ground arith)
