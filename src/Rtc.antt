-- ===== src/Rtc.antt =====
-- src/kernel/drivers/rtc.c, and the time functions of src/kernel/helper/helpers.c and
-- src/kernel/kernel.c. The registers of the clock chip are a function that does not change during a
-- call. The formatting functions write their text, its terminating zero included, over the start of
-- a buffer.
pub mod Digits
pub mod Uptime
mod Tests
use my_dos.Base.{
  ℕ, suc, ◌+◌, ◌*◌, ◌-◌, ◌/◌, ◌%◌, ◌^◌, ◌&&◌, Bool, true, false, not, List, [], ◌∷◌, ◌++◌, ltb, leb,
  ◌==◌, if◌then◌else◌, codes, drop, length, replicate,
}
use my_dos.CString.{append_uint}
use my_dos.CString.Compare.{text}

-- `rtc_read`: a byte for each register.
abbrev pub Registers : Type 0
Registers = ℕ → ℕ

-- The result is an `unsigned char`.
unfoldable pub bcdtb : ℕ → ℕ
bcdtb value = (value % 16 + value / 16 * 10) % 256

unfoldable pub rtcts : ℕ → ℕ → ℕ → ℕ
rtcts hour minute second = hour * 3600 + minute * 60 + second

-- out[pos++] = '0' + n / 10; out[pos++] = '0' + n % 10, each a byte.
unfoldable pub two_digits : ℕ → List ℕ
two_digits n = (b'0' + n / 10) ∷ (b'0' + n % 10) ∷ []

unfoldable pub format_rtc_datetime : Registers → List ℕ
unfolding two_digits bcdtb
format_rtc_datetime rtc_read =
    let second = bcdtb (rtc_read 0x00) in
    let minute = bcdtb (rtc_read 0x02) in
    let hour = bcdtb (rtc_read 0x04) in
    let day = bcdtb (rtc_read 0x07) in
    let month = bcdtb (rtc_read 0x08) in
    let year = bcdtb (rtc_read 0x09) in
    two_digits hour
    ++ b':' ∷ two_digits minute
    ++ b':' ∷ two_digits second
    ++ b',' ∷ b' ' ∷ two_digits day
    ++ b'/' ∷ two_digits month
    ++ b'/' ∷ two_digits year
    ++ 0 ∷ []

-- The hour that is shown, and whether it is one after noon.
unfoldable pub twelve_hour : ℕ → ℕ × Bool
twelve_hour hour =
    if leb 12 hour
    then (if ltb 12 hour then hour - 12 else hour, true)
    else (if hour == 0 then 12 else hour, false)

unfoldable pub format_rtc_time : Registers → Bool → List ℕ
unfolding two_digits bcdtb twelve_hour
format_rtc_time rtc_read format_12h =
    let second = bcdtb (rtc_read 0x00) in
    let minute = bcdtb (rtc_read 0x02) in
    let hour = bcdtb (rtc_read 0x04) in
    let (shown, is_pm) = if format_12h then twelve_hour hour else (hour, false) in
    two_digits shown
    ++ b':' ∷ two_digits minute
    ++ b':' ∷ two_digits second
    ++ (if format_12h then b' ' ∷ (if is_pm then b'P' else b'A') ∷ b'M' ∷ 0 ∷ [] else 0 ∷ [])

unfoldable pub format_rtc_date_only : Registers → List ℕ
unfolding two_digits bcdtb
format_rtc_date_only rtc_read =
    let day = bcdtb (rtc_read 0x07) in
    let month = bcdtb (rtc_read 0x08) in
    let year = bcdtb (rtc_read 0x09) in
    two_digits day ++ b'/' ∷ two_digits month ++ b'/' ∷ two_digits year ++ 0 ∷ []

-- The arithmetic is that of 32-bit words; `uptime` is the time of the boot.
unfoldable pub elapsed_uptime_seconds : Registers → ℕ → ℕ
unfolding bcdtb rtcts
elapsed_uptime_seconds rtc_read uptime =
    let sec = bcdtb (rtc_read 0x00) in
    let min = bcdtb (rtc_read 0x02) in
    let hr = bcdtb (rtc_read 0x04) in
    let now_seconds = rtcts hr min sec in
    let later = if ltb now_seconds uptime then now_seconds + 86400 else now_seconds in
    (later + 2 ^ 32 - uptime) % 2 ^ 32

-- The days, if there are any; `days_buf` has sixteen bytes.
unfoldable pub days_part : ℕ → List ℕ
unfolding append_uint
days_part days =
    if ltb 0 days then text (append_uint (replicate 16 0) days) ++ b'd' ∷ b' ' ∷ [] else []

unfoldable pub format_short_uptime : ℕ → List ℕ
unfolding two_digits days_part
format_short_uptime elapsed =
    let days = elapsed / 86400 in
    let hours = elapsed % 86400 / 3600 in
    let minutes = elapsed % 3600 / 60 in
    let seconds = elapsed % 60 in
    let clock =
      two_digits hours ++ b':' ∷ two_digits minutes ++ b':' ∷ two_digits seconds ++ 0 ∷ [] in
    days_part days ++ clock
