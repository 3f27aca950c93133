-- ===== src/Rtc/Uptime.antt =====
-- The uptime of src/kernel/kernel.c: `elapsed_uptime_seconds` and `format_short_uptime`.
use my_dos.Base.{
  ℕ, ◌+◌, ◌*◌, ◌-◌, ◌/◌, ◌%◌, ◌^◌, ◌≤◌, ◌<◌, ◌≡◌, refl, ap, sym, ◌∙◌, arith, List, [], ◌∷◌, ltb,
  if◌then◌else◌, ◌++◌, take, drop, replicate, length, lt→ltb, append_assoc,
}
use my_dos.CString.{append_uint}
use my_dos.CString.Compare.{text}
use my_dos.CString.Decimal.{IsDecimal, append_uint-IsDecimal}
use my_dos.CString.Digits.{read_decimal}
use my_dos.Rtc.{
  Registers, bcdtb, rtcts, two_digits, days_part, elapsed_uptime_seconds, format_short_uptime,
}
use my_dos.Rtc.Digits.{to_bcd, bcdtb-to_bcd}

-- The chip at a second of the day.
abbrev pub ShowsSecond : Registers → ℕ → Type 0
ShowsSecond rtc_read t =
    (rtc_read 0x00 ≡ to_bcd (t % 60))
    × (rtc_read 0x02 ≡ to_bcd (t / 60 % 60))
    × (rtc_read 0x04 ≡ to_bcd (t / 3600))

elapsed_at :
    (b t now : ℕ)
    → b < 86400
    → now ≡ (b + t) % 86400
    → ((if ltb now b then now + 86400 else now) + 2 ^ 32 - b) % 2 ^ 32 ≡ t % 86400
elapsed_at b t now hb e = ground arith

-- T seconds after a start at second b of a day, with the clock showing the time of day, the uptime
-- is t up to whole days.
pub elapsed_uptime_seconds_lem :
    (rtc_read : Registers) (b t : ℕ)
    → b < 86400
    → ShowsSecond rtc_read ((b + t) % 86400)
    → elapsed_uptime_seconds rtc_read b ≡ t % 86400
unfolding elapsed_uptime_seconds rtcts
elapsed_uptime_seconds_lem rtc_read b t hb (hs, hm, hh) =
    let n = (b + t) % 86400 in
    let s : bcdtb (rtc_read 0x00) ≡ n % 60 = ap bcdtb hs ∙ bcdtb-to_bcd (n % 60) (omega arith) in
    let m : bcdtb (rtc_read 0x02) ≡ n / 60 % 60 =
      ap bcdtb hm ∙ bcdtb-to_bcd (n / 60 % 60) (omega arith) in
    let h : bcdtb (rtc_read 0x04) ≡ n / 3600 =
      ap bcdtb hh ∙ bcdtb-to_bcd (n / 3600) (omega arith) in
    rw (s, m, h) (elapsed_at b t (n / 3600 * 3600 + n / 60 % 60 * 60 + n % 60) hb (omega arith))

-- "HH:MM:SS", read as seconds.
abbrev pub read_clock : List ℕ → ℕ
read_clock s =
    read_decimal (take 2 s) * 3600
    + read_decimal (take 2 (drop 3 s)) * 60
    + read_decimal (take 2 (drop 6 s))

days_part-some :
    (days : ℕ)
    → 0 < days
    → days_part days ≡ text (append_uint (replicate 16 0) days) ++ b'd' ∷ b' ' ∷ []
unfolding days_part
days_part-some days h = rw (lt→ltb 0 days h) refl

-- Below a day, the uptime is printed as eight characters and a zero that read back as the same
-- seconds.
pub read_clock-format_short_uptime :
    (elapsed : ℕ)
    → elapsed < 86400
    → (read_clock (format_short_uptime elapsed) ≡ elapsed)
      × (length (format_short_uptime elapsed) ≡ 9)
unfolding format_short_uptime two_digits
read_clock-format_short_uptime elapsed h =
    let e : elapsed / 86400 ≡ 0 = omega arith in rw e (omega arith, refl)

-- From a day on, for a 32-bit number of seconds, the days stand in front in decimal and the rest is
-- printed as below a day.
pub format_short_uptime-days :
    (elapsed : ℕ)
    → 86400 ≤ elapsed
    → elapsed < 2 ^ 32
    → (format_short_uptime elapsed
        ≡ text (append_uint (replicate 16 0) (elapsed / 86400))
          ++ b'd' ∷ b' ' ∷ format_short_uptime (elapsed % 86400))
      × IsDecimal (elapsed / 86400) (text (append_uint (replicate 16 0) (elapsed / 86400)))
unfolding format_short_uptime two_digits
format_short_uptime-days elapsed h small =
    let clock = elapsed % 86400 in
    let none : clock / 86400 ≡ 0 = omega arith in
    let day : clock % 86400 ≡ elapsed % 86400 = omega arith in
    let hour : clock % 3600 ≡ elapsed % 3600 = omega arith in
    let minute : clock % 60 ≡ elapsed % 60 = omega arith in
    let digits = text (append_uint (replicate 16 0) (elapsed / 86400)) in
    let rest =
      two_digits (elapsed % 86400 / 3600)
      ++ b':' ∷ two_digits (elapsed % 3600 / 60)
      ++ b':' ∷ two_digits (elapsed % 60)
      ++ 0 ∷ [] in
    let same : format_short_uptime clock ≡ rest = rw (none, day, hour, minute) refl in
    (
      ap (λ d. d ++ rest) (days_part-some (elapsed / 86400) (omega arith))
          ∙ append_assoc digits (b'd' ∷ b' ' ∷ []) rest
          ∙ ap (λ r. digits ++ b'd' ∷ b' ' ∷ r) (sym same),
      append_uint-IsDecimal (elapsed / 86400) (replicate 16 0) (omega arith) (omega arith),
    )
