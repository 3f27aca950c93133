-- ===== src/Shell/Times.antt =====
-- `date` and `uptime` of src/kernel/kernel.c. A buffer that is overwritten from its start is the list
-- of the bytes written, the terminating zero included.
use my_dos.Base.{
  ℕ, ◌+◌, ◌/◌, ◌%◌, ◌||◌, true, false, List, [], ◌∷◌, ◌++◌, codes, replicate, ltb, if◌then◌else◌,
}
use my_dos.Kernel.{white}
use my_dos.CString.{equals, append_uint}
use my_dos.CString.Compare.{text}
use my_dos.Rtc.{Registers, format_rtc_datetime, format_rtc_time, format_rtc_date_only}
use my_dos.Console.{Console, write, scrl}

-- print(text, WHITE, 0, cursor_y); scrl(&cursor_y);
abbrev pub say_white : List ℕ → Console → Console
say_white s c = scrl (write s white 0 c)

unfoldable pub date : Registers → List ℕ → Console → Console
date rtc_read args c =
    if equals args "-t" || equals args "--time"
    then say_white (format_rtc_time rtc_read false) c
    else if equals args "-d" || equals args "--date"
    then say_white (format_rtc_date_only rtc_read) c
    else if equals args "-12" || equals args "--12h"
    then say_white (format_rtc_time rtc_read true) c
    else if equals args "-h" || equals args "--help"
    then say_white (codes "Usage: date [-t|--time] [-d|--date] [-12|--12h]") c
    else say_white (format_rtc_datetime rtc_read) c

-- append_uint into a buffer of a size, and the copy of its text.
abbrev pub digits_of : ℕ → ℕ → List ℕ
digits_of size value = text (append_uint (replicate size 0) value)

unfoldable pub pretty_uptime : ℕ → ℕ → ℕ → ℕ → List ℕ
pretty_uptime d h m s =
    codes "up for "
    ++ digits_of 16 d
    ++ codes " days "
    ++ digits_of 16 h
    ++ codes " hours "
    ++ digits_of 16 m
    ++ codes " minutes and "
    ++ digits_of 16 s
    ++ codes " seconds"

unfoldable pub clock_uptime : ℕ → ℕ → ℕ → ℕ → List ℕ
clock_uptime d h m s =
    (if ltb 0 d then digits_of 16 d ++ codes "d " else [])
    ++ (h / 10 + b'0')
      ∷ (h % 10 + b'0')
      ∷ b':'
      ∷ (m / 10 + b'0')
      ∷ (m % 10 + b'0')
      ∷ b':'
      ∷ (s / 10 + b'0')
      ∷ (s % 10 + b'0')
      ∷ []

unfoldable pub uptime_text : ℕ → List ℕ → List ℕ
uptime_text elapsed args =
    let d = elapsed / 86400 in
    let h = elapsed % 86400 / 3600 in
    let m = elapsed % 3600 / 60 in
    let s = elapsed % 60 in
    if equals args "-p" || equals args "--pretty"
    then pretty_uptime d h m s
    else if equals args "-s" || equals args "--seconds"
    then digits_of 32 elapsed ++ codes " seconds"
    else clock_uptime d h m s

unfoldable pub uptime : ℕ → List ℕ → Console → Console
uptime elapsed args c = say_white (uptime_text elapsed args ++ 0 ∷ []) c
