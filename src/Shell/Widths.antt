-- ===== src/Shell/Widths.antt =====
-- The sizes of what `uptime` and `fetch` of src/kernel/kernel.c put on the screen.
use my_dos.Base.{
  ℕ, zero, suc, ◌+◌, ◌-◌, ◌/◌, ◌%◌, ◌^◌, ◌≤◌, ◌<◌, ◌≡◌, ◌∙◌, arith, ◌||◌, List, [], ◌∷◌, ◌++◌,
  codes, replicate, ltb, length, length-append, min, Bool-cases, inl, inr,
}
use my_dos.Kernel.{vga_height}
use my_dos.CString.{equals}
use my_dos.CString.Decimal.{append_uint-IsDecimal}
use my_dos.Vga.{scroll_screen}
use my_dos.Console.{Console}
use my_dos.Shell.Times.{digits_of, pretty_uptime, clock_uptime, uptime_text}
use my_dos.Shell.Fetch.{make_room}

digits_of-narrow :
    (size value k : ℕ)
    → 10 < length {A = ℕ} (replicate size 0)
    → value < 2 ^ 32
    → 1 ≤ k
    → value < 10 ^ k
    → length (digits_of size value) ≤ k
digits_of-narrow size value k room small some less =
    (append_uint-IsDecimal value (replicate size 0) small room).narrow k some less

length-pretty_uptime :
    (d h m s : ℕ)
    → length (pretty_uptime d h m s)
      ≡ 41
        + (length (digits_of 16 d)
            + (length (digits_of 16 h) + (length (digits_of 16 m) + length (digits_of 16 s))))
unfolding pretty_uptime
length-pretty_uptime d h m s =
    let p1 = codes "up for " ++ digits_of 16 d in
    let p2 = p1 ++ codes " days " in
    let p3 = p2 ++ digits_of 16 h in
    let p4 = p3 ++ codes " hours " in
    let p5 = p4 ++ digits_of 16 m in
    let p6 = p5 ++ codes " minutes and " in
    let p7 = p6 ++ digits_of 16 s in
    omega (
      arith,
      length-append p1 (codes " days "),
      length-append p2 (digits_of 16 h),
      length-append p3 (codes " hours "),
      length-append p4 (digits_of 16 m),
      length-append p5 (codes " minutes and "),
      length-append p6 (digits_of 16 s),
      length-append p7 (codes " seconds"),
    )

length-clock_uptime : (d h m s : ℕ) → d < 2 ^ 32 → d < 10 ^ 5 → length (clock_uptime d h m s) ≤ 15
unfolding clock_uptime
length-clock_uptime d h m s small few = elim (Bool-cases (ltb 0 d)) [
  | inr e ↦ rw e (omega arith)
  | inl e ↦
      let narrow = digits_of-narrow 16 d 5 (omega arith) small (omega arith) few in
      let clock =
        (h / 10 + b'0')
        ∷ (h % 10 + b'0')
        ∷ b':'
        ∷ (m / 10 + b'0')
        ∷ (m % 10 + b'0')
        ∷ b':'
        ∷ (s / 10 + b'0')
        ∷ (s % 10 + b'0')
        ∷ [] in
      rw e (
        omega (
          arith,
          narrow,
          length-append (digits_of 16 d ++ codes "d ") clock,
          length-append (digits_of 16 d) (codes "d "),
        ))
]

uptime_text-short :
    (elapsed : ℕ) (args : List ℕ) → elapsed < 2 ^ 32 → length (uptime_text elapsed args) ≤ 63
unfolding uptime_text
uptime_text-short elapsed args small =
    let d = elapsed / 86400 in
    let h = elapsed % 86400 / 3600 in
    let m = elapsed % 3600 / 60 in
    let s = elapsed % 60 in
    elim (Bool-cases (equals args "-p" || equals args "--pretty")) [
      | inl e ↦ rw e (
          omega (
            arith,
            length-pretty_uptime d h m s,
            digits_of-narrow 16 d 5 (omega arith) (omega arith) (omega arith) (omega arith),
            digits_of-narrow 16 h 2 (omega arith) (omega arith) (omega arith) (omega arith),
            digits_of-narrow 16 m 2 (omega arith) (omega arith) (omega arith) (omega arith),
            digits_of-narrow 16 s 2 (omega arith) (omega arith) (omega arith) (omega arith),
          ))
      | inr e ↦ elim (Bool-cases (equals args "-s" || equals args "--seconds")) [
        | inl f ↦
            rw (e, f)
              (omega (
                arith,
                length-append (digits_of 32 elapsed) (codes " seconds"),
                digits_of-narrow 32 elapsed 10 (omega arith) small (omega arith) (omega arith),
              ))
        | inr f ↦ rw (e, f) (omega (arith, length-clock_uptime d h m s (omega arith) (omega arith)))
      ]
    ]

-- For every 32-bit time, in every format, the text of the uptime fits its buffer of 64 bytes with
-- its terminating zero.
pub uptime_text-fits :
    (elapsed : ℕ) (args : List ℕ)
    → elapsed < 2 ^ 32
    → length (uptime_text elapsed args ++ 0 ∷ []) ≤ 64
uptime_text-fits elapsed args h =
    omega
      (arith, uptime_text-short elapsed args h, length-append (uptime_text elapsed args) (0 ∷ []))

-- Scrolling for `fetch` leaves room for its thirteen rows, and takes the cursor up no further than
-- that needs.
pub make_room-fits :
    (n : ℕ) (c : Console)
    → c.cursor_y ≤ n
    → ((make_room n c).cursor_y + 13 ≤ vga_height) × ((make_room n c).cursor_y ≡ min c.cursor_y 12)
unfolding make_room
make_room-fits zero c h = ground arith
make_room-fits (suc n) c h = elim (Bool-cases (ltb vga_height (c.cursor_y + 13))) [
  | inr e ↦ rw e (ground arith)
  | inl e ↦
      let above = record c {
        words = (scroll_screen vga_height c.theme c.words).1;
        cursor_y = c.cursor_y - 1;
      } in
      let (fits, row) = make_room-fits n above (omega arith) in
      let many : 12 < c.cursor_y = ground arith in rw e (fits, row ∙ omega (arith, many))
]
