-- ===== src/FsHelpers/Rows.antt =====
-- The rows in which `cat_file` of src/kernel/helper/fshelpers/fshelpers.c shows a text.
use my_dos.Base.{
  ℕ, zero, suc, ◌+◌, ◌*◌, ◌≡◌, ◌≢◌, refl, ap, ap₂, sym, ◌∙◌, arith, true, false, leb, List, [], ◌∷◌,
  ◌++◌, ltb, ◌==◌, if◌then◌else◌, length, take, Bool-cases, inl, inr, length-append, ne→==, ==→eq,
}
use my_dos.Kernel.{vga_width, vga_height, white}
use my_dos.Vga.{Words, put_word, cell, print_from, print, theme_attribute}
use my_dos.Console.{Console, write, scrl}
use my_dos.FsHelpers.Paths.{NoZero}
use my_dos.FsHelpers.Showing.{View, show_byte, show_bytes, end_row}

-- The rows of a text, where `row` is what stands in the first row already: a row ends at a line feed
-- or when the screen's width is used up, and carriage returns count for nothing.
abbrev pub wrap_text : List ℕ → List ℕ → List (List ℕ)
wrap_text row [] = if length row == 0 then [] else row ∷ []
wrap_text row (c ∷ text) =
    if c == 13
    then wrap_text row text
    else if c == 10
    then row ∷ wrap_text [] text
    else if length row == vga_width
    then row ∷ wrap_text (c ∷ []) text
    else wrap_text (row ++ c ∷ []) text

-- The rows shown one below the other, from the row of the cursor on.
abbrev pub show_rows : List (List ℕ) → Console → Console
show_rows [] c = c
show_rows (row ∷ rows) c = show_rows rows (scrl (write row white 0 c))

print_from-outside :
    (color : ℕ) (msg : List ℕ) (offset : ℕ) (words : Words)
    → leb (vga_width * vga_height) offset ≡ true
    → print_from color msg offset words ≡ words
unfolding print_from
print_from-outside color [] offset words h = refl
print_from-outside color (x ∷ msg) offset words h = elim (Bool-cases (x == 0)) [
  | inl e ↦ rw e refl
  | inr e ↦ rw (e, h) refl
]

print_from-append :
    (color : ℕ) (xs ys : List ℕ) (offset : ℕ) (words : Words)
    → NoZero xs
    → print_from color (xs ++ ys) offset words
      ≡ print_from color ys (offset + length xs) (print_from color xs offset words)
unfolding print_from
print_from-append color [] ys offset words h =
    ap (λ o. print_from color ys o words) {x = offset} {y = offset + 0} (omega arith)
print_from-append color (x ∷ xs) ys offset words (ne, h) =
    let size : suc offset + length xs ≡ offset + suc (length xs) = omega arith in
    let rest =
      print_from-append color xs ys (suc offset) (put_word offset (cell x color) words) h
      ∙ ap
          (λ o.
            print_from color ys o
              (print_from color xs (suc offset) (put_word offset (cell x color) words)))
          size in
    elim (Bool-cases (leb (vga_width * vga_height) offset)) [
      | inl out ↦
          rw (ne→== x 0 ne, out)
            (sym (print_from-outside color ys (offset + suc (length xs)) words (ground arith)))
      | inr on ↦ rw (ne→== x 0 ne, on) rest
    ]

write-append :
    (xs ys : List ℕ) (c : Console)
    → NoZero xs
    → write ys white (length xs) (write xs white 0 c) ≡ write (xs ++ ys) white 0 c
unfolding write print
write-append xs ys c h =
    ap (λ words. record c { words = words })
      (ap (λ o. print_from (theme_attribute white c.theme) ys o (write xs white 0 c).words)
          {x = c.cursor_y * vga_width + length xs} {y = c.cursor_y * vga_width + 0 + length xs}
          (omega arith)
        ∙ sym (
            print_from-append (theme_attribute white c.theme) xs ys (c.cursor_y * vga_width + 0)
              c.words h))

-- What stands in the row of the cursor.
record Pending (row : List ℕ) (c : Console) (s : View) : Type 0 where
  column : s.column ≡ length row
  console : s.console ≡ write row white 0 c

NoZero-snoc : (xs : List ℕ) (x : ℕ) → NoZero xs → x ≢ 0 → NoZero (xs ++ x ∷ [])
NoZero-snoc [] x h ne = (ne, tt)
NoZero-snoc (y ∷ xs) x (hy, h) ne = (hy, NoZero-snoc xs x h ne)

pub NoZero-take : (n : ℕ) (xs : List ℕ) → NoZero xs → NoZero (take n xs)
NoZero-take zero xs h = tt
NoZero-take (suc n) [] h = tt
NoZero-take (suc n) (x ∷ xs) (hx, h) = (hx, NoZero-take n xs h)

write-none : (row : List ℕ) (c : Console) → length row ≡ 0 → write row white 0 c ≡ c
unfolding write print print_from
write-none [] c h = refl
write-none (b ∷ row) c h = absurd (omega (arith, h))

-- What a byte makes of the row that stands there, and of the rows above it.
Steps : ℕ → List ℕ → Console → View → Type 0
Steps ch row c s =
    (row' : List ℕ) × (c' : Console) × Pending row' c' s
    × NoZero row'
    × ((text : List ℕ)
        → show_rows (wrap_text row (ch ∷ text)) c ≡ show_rows (wrap_text row' text) c')

show_byte-Steps :
    (ch : ℕ) (row : List ℕ) (c : Console) (s : View)
    → ch ≢ 0
    → NoZero row
    → Pending row c s
    → Steps ch row c (show_byte ch s)
unfolding Steps show_byte
show_byte-Steps ch row c s ne k p = elim (Bool-cases (ch == 13)) [
  | inl e ↦ rw e (row, c, p, k, λ text. refl)
  | inr e ↦ elim (Bool-cases (ch == 10)) [
    | inl f ↦
        let next = scrl (write row white 0 c) in
        rw (e, f)
          (
            [],
            next,
            record { column = refl; console = ap scrl p.console ∙ sym (write-none [] next refl) },
            tt,
            λ text. refl,
          )
    | inr f ↦ elim (Bool-cases (length row == vga_width)) [
      | inl full ↦
          let there : (s.column == vga_width) ≡ true = ap (λ n. n == vga_width) p.column ∙ full in
          rw (e, f, full, there)
            (
              ch ∷ [],
              scrl (write row white 0 c),
              record {
                column = refl;
                console = ap (λ k. write (ch ∷ []) white 0 (scrl k)) p.console;
              },
              (ne, tt),
              λ text. refl,
            )
      | inr room ↦
          let here : (s.column == vga_width) ≡ false = ap (λ n. n == vga_width) p.column ∙ room in
          rw (e, f, room, here)
            (
              row ++ ch ∷ [],
              c,
              record {
                column = omega (arith, p.column, length-append row (ch ∷ []));
                console =
                    ap₂ (λ n k. write (ch ∷ []) white n k) p.column p.console
                    ∙ write-append row (ch ∷ []) c k;
              },
              NoZero-snoc row ch k ne,
              λ text. refl,
            )
    ]
  ]
]

show_bytes-rows :
    (text row : List ℕ) (c : Console) (s : View)
    → NoZero text
    → NoZero row
    → Pending row c s
    → end_row (show_bytes text s) ≡ show_rows (wrap_text row text) c
unfolding show_bytes end_row Steps
show_bytes-rows [] row c s h k p = elim (Bool-cases (length row == 0)) [
  | inl none_there ↦
      let at_left : ltb 0 s.column ≡ false = ground (arith, p.column) in
      rw (at_left, none_there) (p.console ∙ write-none row c (==→eq (length row) 0 none_there))
  | inr some_there ↦
      let right : ltb 0 s.column ≡ true = ground (arith, p.column) in
      rw (right, some_there) (ap scrl p.console)
]
show_bytes-rows (ch ∷ text) row c s (ne, h) k p =
    let (row', c', pending, k', same) = show_byte-Steps ch row c s ne k p in
    show_bytes-rows text row' c' (show_byte ch s) h k' pending ∙ sym (same text)

-- What the loop over the bytes shows is the rows of the text.
pub end_row-show_bytes :
    (text : List ℕ) (c : Console)
    → NoZero text
    → end_row (show_bytes text (record { column = 0; console = c }))
      ≡ show_rows (wrap_text [] text) c
end_row-show_bytes text c h =
    show_bytes-rows text [] c _ h tt
      (record { column = refl; console = sym (write-none [] c refl) })
