-- ===== src/Vga/Drawing.antt =====
-- What `draw_logo_pattern` of src/kernel/drivers/vga.c draws.
use my_dos.Base.{
  ℕ, zero, suc, ◌+◌, ◌*◌, ◌-◌, ◌≤◌, ◌<◌, ◌≡◌, ◌≢◌, refl, arith, ap, sym, ◌∙◌, ◌&&◌, not, List,
  String, ltb, leb, ◌==◌, if◌then◌else◌, for_below, ne→==, ==→eq, eq→==, Bool-cases, inl, inr,
}
use my_dos.Kernel.{vga_width}
use my_dos.Vga.{Theme, Words, put_word, cell, theme_attribute}
use my_dos.Vga.Logo.{pattern_char, short_of_char, draw_cell, draw_logo_pattern}

module _ (pattern : List String) (color x y : ℕ) where
  -- The word at a column of a row of the screen, once the pattern's first columns of that row are
  -- drawn.
  abbrev drawn : ℕ → ℕ → ℕ → ℕ → ℕ
  drawn width row column old =
      let c = pattern_char pattern row (column - x) in
      if leb x column && ltb column (x + width) && not (c == 32)
      then cell (short_of_char c) color
      else old

  draw_cell-at :
      (row column : ℕ) (words : Words) (i : ℕ)
      → draw_cell pattern color x y row column words i ≡ (
          if i == ((y + row) * vga_width + x + column)
            && not (pattern_char pattern row column == 32)
          then cell (short_of_char (pattern_char pattern row column)) color
          else words i)
  unfolding draw_cell put_word
  draw_cell-at row column words i = ground arith

  -- Another row.
  row-elsewhere :
      (n row : ℕ) (words : Words) (r c : ℕ)
      → x + n ≤ vga_width
      → c < vga_width
      → r ≢ y + row
      → for_below n (draw_cell pattern color x y row) words (r * vga_width + c)
        ≡ words (r * vga_width + c)
  row-elsewhere zero row words r c h hc e = refl
  row-elsewhere (suc n) row words r c h hc e =
      let other : r * vga_width + c ≢ (y + row) * vga_width + x + n = λ q. omega arith in
      draw_cell-at row n (for_below n (draw_cell pattern color x y row) words) (r * vga_width + c)
      ∙ rw (ne→== (r * vga_width + c) ((y + row) * vga_width + x + n) other)
          (row-elsewhere n row words r c (omega arith) hc e)

  row-at :
      (n row : ℕ) (words : Words) (c : ℕ)
      → x + n ≤ vga_width
      → c < vga_width
      → for_below n (draw_cell pattern color x y row) words ((y + row) * vga_width + c)
        ≡ drawn n row c (words ((y + row) * vga_width + c))
  row-at zero row words c h hc = ground arith
  row-at (suc n) row words c h hc =
      draw_cell-at row n (for_below n (draw_cell pattern color x y row) words)
        ((y + row) * vga_width + c)
      ∙ rw (row-at n row words c (omega arith) hc) (elim (Bool-cases (c == (x + n))) [
        | inl here ↦
            let e = ==→eq c (x + n) here in let k : c - x ≡ n = omega arith in rw k (ground arith)
        | inr away ↦ ground arith
      ])

  rows-at :
      (height width : ℕ) (words : Words) (r c : ℕ)
      → x + width ≤ vga_width
      → c < vga_width
      → for_below height
          (λ row. for_below width (draw_cell pattern color x y row))
          words
          (r * vga_width + c)
        ≡ (if leb y r && ltb r (y + height)
            then drawn width (r - y) c (words (r * vga_width + c))
            else words (r * vga_width + c))
  rows-at zero width words r c h hc = ground arith
  rows-at (suc n) width words r c h hc =
      let before = for_below n (λ row. for_below width (draw_cell pattern color x y row)) words in
      elim (Bool-cases (r == (y + n))) [
        | inl here ↦
            let e = ==→eq r (y + n) here in
            let k : r - y ≡ n = omega arith in
            ap (λ q. for_below width (draw_cell pattern color x y n) before (q * vga_width + c)) e
            ∙ row-at width n before c h hc
            ∙ ap (λ q. drawn width n c (before (q * vga_width + c))) (sym e)
            ∙ rw (rows-at n width words r c h hc, k) (ground arith)
        | inr away ↦
            row-elsewhere width n before r c h hc (λ q. cc (eq→== r (y + n) q))
            ∙ rows-at n width words r c h hc
            ∙ ground arith
      ]

-- For a pattern within the columns of the screen, each cell shows the pattern's character there,
-- and a space of the pattern or a cell outside it is left as it was.
pub draw_logo_pattern_lem :
    (pattern : List String) (width height color x y : ℕ) (theme : Theme) (words : Words) (r c : ℕ)
    → x + width ≤ vga_width
    → c < vga_width
    → draw_logo_pattern pattern width height color x y theme words (r * vga_width + c) ≡ (
        if leb y r && ltb r (y + height)
        then drawn pattern
            (theme_attribute color theme)
            x
            y
            width
            (r - y)
            c
            (words (r * vga_width + c))
        else words (r * vga_width + c))
unfolding draw_logo_pattern
draw_logo_pattern_lem pattern width height color x y theme words r c h hc =
    rows-at pattern (theme_attribute color theme) x y height width words r c h hc
