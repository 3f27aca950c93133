-- ===== src/Editor/Drawing.antt =====
-- What `draw_document` of src/programs/myeditor/myeditor.c leaves on the screen.
use my_dos.Base.{
  ℕ, zero, suc, ◌+◌, ◌*◌, ◌-◌, ◌≤◌, ◌<◌, ◌≡◌, ◌&&◌, refl, sym, ap, ◌∙◌, arith, List, [], ◌∷◌, ◌++◌,
  tabulate, get_or, ltb, leb, ◌==◌, if◌then◌else◌, Bool-cases, inl, inr, ==→eq,
}
use my_dos.CString.{strlen}
use my_dos.Kernel.{white, vga_width, vga_height}
use my_dos.Vga.{Theme, Words, cell, theme_attribute, print}
use my_dos.Vga.Print.{print_lem}
use my_dos.Editor.Document.{Document, editor_rows}
use my_dos.Editor.Lines.{line, lines}
use my_dos.Editor.Screen.{shown, display_line, draw_rows, draw_document}

-- The rows below the document are empty, and no visible character is a zero, which would end its row.
pub record Printable (doc : Document) : Type 0 where
  pub below : (y : ℕ) → doc.line_count ≤ y → doc.line_lengths y ≡ 0
  pub nonzero : (y x : ℕ) → x < doc.line_lengths y → 0 < doc.cells y x

strlen-tabulate : (n : ℕ) (f : ℕ → ℕ) → ((i : ℕ) → 0 < f i) → strlen (tabulate n f ++ 0 ∷ []) ≡ n
unfolding strlen
strlen-tabulate zero f h = refl
strlen-tabulate (suc n) f h =
    ground (arith, h 0, strlen-tabulate n (λ i. f (suc i)) (λ i. h (suc i)))

get_or-tabulate :
    {A : Type 0} (n : ℕ) (f : ℕ → A) (i : ℕ) (rest : List A) (d : A)
    → i < n
    → get_or (tabulate n f ++ rest) i d ≡ f i
get_or-tabulate zero f i rest d h = absurd (omega arith)
get_or-tabulate (suc n) f zero rest d h = refl
get_or-tabulate (suc n) f (suc i) rest d h =
    get_or-tabulate n (λ i. f (suc i)) i rest d (omega arith)

get_or-table :
    {A : Type 0} (n : ℕ) (f : ℕ → A) (i : ℕ) (d : A)
    → get_or (tabulate n f) i d ≡ (if ltb i n then f i else d)
get_or-table zero f i d = ground arith
get_or-table (suc n) f zero d = ground arith
get_or-table (suc n) f (suc i) d = get_or-table n (λ i. f (suc i)) i d ∙ ground arith

-- The cells of a row that printing 78 characters from column 1 on reaches.
range-row :
    (n r c : ℕ)
    → c < vga_width
    → n < editor_rows
    → (let offset = (3 + n) * vga_width + 1 in
        let i = r * vga_width + c in
        (leb offset i && ltb i (offset + 78) && ltb i (vga_width * vga_height))
        ≡ (r == (3 + n) && leb 1 c && ltb c 79))
range-row n r c hc h =
    let offset = (3 + n) * vga_width + 1 in
    let i = r * vga_width + c in
    elim (Bool-cases (r == (3 + n))) [
      | inl e ↦ let here = ==→eq r (3 + n) e in rw here (ground arith)
      | inr e ↦ elim (Bool-cases (leb offset i && ltb i (offset + 78))) [
        | inl q ↦
            let low : offset ≤ i = ground arith in
            let high : i < offset + 78 = ground arith in
            let here : r ≡ 3 + n = omega (arith, low, high, hc) in absurd (ground arith)
        | inr q ↦ rw e (ground arith)
      ]
    ]

module _ (doc : Document) (p : Printable doc) (theme : Theme) where
  shown-nonzero : (y x : ℕ) → 0 < shown doc y x
  shown-nonzero y x = ground (arith, p.nonzero y x)

  -- One row of the document.
  row-at :
      (n : ℕ) (words : Words) (r c : ℕ)
      → n < editor_rows
      → c < vga_width
      → print (display_line doc n) white 1 (3 + n) theme words (r * vga_width + c) ≡ (
          if r == (3 + n) && leb 1 c && ltb c 79
          then cell (shown doc n (c - 1)) (theme_attribute white theme)
          else words (r * vga_width + c))
  row-at n words r c h hc =
      let offset = (3 + n) * vga_width + 1 in
      let i = r * vga_width + c in
      let wide : strlen (display_line doc n) ≡ 78 =
        strlen-tabulate 78 (shown doc n) (shown-nonzero n) in
      let printed = print_lem (display_line doc n) white 1 (3 + n) theme words i in
      elim (Bool-cases (r == (3 + n) && leb 1 c && ltb c 79)) [
        | inl e ↦
            let here : r ≡ 3 + n = ground arith in
            let column : i - offset ≡ c - 1 = omega arith in
            let char : get_or (display_line doc n) (i - offset) 0 ≡ shown doc n (c - 1) =
              ap (λ k. get_or (display_line doc n) k 0) column
              ∙ get_or-tabulate 78 (shown doc n) (c - 1) (0 ∷ []) 0 (ground arith) in
            printed ∙ rw (wide, range-row n r c hc h, e, char) refl
        | inr e ↦ printed ∙ rw (wide, range-row n r c hc h, e) refl
      ]

  rows-at :
      (n : ℕ) (words : Words) (r c : ℕ)
      → n ≤ editor_rows
      → c < vga_width
      → draw_rows n doc theme words (r * vga_width + c) ≡ (
          if leb 3 r && ltb r (3 + n) && leb 1 c && ltb c 79
          then cell (shown doc (r - 3) (c - 1)) (theme_attribute white theme)
          else words (r * vga_width + c))
  unfolding draw_rows
  rows-at zero words r c h hc = ground arith
  rows-at (suc n) words r c h hc =
      row-at n (draw_rows n doc theme words) r c (omega arith) hc
      ∙ rw (rows-at n words r c (omega arith) hc) (elim (Bool-cases (r == (3 + n))) [
        | inl e ↦ let here : r - 3 ≡ n = ground arith in rw here (ground arith)
        | inr e ↦ ground arith
      ])

  shown-line : (y x : ℕ) → shown doc y x ≡ get_or (get_or (lines doc) y []) x 32
  shown-line y x = elim (Bool-cases (ltb y doc.line_count)) [
    | inl e ↦
        rw (get_or-table doc.line_count (line doc) y [], e)
          (sym (get_or-table (doc.line_lengths y) (doc.cells y) x 32))
    | inr e ↦
        let none : doc.line_lengths y ≡ 0 = p.below y (ground arith) in
        rw (get_or-table doc.line_count (line doc) y [], e, none) (ground arith)
  ]

  -- For a document whose rows below its last line are empty and whose visible characters are not
  -- zero, drawing shows character x of line y in column x + 1 of row y + 3, and spaces behind the
  -- lines and below them; the columns and rows around this area are left as they were.
  pub draw_document-shows :
      (words : Words) (r c : ℕ)
      → c < vga_width
      → draw_document doc theme words (r * vga_width + c) ≡ (
          if leb 3 r && ltb r 24 && leb 1 c && ltb c 79
          then cell
              (get_or (get_or (lines doc) (r - 3) []) (c - 1) 32)
              (theme_attribute white theme)
          else words (r * vga_width + c))
  unfolding draw_document
  draw_document-shows words r c h =
      rows-at 21 words r c (omega arith) h
      ∙ ap
          (λ character.
            if leb 3 r && ltb r 24 && leb 1 c && ltb c 79
            then cell character (theme_attribute white theme)
            else words (r * vga_width + c))
          (shown-line (r - 3) (c - 1))
