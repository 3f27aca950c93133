-- ===== src/Panic/Screen.antt =====
-- What the panic screen of src/kernel/panic.c tells.
use my_dos.Base.{
  ℕ, ◌+◌, ◌*◌, ◌-◌, ◌^◌, ◌≤◌, ◌<◌, ◌≡◌, refl, ◌∙◌, sym, subst, arith, Bool, true, false, not, List,
  ◌++◌, codes, leb, ltb, ◌&&◌, ◌==◌, if◌then◌else◌, get_or, length, replicate, length-append,
}
use my_dos.Kernel.{white}
use my_dos.CString.{itohex, head_or_zero}
use my_dos.CString.Compare.{text}
use my_dos.CString.Hex.{read_hex, read_hex-itohex}
use my_dos.Vga.{Theme, Words, cell, theme_attribute}
use my_dos.Panic.{centred_column, print_centered, panic_texts, panic_render}
use my_dos.Panic.Centred.{print_centered-shown, centred_column-margins}

-- A text stands on the screen from an offset on.
abbrev pub Shows : List ℕ → ℕ → Theme → Words → Type 0
Shows s offset theme words =
    (k : ℕ) → k < length s → words (offset + k) ≡ cell (get_or s k 0) (theme_attribute white theme)

print_centered-above :
    (prefix body : List ℕ) (y : ℕ) (theme : Theme) (words : Words) (i : ℕ)
    → i < y * 80
    → print_centered prefix body y theme words i ≡ words i
print_centered-above prefix body y theme words i h =
    print_centered-shown prefix body y theme words i ∙ ground arith

print_centered-Shows :
    (prefix body : List ℕ) (y n : ℕ) (theme : Theme) (words : Words)
    → length (text prefix ++ text body) ≡ n
    → y * 80 + centred_column n + n ≤ 2000
    → Shows
        (text prefix ++ text body)
        (y * 80 + centred_column n)
        theme
        (print_centered prefix body y theme words)
print_centered-Shows prefix body y n theme words e room k h =
    let whole = text prefix ++ text body in
    let o = y * 80 + centred_column n in
    let inside : (leb o (o + k) && ltb (o + k) (o + n) && ltb (o + k) 2000) ≡ true = ground arith in
    let back : o + k - o ≡ k = omega arith in
    print_centered-shown prefix body y theme words (o + k) ∙ rw (e, inside, back) refl

-- Later texts on lower rows leave it there.
Shows-above :
    (s : List ℕ) (offset : ℕ) (theme : Theme) (words : Words) (prefix body : List ℕ) (y : ℕ)
    → offset + length s ≤ y * 80
    → Shows s offset theme words
    → Shows s offset theme (print_centered prefix body y theme words)
Shows-above s offset theme words prefix body y h shows k l =
    print_centered-above prefix body y theme words (offset + k) (omega arith) ∙ shows k l

Shows-above_if :
    (b : Bool) (s : List ℕ) (offset : ℕ) (theme : Theme) (words : Words) (prefix body : List ℕ)
    (y : ℕ)
    → offset + length s ≤ y * 80
    → Shows s offset theme words
    → Shows s offset theme (if b then print_centered prefix body y theme words else words)
Shows-above_if true s offset theme words prefix body y h shows =
    Shows-above s offset theme words prefix body y h shows
Shows-above_if false s offset theme words prefix body y h shows = shows

-- The digits of the code.
abbrev pub code_digits : ℕ → List ℕ
code_digits code = text (itohex code (replicate 11 0))

module _ (code : ℕ) (name message : List ℕ) (theme : Theme) where
  -- The screen with the code, and with the name if there is one.
  abbrev with_code : Words → Words
  with_code = print_centered (codes "Code: ") (itohex code (replicate 11 0)) 14 theme

  abbrev with_name : Words → Words
  with_name words =
      if not (head_or_zero name == 0)
      then print_centered (codes "Exception: ") name 15 theme (with_code words)
      else with_code words

  code-Shows :
      (words : Words)
      → code < 2 ^ 32
      → Shows
          (codes "Code: " ++ code_digits code)
          (14 * 80 + centred_column 16)
          theme
          (panic_texts code name message theme words)
  unfolding panic_texts
  code-Shows words h =
      let s = codes "Code: " ++ code_digits code in
      let len : length s ≡ 16 =
        length-append (codes "Code: ") (code_digits code)
        ∙ omega (arith, (read_hex-itohex code (replicate 11 0) h (omega arith)).1) in
      let room = centred_column-margins 16 (omega arith) in
      Shows-above_if (not (head_or_zero message == 0)) s (14 * 80 + centred_column 16) theme
        (with_name words) (codes "Error: ") message 17 (omega (arith, len, room))
        (Shows-above_if (not (head_or_zero name == 0)) s (14 * 80 + centred_column 16) theme
          (with_code words) (codes "Exception: ") name 15 (omega (arith, len, room))
          (print_centered-Shows (codes "Code: ") (itohex code (replicate 11 0)) 14 16 theme words
            len (omega (arith, room))))

  name-Shows :
      (words : Words)
      → (head_or_zero name == 0) ≡ false
      → length (text name) ≤ 67
      → Shows
          (codes "Exception: " ++ text name)
          (15 * 80 + centred_column (11 + length (text name)))
          theme
          (panic_texts code name message theme words)
  unfolding panic_texts
  name-Shows words named fits =
      let n = length (text name) in
      let s = codes "Exception: " ++ text name in
      let counted : length s ≡ 11 + n = length-append (codes "Exception: ") (text name) in
      let bound = centred_column-margins (11 + n) (omega arith) in
      let here : with_name words
          ≡ print_centered (codes "Exception: ") name 15 theme (with_code words) =
        rw named refl in
      Shows-above_if (not (head_or_zero message == 0)) s (15 * 80 + centred_column (11 + n)) theme
        (with_name words) (codes "Error: ") message 17 (omega (arith, bound, counted))
        (subst (Shows s (15 * 80 + centred_column (11 + n)) theme) (sym here) (
          print_centered-Shows (codes "Exception: ") name 15 (11 + n) theme (with_code words)
            counted (omega (arith, bound))))

  -- For a 32-bit code, the row 14 of the panic screen shows "Code: " and ten characters that read back
  -- as the code, and the row 15 shows the exception's name, if there is one and it has at most 67
  -- bytes, whatever the message is.
  pub panic_render-Shows :
      (words : Words)
      → code < 2 ^ 32
      → (let screen = panic_render code name message theme words in
          (read_hex (code_digits code) ≡ code)
          × Shows (codes "Code: " ++ code_digits code) (14 * 80 + centred_column 16) theme screen
          × ((head_or_zero name == 0) ≡ false
              → length (text name) ≤ 67
              → Shows
                  (codes "Exception: " ++ text name)
                  (15 * 80 + centred_column (11 + length (text name)))
                  theme
                  screen))
  unfolding panic_render
  panic_render-Shows words h =
      ((read_hex-itohex code (replicate 11 0) h (omega arith)).0, code-Shows _ h, name-Shows _)
