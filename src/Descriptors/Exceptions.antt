-- ===== src/Descriptors/Exceptions.antt =====
-- What `isr_handler` of src/kernel/interrupts/idt.c shows of an exception of the processor.
use my_dos.Base.{
  ℕ, ◌+◌, ◌*◌, ◌%◌, ◌^◌, ◌≤◌, ◌<◌, ◌≡◌, refl, arith, Bool, true, false, not, ◌&&◌, ◌++◌, none, some,
  codes, ltb, leb, ◌==◌, if◌then◌else◌, length, passes_below_lem, lt→ltb,
}
unfoldable use my_dos.Base.{passes_below}
use my_dos.CString.{head_or_zero}
use my_dos.CString.Compare.{text}
use my_dos.CString.Hex.{read_hex}
use my_dos.Vga.{Theme, Words}
use my_dos.Panic.{centred_column, exception_name, panic_exception}
use my_dos.Panic.Screen.{Shows, code_digits, panic_render-Shows}
use my_dos.Descriptors.{isr_handler}

-- The name of an exception is not empty and fits.
abbrev has_name : ℕ → Bool
has_name n =
    not (head_or_zero (codes (exception_name n)) == 0)
    && leb (length (text (codes (exception_name n)))) 67

names_table : passes_below 32 has_name ≡ true
unfolding passes_below exception_name
names_table = refl

-- The error code, or the number of the exception if there is none.
abbrev pub shown_code : ℕ → ℕ → ℕ
shown_code vector error_code = if not (error_code == 0) then error_code else vector

-- Each of the 32 exceptions leads to a panic screen whose row 14 shows a code that reads back as
-- the 32-bit error code, or as the exception's number if that is zero, and whose row 15 shows the
-- exception's name; other interrupts have no effect.
pub isr_handler-Shows :
    (int_no err_code : ℕ) (theme : Theme) (words : Words)
    → err_code < 2 ^ 32
    → (int_no < 32
        → (screen : Words) × (isr_handler int_no err_code theme words ≡ some screen)
          × (read_hex (code_digits (shown_code int_no err_code)) ≡ shown_code int_no err_code)
          × Shows
              (codes "Code: " ++ code_digits (shown_code int_no err_code))
              (14 * 80 + centred_column 16)
              theme
              screen
          × (let name = text (codes (exception_name int_no)) in
              Shows
                (codes "Exception: " ++ name)
                (15 * 80 + centred_column (11 + length name))
                theme
                screen))
      × (32 ≤ int_no → isr_handler int_no err_code theme words ≡ none)
unfolding isr_handler panic_exception
isr_handler-Shows int_no err_code theme words h = (
  λ l.
      let named = passes_below_lem 32 has_name int_no names_table l in
      let same : int_no % 256 ≡ int_no = omega arith in
      let small : shown_code int_no err_code < 2 ^ 32 = ground arith in
      let message = codes "Unhandled CPU Exception" in
      let (back, code, name) =
        panic_render-Shows (shown_code int_no err_code) (codes (exception_name int_no)) message
          theme words small in
      (
        panic_exception int_no err_code message theme words,
        rw (lt→ltb int_no 32 l, same) refl,
        back,
        code,
        name (ground arith) (ground arith),
      ),
  λ l. let late : ltb int_no 32 ≡ false = ground arith in rw late refl,
)
