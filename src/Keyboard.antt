-- ===== src/Keyboard.antt =====
-- src/kernel/drivers/keyboard.c: the keyboard layouts and the state machine over the scancodes.
pub mod Tables
pub mod Layouts
pub mod Keys
mod Tests
use my_dos.Base.{
  ℕ, ◌-◌, ◌&&◌, ◌||◌, bit_and, bit_or, Bool, true, false, not, List, [], ◌∷◌, String, ltb, ◌==◌,
  if◌then◌else◌,
}
use my_dos.CString.{equals, head_or_zero}
use Tables.{ascii_default, shift_default, altgr_de, ascii_de, shift_de, ascii_fr, shift_fr}

-- `char table[128]`, by scancode.
abbrev pub Table : Type 0
Table = ℕ → ℕ

abbrev pub empty_table : Table
empty_table code = 0

-- Assignments in their order: a later one covers an earlier one.
unfoldable pub assign : List (ℕ × ℕ) → Table → Table
assign [] table = table
assign ((code, character) ∷ rest) table =
    assign rest (λ c. if c == code then character else table c)

-- The static variables of the file.
pub record Keyboard : Type 0 where
  pub scancode_ascii : Table
  pub scancode_ascii_shift : Table
  pub scancode_ascii_altgr : Table
  pub active_layout : String
  pub layout_initialized : Bool
  pub shift_pressed : Bool
  pub altgr_pressed : Bool
  pub extended_scancode : Bool

-- Their values at boot.
abbrev pub at_boot : Keyboard
at_boot = record {
  scancode_ascii = empty_table;
  scancode_ascii_shift = empty_table;
  scancode_ascii_altgr = empty_table;
  active_layout = "de";
  layout_initialized = false;
  shift_pressed = false;
  altgr_pressed = false;
  extended_scancode = false;
}

unfoldable pub reset_layouts : Keyboard → Keyboard
reset_layouts kb = record kb {
  scancode_ascii = assign ascii_default empty_table;
  scancode_ascii_shift = assign shift_default empty_table;
  scancode_ascii_altgr = empty_table;
}

unfoldable pub apply_layout : List ℕ → Keyboard → Keyboard
unfolding reset_layouts
apply_layout name kb =
    let r = reset_layouts kb in
    if equals name "us"
    then record r { active_layout = "us" }
    else if equals name "de" || equals name "default"
    then record r {
      active_layout = "de";
      scancode_ascii = assign ascii_de r.scancode_ascii;
      scancode_ascii_shift = assign shift_de r.scancode_ascii_shift;
      scancode_ascii_altgr = assign altgr_de empty_table;
    }
    else if equals name "fr"
    then record r {
      active_layout = "fr";
      scancode_ascii = assign ascii_fr r.scancode_ascii;
      scancode_ascii_shift = assign shift_fr r.scancode_ascii_shift;
    }
    else record r { active_layout = "us" }

-- The name is never a null pointer where the kernel calls this.
unfoldable pub load_layout : List ℕ → Keyboard → Bool × Keyboard
load_layout name kb =
    if head_or_zero name == 0
    then (false, kb)
    else let ready =
        if kb.layout_initialized
        then kb
        else record (reset_layouts kb) { layout_initialized = true } in
      if equals name "us" || equals name "default" || equals name "de" || equals name "fr"
      then (true, apply_layout name ready)
      else (false, ready)

unfoldable pub get_layout_name : Keyboard → String
get_layout_name kb = kb.active_layout

abbrev pub left_shift : ℕ
left_shift = 0x2A

abbrev pub right_shift : ℕ
right_shift = 0x36

abbrev pub right_alt : ℕ
right_alt = 0x38

-- The scancode behind the prefix 0xE0.
unfoldable pub extended_key : ℕ → Keyboard → ℕ × Keyboard
extended_key scancode kb =
    if scancode == right_alt
    then (0, record kb { altgr_pressed = true })
    else if scancode == bit_or right_alt 0x80
    then (0, record kb { altgr_pressed = false })
    else if scancode == 0x48
    then (0xF0, kb)
    else if scancode == 0x50
    then (0xF1, kb)
    else if scancode == 0x4B
    then (0xF2, kb)
    else if scancode == 0x4D
    then (0xF3, kb)
    else (0, kb)

-- A scancode without prefix.
unfoldable pub plain_key : ℕ → Keyboard → ℕ × Keyboard
plain_key scancode kb =
    if scancode == left_shift || scancode == right_shift
    then (0, record kb { shift_pressed = true })
    else if scancode == bit_or left_shift 0x80 || scancode == bit_or right_shift 0x80
    then (0, record kb { shift_pressed = false })
    else if not (bit_and scancode 0x80 == 0)
    then (0, kb)
    else if ltb scancode 128
    then if kb.altgr_pressed && not (kb.scancode_ascii_altgr scancode == 0)
      then (kb.scancode_ascii_altgr scancode, kb)
      else (
        if kb.shift_pressed then kb.scancode_ascii_shift scancode else kb.scancode_ascii scancode,
        kb,
      )
    else (0, kb)

-- `keyboard_getchar` where the controller has a scancode; otherwise it returns 0 and does nothing.
unfoldable pub getchar : ℕ → Keyboard → ℕ × Keyboard
unfolding extended_key plain_key
getchar scancode kb =
    if scancode == 0xE0
    then (0, record kb { extended_scancode = true })
    else if kb.extended_scancode
    then extended_key scancode (record kb { extended_scancode = false })
    else plain_key scancode kb

-- The characters of a sequence of scancodes.
unfoldable pub type_scancodes : List ℕ → Keyboard → List ℕ × Keyboard
type_scancodes [] kb = ([], kb)
type_scancodes (code ∷ codes) kb =
    let (c, kb') = getchar code kb in let (cs, kb'') = type_scancodes codes kb' in (c ∷ cs, kb'')
