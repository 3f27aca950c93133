-- ===== src/Keyboard/Tests.antt =====
-- Runs of src/kernel/drivers/keyboard.c, and the theorems at these inputs.
use my_dos.Base.{◌≡◌, ◌≢◌, refl, arith, ap, inl, [], ◌∷◌, codes, true, false}
use my_dos.CString.{head_or_zero}
use my_dos.CString.Compare.{text}
use my_dos.Keyboard.{
  Keyboard, at_boot, load_layout, getchar, type_scancodes, left_shift, right_alt, assign,
}
use my_dos.Keyboard.Layouts.{
  Layout, us, default, de, fr, name_of, configured, load_layout-configured,
}
use my_dos.Keyboard.Keys.{key_character, getchar-press, getchar-release, type_scancodes-shifted}

abbrev german : Keyboard
german = configured de false false false

-- AltGr and the key of q give the at sign, and shift with a and b capitals.
at_sign :
    (type_scancodes (0xE0 ∷ right_alt ∷ 0x10 ∷ 0x90 ∷ 0xE0 ∷ 0xB8 ∷ []) german).0
    ≡ 0 ∷ 0 ∷ b'@' ∷ 0 ∷ 0 ∷ 0 ∷ []
unfolding type_scancodes getchar assign
at_sign = refl

load_layout-configured_example : load_layout (codes "de") at_boot ≡ (true, german)
load_layout-configured_example = load_layout-configured de at_boot

unknown : (layout : Layout) → text (codes "it") ≢ text (codes (name_of layout))
unknown us h = absurd (omega (arith, ap head_or_zero h))
unknown default h = absurd (omega (arith, ap head_or_zero h))
unknown de h = absurd (omega (arith, ap head_or_zero h))
unknown fr h = absurd (omega (arith, ap head_or_zero h))

getchar-press_example : getchar 0x2C german ≡ (key_character 0x2C false false german, german)
getchar-press_example = getchar-press 0x2C german (omega arith) (omega arith) (omega arith) refl

getchar-release_example : getchar 0xAC german ≡ (0, german)
getchar-release_example =
    getchar-release 0x2C german (omega arith) (omega arith) (omega arith) (omega arith) refl

type_scancodes-shifted_example :
    type_scancodes (left_shift ∷ 0x1E ∷ 0x9E ∷ 0xAA ∷ []) german
    ≡ (0 ∷ key_character 0x1E true false german ∷ 0 ∷ 0 ∷ [], german)
type_scancodes-shifted_example =
    type_scancodes-shifted left_shift (0x1E ∷ []) german (inl refl) (ground arith) refl
