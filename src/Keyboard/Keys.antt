-- ===== src/Keyboard/Keys.antt =====
-- The scancodes: `keyboard_getchar` of src/kernel/drivers/keyboard.c.
use my_dos.Base.{
  ℕ, ◌+◌, ◌<◌, ◌≡◌, ◌≢◌, refl, ap, ◌∙◌, arith, Bool, true, false, not, ◌&&◌, ◌⊎◌, List, [], ◌∷◌,
  bit_and, ◌==◌, inl, inr, if◌then◌else◌, passes_below_lem,
}
unfoldable use my_dos.Base.{passes_below}
use my_dos.Keyboard.{
  Keyboard, getchar, extended_key, plain_key, type_scancodes, left_shift, right_shift, right_alt,
}

-- The scancode of a key that is let go has its top bit set, and only such a one.
is_press : (c : ℕ) → c < 128 → (bit_and c 0x80 == 0) ≡ true
unfolding passes_below
is_press c h = passes_below_lem 128 (λ x. bit_and x 0x80 == 0) c refl h

is_release : (c : ℕ) → c < 128 → not (bit_and (c + 128) 0x80 == 0) ≡ true
unfolding passes_below
is_release c h = passes_below_lem 128 (λ x. not (bit_and (x + 128) 0x80 == 0)) c refl h

-- After any scancode the prefix is remembered exactly if that scancode was the prefix.
pub extended_scancode-getchar :
    (scancode : ℕ) (kb : Keyboard) → (getchar scancode kb).1.extended_scancode ≡ (scancode == 0xE0)
unfolding getchar extended_key plain_key
extended_scancode-getchar scancode kb = ground arith

-- A key without a meaning of its own that is let go gives no character and changes nothing.
pub getchar-release :
    (c : ℕ) (kb : Keyboard)
    → c < 128
    → c ≢ left_shift
    → c ≢ right_shift
    → c ≢ 0x60
    → kb.extended_scancode ≡ false
    → getchar (c + 128) kb ≡ (0, kb)
unfolding getchar plain_key
getchar-release c kb h left right prefix plain = ground (arith, is_release c h)

-- The character of a key under the modifiers: the AltGr table goes before the shift state, where it
-- has an entry.
abbrev pub key_character : ℕ → Bool → Bool → Keyboard → ℕ
key_character c shift altgr kb =
    if altgr && not (kb.scancode_ascii_altgr c == 0)
    then kb.scancode_ascii_altgr c
    else if shift
    then kb.scancode_ascii_shift c
    else kb.scancode_ascii c

pub getchar-press :
    (c : ℕ) (kb : Keyboard)
    → c < 128
    → c ≢ left_shift
    → c ≢ right_shift
    → kb.extended_scancode ≡ false
    → getchar c kb ≡ (key_character c kb.shift_pressed kb.altgr_pressed kb, kb)
unfolding getchar plain_key
getchar-press c kb h left right plain = ground (arith, is_press c h)

-- The keys that are no modifier and whose release is not read as the prefix.
abbrev pub Ordinary : ℕ → Type 0
Ordinary c = (c < 128) × (c ≢ left_shift) × (c ≢ right_shift) × (c ≢ 0x60)

abbrev pub AllOrdinary : List ℕ → Type 0
AllOrdinary [] = Unit
AllOrdinary (c ∷ cs) = Ordinary c × AllOrdinary cs

-- The scancodes of keys that are pressed and let go one after the other, then of another key.
abbrev pub strokes : List ℕ → List ℕ → List ℕ
strokes [] last = last
strokes (c ∷ cs) last = c ∷ (c + 128) ∷ strokes cs last

-- What they return: the character of each press, and 0 for each release.
abbrev pub characters : List ℕ → (ℕ → ℕ) → List ℕ → List ℕ
characters [] character last = last
characters (c ∷ cs) character last = character c ∷ 0 ∷ characters cs character last

type_scancodes-strokes :
    (cs last : List ℕ) (kb : Keyboard)
    → AllOrdinary cs
    → kb.extended_scancode ≡ false
    → type_scancodes (strokes cs last) kb ≡ (
      characters cs
          (λ c. key_character c kb.shift_pressed kb.altgr_pressed kb)
          (type_scancodes last kb).0,
      (type_scancodes last kb).1,
    )
unfolding type_scancodes
type_scancodes-strokes [] last kb all plain = refl
type_scancodes-strokes (c ∷ cs) last kb ((h, left, right, prefix), all) plain =
    rw
      (
        getchar-press c kb h left right plain,
        getchar-release c kb h left right prefix plain,
        type_scancodes-strokes cs last kb all plain,
      )
      refl

-- While a shift key is held, each ordinary key gives its shifted character (or its AltGr one), and
-- letting the shift key go leaves the keyboard unshifted and otherwise as it was.
pub type_scancodes-shifted :
    (shift : ℕ) (cs : List ℕ) (kb : Keyboard)
    → (shift ≡ left_shift) ⊎ (shift ≡ right_shift)
    → AllOrdinary cs
    → kb.extended_scancode ≡ false
    → type_scancodes (shift ∷ strokes cs ((shift + 128) ∷ [])) kb ≡ (
      0 ∷ characters cs (λ c. key_character c true kb.altgr_pressed kb) (0 ∷ []),
      record kb { shift_pressed = false },
    )
unfolding type_scancodes getchar plain_key
type_scancodes-shifted shift cs kb which all plain =
    let resting = record kb { extended_scancode = false } in
    let step : (s : ℕ)
        → (s ≡ left_shift) ⊎ (s ≡ right_shift)
        → type_scancodes (s ∷ strokes cs ((s + 128) ∷ [])) resting ≡ (
          0 ∷ characters cs (λ c. key_character c true kb.altgr_pressed kb) (0 ∷ []),
          record kb { shift_pressed = false; extended_scancode = false },
        ) =
      λ s. elim [
        | inl h ↦
            rw
              (
                h,
                type_scancodes-strokes cs ((left_shift + 128) ∷ [])
                    (record resting { shift_pressed = true }) all refl,
              )
              refl
        | inr h ↦
            rw
              (
                h,
                type_scancodes-strokes cs ((right_shift + 128) ∷ [])
                    (record resting { shift_pressed = true }) all refl,
              )
              refl
      ] in
    let same : kb ≡ resting = ap (λ b. record kb { extended_scancode = b }) plain in
    ap (type_scancodes (shift ∷ strokes cs ((shift + 128) ∷ []))) same
    ∙ step shift which
    ∙ rw plain refl

-- While the right Alt key is held, each ordinary key gives its AltGr character where it has one,
-- and then the keyboard is as it was, with AltGr let go.
pub type_scancodes-altgr :
    (cs : List ℕ) (kb : Keyboard)
    → AllOrdinary cs
    → kb.extended_scancode ≡ false
    → type_scancodes (0xE0 ∷ right_alt ∷ strokes cs (0xE0 ∷ (right_alt + 128) ∷ [])) kb ≡ (
      0 ∷ 0 ∷ characters cs (λ c. key_character c kb.shift_pressed true kb) (0 ∷ 0 ∷ []),
      record kb { altgr_pressed = false },
    )
unfolding type_scancodes getchar extended_key
type_scancodes-altgr cs kb all plain =
    let held =
      type_scancodes-strokes cs (0xE0 ∷ (right_alt + 128) ∷ [])
        (record kb { altgr_pressed = true; extended_scancode = false }) all refl in
    rw (held, plain) refl
