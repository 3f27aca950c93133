-- ===== src/Vga/Colours.antt =====
-- The themes and the colour bytes of src/kernel/drivers/vga.c.
use my_dos.Base.{ℕ, ◌/◌, ◌%◌, ◌<◌, ◌≡◌, arith, List, bit_or-nibbles}
use my_dos.Vga.{Theme, theme_color, theme_attribute, change_theme}

-- Colours of four bits.
abbrev pub InRange : Theme → Type 0
InRange theme =
    (theme.text < 16)
    × (theme.muted < 16)
    × (theme.error < 16)
    × (theme.prompt < 16)
    × (theme.title < 16)
    × (theme.background < 16)

pub theme_color-bound :
    (color : ℕ) (theme : Theme) → color < 16 → InRange theme → theme_color color theme < 16
unfolding theme_color
theme_color-bound color theme h ok = ground arith

-- For colours of four bits, the attribute holds the themed colour in its low half and the theme's
-- background in its high half.
pub theme_attribute_lem :
    (color : ℕ) (theme : Theme)
    → color < 16
    → InRange theme
    → (theme_attribute color theme % 16 ≡ theme_color color theme)
      × (theme_attribute color theme / 16 ≡ theme.background)
unfolding theme_attribute
theme_attribute_lem color theme h ok =
    let fg = theme_color-bound color theme h ok in
    let e = bit_or-nibbles (theme_color color theme) theme.background fg ok.5 in
    rw e (omega (arith, fg, ok), omega (arith, fg, ok))

-- Whatever the name is, changing the theme keeps all of its colours within four bits.
pub change_theme-InRange :
    (name : List ℕ) (theme : Theme) → InRange theme → InRange (change_theme name theme).1
unfolding change_theme
change_theme-InRange name theme ok = ground arith
