-- ===== src/Keyboard/Tables.antt =====
-- The tables of src/kernel/drivers/keyboard.c: pairs of a scancode and the byte that it stands for,
-- in the order of the source. The names of the function keys are written out from
-- src/kernel/drivers/keyboard.h.
use my_dos.Base.{ℕ, List, [], ◌∷◌}

-- `scancode_ascii_default`
abbrev pub ascii_default : List (ℕ × ℕ)
ascii_default =
    (0x01, 0x1B)
    ∷ (0x02, 49)
    ∷ (0x03, 50)
    ∷ (0x04, 51)
    ∷ (0x05, 52)
    ∷ (0x06, 53)
    ∷ (0x07, 54)
    ∷ (0x08, 55)
    ∷ (0x09, 56)
    ∷ (0x0A, 57)
    ∷ (0x0B, 48)
    ∷ (0x0C, 45)
    ∷ (0x0D, 61)
    ∷ (0x0E, 8)
    ∷ (0x0F, 9)
    ∷ (0x10, 113)
    ∷ (0x11, 119)
    ∷ (0x12, 101)
    ∷ (0x13, 114)
    ∷ (0x14, 116)
    ∷ (0x15, 121)
    ∷ (0x16, 117)
    ∷ (0x17, 105)
    ∷ (0x18, 111)
    ∷ (0x19, 112)
    ∷ (0x1A, 91)
    ∷ (0x1B, 93)
    ∷ (0x1C, 10)
    ∷ (0x1E, 97)
    ∷ (0x1F, 115)
    ∷ (0x20, 100)
    ∷ (0x21, 102)
    ∷ (0x22, 103)
    ∷ (0x23, 104)
    ∷ (0x24, 106)
    ∷ (0x25, 107)
    ∷ (0x26, 108)
    ∷ (0x27, 59)
    ∷ (0x28, 39)
    ∷ (0x29, 96)
    ∷ (0x2B, 92)
    ∷ (0x2C, 122)
    ∷ (0x2D, 120)
    ∷ (0x2E, 99)
    ∷ (0x2F, 118)
    ∷ (0x30, 98)
    ∷ (0x31, 110)
    ∷ (0x32, 109)
    ∷ (0x33, 44)
    ∷ (0x34, 46)
    ∷ (0x35, 47)
    ∷ (0x37, 42)
    ∷ (0x39, 32)
    ∷ (0x3B, 0xCD)
    ∷ (0x3C, 0xBA)
    ∷ (0x3D, 0xC9)
    ∷ (0x3E, 0xBB)
    ∷ (0x3F, 0xC8)
    ∷ (0x40, 0xBC)
    ∷ (0x41, 0xCC)
    ∷ (0x42, 0xB9)
    ∷ (0x43, 0xCB)
    ∷ (0x44, 0xCA)
    ∷ (0x4A, 45)
    ∷ (0x4E, 43)
    ∷ (0x53, 46)
    ∷ (0x56, 60)
    ∷ (0x57, 0xCE)
    ∷ (0x58, 0x80)
    ∷ []

-- `scancode_ascii_shift_default`
abbrev pub shift_default : List (ℕ × ℕ)
shift_default =
    (0x01, 0x1B)
    ∷ (0x02, 33)
    ∷ (0x03, 64)
    ∷ (0x04, 35)
    ∷ (0x05, 36)
    ∷ (0x06, 37)
    ∷ (0x07, 94)
    ∷ (0x08, 38)
    ∷ (0x09, 42)
    ∷ (0x0A, 40)
    ∷ (0x0B, 41)
    ∷ (0x0C, 95)
    ∷ (0x0D, 43)
    ∷ (0x0E, 8)
    ∷ (0x0F, 9)
    ∷ (0x10, 81)
    ∷ (0x11, 87)
    ∷ (0x12, 69)
    ∷ (0x13, 82)
    ∷ (0x14, 84)
    ∷ (0x15, 89)
    ∷ (0x16, 85)
    ∷ (0x17, 73)
    ∷ (0x18, 79)
    ∷ (0x19, 80)
    ∷ (0x1A, 123)
    ∷ (0x1B, 125)
    ∷ (0x1C, 10)
    ∷ (0x1E, 65)
    ∷ (0x1F, 83)
    ∷ (0x20, 68)
    ∷ (0x21, 70)
    ∷ (0x22, 71)
    ∷ (0x23, 72)
    ∷ (0x24, 74)
    ∷ (0x25, 75)
    ∷ (0x26, 76)
    ∷ (0x27, 58)
    ∷ (0x28, 34)
    ∷ (0x29, 126)
    ∷ (0x2B, 124)
    ∷ (0x2C, 90)
    ∷ (0x2D, 88)
    ∷ (0x2E, 67)
    ∷ (0x2F, 86)
    ∷ (0x30, 66)
    ∷ (0x31, 78)
    ∷ (0x32, 77)
    ∷ (0x33, 60)
    ∷ (0x34, 62)
    ∷ (0x35, 63)
    ∷ (0x37, 42)
    ∷ (0x39, 32)
    ∷ (0x3B, 0xC4)
    ∷ (0x3C, 0xB3)
    ∷ (0x3D, 0xDA)
    ∷ (0x3E, 0xBF)
    ∷ (0x3F, 0xC0)
    ∷ (0x40, 0xD9)
    ∷ (0x41, 0xC3)
    ∷ (0x42, 0xB4)
    ∷ (0x43, 0xC2)
    ∷ (0x44, 0xC1)
    ∷ (0x56, 62)
    ∷ (0x57, 0xC5)
    ∷ (0x58, 0x80)
    ∷ []

-- `scancode_ascii_altgr_de`
abbrev pub altgr_de : List (ℕ × ℕ)
altgr_de =
    (0x03, 0xFD)
    ∷ (0x04, 0xFC)
    ∷ (0x08, 123)
    ∷ (0x09, 91)
    ∷ (0x0A, 93)
    ∷ (0x0B, 125)
    ∷ (0x0C, 92)
    ∷ (0x10, 64)
    ∷ (0x1B, 126)
    ∷ (0x32, 0xE6)
    ∷ (0x56, 124)
    ∷ []

-- The assignments to `scancode_ascii` for the German layout.
abbrev pub ascii_de : List (ℕ × ℕ)
ascii_de =
    (0x02, 49)
    ∷ (0x03, 50)
    ∷ (0x04, 51)
    ∷ (0x05, 52)
    ∷ (0x06, 53)
    ∷ (0x07, 54)
    ∷ (0x08, 55)
    ∷ (0x09, 56)
    ∷ (0x0A, 57)
    ∷ (0x0B, 48)
    ∷ (0x0C, 0xE1)
    ∷ (0x0D, 39)
    ∷ (0x15, 122)
    ∷ (0x1A, 0x81)
    ∷ (0x1B, 43)
    ∷ (0x27, 0x94)
    ∷ (0x28, 0x84)
    ∷ (0x29, 94)
    ∷ (0x2B, 35)
    ∷ (0x2C, 121)
    ∷ (0x35, 45)
    ∷ (0x56, 60)
    ∷ []

-- The assignments to `scancode_ascii_shift` for the German layout.
abbrev pub shift_de : List (ℕ × ℕ)
shift_de =
    (0x02, 33)
    ∷ (0x03, 34)
    ∷ (0x04, 0x15)
    ∷ (0x05, 36)
    ∷ (0x06, 37)
    ∷ (0x07, 38)
    ∷ (0x08, 47)
    ∷ (0x09, 40)
    ∷ (0x0A, 41)
    ∷ (0x0B, 61)
    ∷ (0x0C, 63)
    ∷ (0x0D, 96)
    ∷ (0x15, 90)
    ∷ (0x2C, 89)
    ∷ (0x1A, 0x9A)
    ∷ (0x1B, 42)
    ∷ (0x27, 0x99)
    ∷ (0x28, 0x8E)
    ∷ (0x29, 0xB0)
    ∷ (0x2B, 39)
    ∷ (0x35, 95)
    ∷ (0x33, 59)
    ∷ (0x34, 58)
    ∷ (0x56, 62)
    ∷ []

-- The assignments to `scancode_ascii` for the French layout.
abbrev pub ascii_fr : List (ℕ × ℕ)
ascii_fr =
    (0x02, 38)
    ∷ (0x03, 0xE9)
    ∷ (0x04, 34)
    ∷ (0x05, 39)
    ∷ (0x06, 40)
    ∷ (0x07, 45)
    ∷ (0x08, 0xE8)
    ∷ (0x09, 95)
    ∷ (0x0A, 99)
    ∷ (0x0B, 97)
    ∷ (0x0C, 41)
    ∷ (0x0D, 61)
    ∷ (0x10, 97)
    ∷ (0x11, 122)
    ∷ (0x12, 101)
    ∷ (0x13, 114)
    ∷ (0x14, 116)
    ∷ (0x15, 121)
    ∷ (0x16, 117)
    ∷ (0x17, 105)
    ∷ (0x18, 111)
    ∷ (0x19, 112)
    ∷ (0x1A, 94)
    ∷ (0x1B, 36)
    ∷ (0x1E, 113)
    ∷ (0x1F, 115)
    ∷ (0x20, 100)
    ∷ (0x21, 102)
    ∷ (0x22, 103)
    ∷ (0x23, 104)
    ∷ (0x24, 106)
    ∷ (0x25, 107)
    ∷ (0x26, 108)
    ∷ (0x27, 109)
    ∷ (0x28, 0xF9)
    ∷ (0x29, 42)
    ∷ (0x2B, 36)
    ∷ (0x2C, 119)
    ∷ (0x2D, 120)
    ∷ (0x2E, 99)
    ∷ (0x2F, 118)
    ∷ (0x30, 98)
    ∷ (0x31, 110)
    ∷ (0x32, 44)
    ∷ (0x33, 59)
    ∷ (0x34, 58)
    ∷ (0x35, 33)
    ∷ (0x39, 32)
    ∷ (0x56, 60)
    ∷ []

-- The assignments to `scancode_ascii_shift` for the French layout.
abbrev pub shift_fr : List (ℕ × ℕ)
shift_fr =
    (0x03, 50)
    ∷ (0x04, 51)
    ∷ (0x07, 54)
    ∷ (0x08, 123)
    ∷ (0x09, 91)
    ∷ (0x0A, 124)
    ∷ (0x0B, 64)
    ∷ (0x0C, 93)
    ∷ (0x0D, 37)
    ∷ (0x29, 48)
    ∷ (0x35, 49)
    ∷ (0x56, 62)
    ∷ []
