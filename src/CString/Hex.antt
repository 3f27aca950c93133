-- ===== src/CString/Hex.antt =====
-- The hexadecimal numbers that `itohex` of src/lib/string.c prints.
use my_dos.Base.{
  ℕ, ◌+◌, ◌-◌, ◌*◌, ◌/◌, ◌%◌, ◌^◌, ◌≤◌, ◌<◌, ◌≡◌, refl, ap, ◌∙◌, arith, Bool, true, false, List, [],
  ◌∷◌, ◌++◌, ◌&&◌, not, ltb, ◌==◌, if◌then◌else◌, length, get_or, passes_below, passes_below_lem,
}
use my_dos.CString.{itohex, hex_digits}
use my_dos.CString.Compare.{text}

-- The value of a digit of "0123456789ABCDEF".
abbrev digit_value : ℕ → ℕ
digit_value c = if ltb c b'A' then c - b'0' else c - b'A' + 10

abbrev read_hex_from : ℕ → List ℕ → ℕ
read_hex_from acc [] = acc
read_hex_from acc (c ∷ s) = read_hex_from (acc * 16 + digit_value c) s

-- The number behind the prefix "0x".
abbrev pub read_hex : List ℕ → ℕ
read_hex (a ∷ b ∷ s) = read_hex_from 0 s
read_hex s = 0

digit : ℕ → ℕ
digit n = get_or hex_digits n 0

-- A digit is not the terminator and has its value.
abbrev is_digit_of : ℕ → Bool
is_digit_of n = digit_value (digit n) == n && not (digit n == 0)

digits_table : passes_below 16 is_digit_of ≡ true
unfolding passes_below digit
digits_table = refl

digit-is_digit_of : (n : ℕ) → is_digit_of (n % 16) ≡ true
digit-is_digit_of n = passes_below_lem 16 is_digit_of (n % 16) digits_table (omega arith)

digit_value-digit : (n : ℕ) → digit_value (digit (n % 16)) ≡ n % 16
digit_value-digit n = ground (arith, digit-is_digit_of n)

digit-ne-zero : (n : ℕ) → (digit (n % 16) == 0) ≡ false
digit-ne-zero n = ground (arith, digit-is_digit_of n)

text-cons : (c : ℕ) (s : List ℕ) → (c == 0) ≡ false → text (c ∷ s) ≡ c ∷ text s
text-cons c s h = rw h

-- The characters that are printed.
abbrev printed : ℕ → List ℕ
printed v =
    b'0'
    ∷ b'x'
    ∷ digit (v / 2 ^ 28 % 16)
    ∷ digit (v / 2 ^ 24 % 16)
    ∷ digit (v / 2 ^ 20 % 16)
    ∷ digit (v / 2 ^ 16 % 16)
    ∷ digit (v / 2 ^ 12 % 16)
    ∷ digit (v / 2 ^ 8 % 16)
    ∷ digit (v / 2 ^ 4 % 16)
    ∷ digit (v / 2 ^ 0 % 16)
    ∷ []

itohex-printed :
    (v : ℕ) (out : List ℕ)
    → 11 ≤ length out
    → (rest : List ℕ) × (itohex v out ≡ printed v ++ 0 ∷ rest)
unfolding itohex digit
itohex-printed v (a ∷ b ∷ c ∷ d ∷ e ∷ f ∷ g ∷ h ∷ i ∷ j ∷ k ∷ rest) room = (rest, refl)
itohex-printed v _ room = absurd (omega arith)

text-printed : (v : ℕ) (rest : List ℕ) → text (printed v ++ 0 ∷ rest) ≡ printed v
text-printed v rest = simp (
  digit-ne-zero (v / 2 ^ 28),
  digit-ne-zero (v / 2 ^ 24),
  digit-ne-zero (v / 2 ^ 20),
  digit-ne-zero (v / 2 ^ 16),
  digit-ne-zero (v / 2 ^ 12),
  digit-ne-zero (v / 2 ^ 8),
  digit-ne-zero (v / 2 ^ 4),
  digit-ne-zero (v / 2 ^ 0),
)

read_hex-printed : (v : ℕ) → v < 2 ^ 32 → read_hex (printed v) ≡ v
read_hex-printed v h = omega (
  arith,
  digit_value-digit (v / 2 ^ 28),
  digit_value-digit (v / 2 ^ 24),
  digit_value-digit (v / 2 ^ 20),
  digit_value-digit (v / 2 ^ 16),
  digit_value-digit (v / 2 ^ 12),
  digit_value-digit (v / 2 ^ 8),
  digit_value-digit (v / 2 ^ 4),
  digit_value-digit (v / 2 ^ 0),
)

-- For a 32-bit value and a buffer of at least eleven bytes, the text printed has ten characters and
-- reads back in hexadecimal as the value.
pub read_hex-itohex :
    (v : ℕ) (out : List ℕ)
    → v < 2 ^ 32
    → 11 ≤ length out
    → (read_hex (text (itohex v out)) ≡ v) × (length (text (itohex v out)) ≡ 10)
read_hex-itohex v out h room =
    let (rest, e) = itohex-printed v out room in
    (
      ap (λ o. read_hex (text o)) e ∙ ap read_hex (text-printed v rest) ∙ read_hex-printed v h,
      ap (λ o. length (text o)) e ∙ ap length (text-printed v rest),
    )
