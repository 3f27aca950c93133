-- ===== src/CString/Digits.antt =====
-- The digits that the loops of `itoanum`, src/lib/string.c, and `append_uint`,
-- src/kernel/helper/helpers.c, push.
use my_dos.Base.{
  ℕ, zero, suc, ◌+◌, ◌-◌, ◌*◌, ◌/◌, ◌%◌, ◌^◌, ◌≤◌, ◌<◌, ◌≡◌, ◌≢◌, refl, sym, ap, subst, dec_lt, ◌∙◌,
  arith, List, [], ◌∷◌, ◌++◌, reverse, ltb, length, get_or, append-nil, append_assoc, Bool-cases,
  inl, inr,
}
use mathlib.Core.List.{reverse-cons}
use native.Mathlib.Nat.{pow-suc}
use my_dos.CString.{push_digits}
use my_dos.CString.Compare.{text}

-- The number that a string of digits stands for, read from the left.
abbrev read_from : ℕ → List ℕ → ℕ
read_from acc [] = acc
read_from acc (c ∷ s) = read_from (acc * 10 + (c - b'0')) s

abbrev pub read_decimal : List ℕ → ℕ
read_decimal s = read_from 0 s

abbrev pub AllDigits : List ℕ → Type 0
AllDigits [] = Unit
AllDigits (c ∷ s) = (b'0' ≤ c) × (c ≤ b'9') × AllDigits s

-- Digits read from the right.
pub low_first : List ℕ → ℕ
low_first [] = 0
low_first (c ∷ s) = (c - b'0') + 10 * low_first s

read_from-append :
    (acc : ℕ) (s : List ℕ) (c : ℕ) → read_from acc (s ++ c ∷ []) ≡ read_from acc s * 10 + (c - b'0')
read_from-append acc [] c = refl
read_from-append acc (d ∷ s) c = read_from-append (acc * 10 + (d - b'0')) s c

pub read_decimal-reverse : (s : List ℕ) → read_decimal (reverse s) ≡ low_first s
unfolding low_first
read_decimal-reverse [] = refl
read_decimal-reverse (c ∷ s) =
    ap read_decimal (reverse-cons c s)
    ∙ read_from-append 0 (reverse s) c
    ∙ omega (arith, read_decimal-reverse s)

AllDigits-append : (s t : List ℕ) → AllDigits s → AllDigits t → AllDigits (s ++ t)
AllDigits-append [] t h k = k
AllDigits-append (c ∷ s) t (lo, hi, h) k = (lo, hi, AllDigits-append s t h k)

pub AllDigits-reverse : (s : List ℕ) → AllDigits s → AllDigits (reverse s)
AllDigits-reverse [] h = tt
AllDigits-reverse (c ∷ s) (lo, hi, h) =
    subst AllDigits (sym (reverse-cons c s))
      (AllDigits-append (reverse s) (c ∷ []) (AllDigits-reverse s h) (lo, hi, tt))

pub text-AllDigits : (s rest : List ℕ) → AllDigits s → text (s ++ 0 ∷ rest) ≡ s
text-AllDigits [] rest h = refl
text-AllDigits (c ∷ s) rest (lo, hi, h) = ground (arith, text-AllDigits s rest h)

-- The loop pushes its digits behind those that are there.
push_digits-append :
    (fuel value : ℕ) (tmp : List ℕ) → push_digits fuel value tmp ≡ tmp ++ push_digits fuel value []
unfolding push_digits
push_digits-append zero value tmp = sym (append-nil tmp)
push_digits-append (suc fuel) value tmp =
    let c = b'0' + value % 10 in
    ground (
      arith,
      append-nil tmp,
      push_digits-append fuel (value / 10) (tmp ++ c ∷ []),
      push_digits-append fuel (value / 10) (c ∷ []),
      append_assoc tmp (c ∷ []) (push_digits fuel (value / 10) []),
    )

push_digits-step :
    (fuel value : ℕ)
    → 0 < value
    → push_digits (suc fuel) value [] ≡ (b'0' + value % 10) ∷ push_digits fuel (value / 10) []
unfolding push_digits
push_digits-step fuel value h =
    ground (arith, push_digits-append fuel (value / 10) ((b'0' + value % 10) ∷ []))

push_digits-zero : (fuel : ℕ) → push_digits fuel 0 [] ≡ []
unfolding push_digits
push_digits-zero zero = refl
push_digits-zero (suc fuel) = refl

pub low_first-push_digits :
    (fuel value : ℕ) → value ≤ fuel → low_first (push_digits fuel value []) ≡ value
unfolding low_first
low_first-push_digits zero value h =
    ap low_first (ap (λ v. push_digits 0 v []) {y = 0} (omega arith) ∙ push_digits-zero 0)
    ∙ omega arith
low_first-push_digits (suc fuel) value h = elim (Bool-cases (ltb 0 value)) [
  | inl p ↦
      rw (push_digits-step fuel value (ground arith))
        (omega (arith, low_first-push_digits fuel (value / 10)))
  | inr p ↦ let e : value ≡ 0 = ground arith in rw (e, push_digits-zero) refl
]

pub push_digits-AllDigits : (fuel value : ℕ) → AllDigits (push_digits fuel value [])
push_digits-AllDigits zero value = unfold push_digits in tt
push_digits-AllDigits (suc fuel) value = elim (Bool-cases (ltb 0 value)) [
  | inl p ↦
      subst AllDigits (sym (push_digits-step fuel value (ground arith)))
        (omega arith, omega arith, push_digits-AllDigits fuel (value / 10))
  | inr p ↦ let e : value ≡ 0 = ground arith in rw (e, push_digits-zero) tt
]

longer :
    (n value k : ℕ)
    → (0 < value)
    → value < 10 ^ k
    → ((k' : ℕ) → value / 10 < 10 ^ k' → n ≤ k')
    → suc n ≤ k
longer n value zero p h ih = absurd (omega arith)
longer n value (suc k) p h ih = omega (arith, ih k (omega (arith, pow-suc 10 k)))

pub length-push_digits :
    (fuel value k : ℕ) → value < 10 ^ k → length (push_digits fuel value []) ≤ k
length-push_digits zero value k h = unfold push_digits in omega arith
length-push_digits (suc fuel) value k h = elim (Bool-cases (ltb 0 value)) [
  | inl p ↦
      let pos : 0 < value = ground arith in
      rw (push_digits-step fuel value pos) (
        longer (length (push_digits fuel (value / 10) [])) value k pos h
          (λ k'. length-push_digits fuel (value / 10) k'))
  | inr p ↦ let e : value ≡ 0 = ground arith in rw (e, push_digits-zero) (omega arith)
]

last-cons :
    (c : ℕ) (s : List ℕ)
    → s ≢ []
    → get_or (c ∷ s) (length (c ∷ s) - 1) 0 ≡ get_or s (length s - 1) 0
last-cons c [] h = absurd (h refl)
last-cons c (d ∷ s) h =
    ap (λ i. get_or (c ∷ d ∷ s) i 0) {y = suc (suc (length s) - 1)} (omega arith)

pub push_digits-ne-nil :
    (fuel value : ℕ) → 0 < value → value ≤ fuel → push_digits fuel value [] ≢ []
push_digits-ne-nil zero value p h e = absurd (omega arith)
push_digits-ne-nil (suc fuel) value p h e = cc (push_digits-step fuel value p, e)

-- The digit that is pushed last is not zero.
pub last-push_digits :
    (fuel value : ℕ)
    → 0 < value
    → value ≤ fuel
    → get_or (push_digits fuel value []) (length (push_digits fuel value []) - 1) 0 ≢ b'0'
last-push_digits zero value p h = absurd (omega arith)
last-push_digits (suc fuel) value p h = elim (dec_lt 0 (value / 10)) [
  | yes more ↦
      rw
        (
          push_digits-step fuel value p,
          last-cons (b'0' + value % 10) (push_digits fuel (value / 10) [])
              (push_digits-ne-nil fuel (value / 10) more (omega arith)),
        )
        (last-push_digits fuel (value / 10) more (omega arith))
  | no done ↦
      let e : value / 10 ≡ 0 = omega arith in
      rw (push_digits-step fuel value p, e, push_digits-zero) (omega arith)
]
