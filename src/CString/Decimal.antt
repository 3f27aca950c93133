-- ===== src/CString/Decimal.antt =====
-- The decimal numbers that `itoanum` of src/lib/string.c and `append_uint` and `append_padded` of
-- src/kernel/helper/helpers.c print.
use my_dos.Base.{
  ℕ, suc, ◌^◌, ◌≤◌, ◌<◌, ◌≡◌, ◌≢◌, refl, sym, ap, subst, ◌∙◌, arith, List, [], ◌∷◌, reverse, ◌==◌,
  length, get_or, set, drop, length-reverse, ==→eq, Bool-cases, inl, inr,
}
use my_dos.CString.{push_digits, itoanum, append_uint}
use my_dos.CString.Compare.{text}
use my_dos.CString.Reverse.{set-copy_reversed, get_or-reverse}
use my_dos.CString.Digits.{
  read_decimal, AllDigits, read_decimal-reverse, AllDigits-reverse, text-AllDigits,
  low_first-push_digits, push_digits-AllDigits, length-push_digits, push_digits-ne-nil,
  last-push_digits,
}

-- A string that is the canonical decimal numeral of a number of at most ten digits.
pub record IsDecimal (value : ℕ) (s : List ℕ) : Type 0 where
  pub reads : read_decimal s ≡ value
  pub digits : AllDigits s
  pub short : length s ≤ 10
  pub some_digit : 1 ≤ length s
  pub no_leading_zero : value ≢ 0 → get_or s 0 0 ≢ b'0'
  pub narrow : (k : ℕ) → 1 ≤ k → value < 10 ^ k → length s ≤ k

reverse_digits-IsDecimal :
    (value : ℕ)
    → 0 < value
    → value < 2 ^ 32
    → IsDecimal value (reverse (push_digits value value []))
reverse_digits-IsDecimal value p small =
    let tmp = push_digits value value [] in
    let nonempty : 0 < length tmp =
      length_pos tmp (push_digits-ne-nil value value p (omega arith)) in
    record {
      reads = read_decimal-reverse tmp ∙ low_first-push_digits value value (omega arith);
      digits = AllDigits-reverse tmp (push_digits-AllDigits value value);
      short = omega (arith, length-reverse tmp, length-push_digits value value 10 (omega arith));
      some_digit = omega (arith, length-reverse tmp);
      no_leading_zero = λ ne e.
          last-push_digits value value p (omega arith)
            (ap (λ i. get_or tmp i 0) (omega arith) ∙ get_or-reverse tmp 0 nonempty ∙ e);
      narrow = λ k h l. omega (arith, length-reverse tmp, length-push_digits value value k l);
    }
  where
    length_pos : (s : List ℕ) → s ≢ [] → 0 < length s
    length_pos [] h = absurd (h refl)
    length_pos (c ∷ s) h = omega arith

text-zero : (out : List ℕ) → 10 < length out → text (set (set out 0 b'0') 1 0) ≡ b'0' ∷ []
text-zero [] h = absurd (omega arith)
text-zero (x ∷ []) h = absurd (omega arith)
text-zero (x ∷ y ∷ out) h = refl

zero-IsDecimal : IsDecimal 0 (b'0' ∷ [])
zero-IsDecimal = record {
  reads = refl;
  digits = omega arith;
  short = omega arith;
  some_digit = omega arith;
  no_leading_zero = λ ne. absurd (ne refl);
  narrow = λ k h l. h;
}

-- For a 32-bit value and a buffer of more than ten bytes, the text printed is the decimal number of
-- the value, at most ten digits without a leading zero.
pub itoanum-IsDecimal :
    (value : ℕ) (out : List ℕ)
    → value < 2 ^ 32
    → 10 < length out
    → IsDecimal value (text (itoanum value out))
unfolding itoanum
itoanum-IsDecimal value out small room = elim (Bool-cases (value == 0)) [
  | inl e ↦
      rw (e, text-zero out room)
        (subst (λ v. IsDecimal v (b'0' ∷ [])) (sym (==→eq value 0 e)) zero-IsDecimal)
  | inr e ↦
      let pos : 0 < value = ground arith in
      let tmp = push_digits value value [] in
      let h = reverse_digits-IsDecimal value pos small in
      rw
        (
          e,
          set-copy_reversed tmp out (omega (arith, h.short, length-reverse tmp)),
          text-AllDigits (reverse tmp) (drop (suc (length tmp)) out) h.digits,
        )
        h
]

-- For a 32-bit value and a buffer of more than ten bytes, the second printing routine prints the
-- decimal number too.
pub append_uint-IsDecimal :
    (value : ℕ) (out : List ℕ)
    → value < 2 ^ 32
    → 10 < length out
    → IsDecimal value (text (append_uint out value))
append_uint-IsDecimal value out small room =
    subst (λ o. IsDecimal value (text o)) same (itoanum-IsDecimal value out small room)
  where
    same : itoanum value out ≡ append_uint out value
    same = unfold itoanum append_uint in refl
