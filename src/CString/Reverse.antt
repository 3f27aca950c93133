-- ===== src/CString/Reverse.antt =====
-- The loop `for (j = 0; j < i; j++) out[j] = tmp[i - 1 - j]` of src/lib/string.c and
-- src/kernel/helper/helpers.c.
use my_dos.Base.{
  ℕ, zero, suc, ◌-◌, ◌≤◌, ◌<◌, ◌≡◌, refl, sym, ap, ap₂, ◌∙◌, arith, List, [], ◌∷◌, ◌++◌, reverse,
  get_or, set, take, drop, length, for_below, length-reverse, length-take, append_assoc, dec_lt,
}
use mathlib.Core.List.{reverse-cons}
use my_dos.CString.{copy_reversed}

set-append :
    (xs ys : List ℕ) (y v : ℕ) (n : ℕ) → n ≡ length xs → set (xs ++ y ∷ ys) n v ≡ xs ++ v ∷ ys
set-append [] ys y v zero h = refl
set-append [] ys y v (suc n) h = absurd (omega arith)
set-append (x ∷ xs) ys y v zero h = absurd (omega arith)
set-append (x ∷ xs) ys y v (suc n) h = ap (x ∷◌) (set-append xs ys y v n (omega arith))

drop-cons : (k : ℕ) (xs : List ℕ) → k < length xs → drop k xs ≡ get_or xs k 0 ∷ drop (suc k) xs
drop-cons zero [] h = absurd (omega arith)
drop-cons zero (x ∷ xs) h = refl
drop-cons (suc k) [] h = absurd (omega arith)
drop-cons (suc k) (x ∷ xs) h = drop-cons k xs (omega arith)

take-suc : (k : ℕ) (xs : List ℕ) → k < length xs → take (suc k) xs ≡ take k xs ++ get_or xs k 0 ∷ []
take-suc zero [] h = absurd (omega arith)
take-suc zero (x ∷ xs) h = refl
take-suc (suc k) [] h = absurd (omega arith)
take-suc (suc k) (x ∷ xs) h = ap (x ∷◌) (take-suc k xs (omega arith))

get_or-append_left :
    (xs ys : List ℕ) (k : ℕ) → k < length xs → get_or (xs ++ ys) k 0 ≡ get_or xs k 0
get_or-append_left [] ys k h = absurd (omega arith)
get_or-append_left (x ∷ xs) ys zero h = refl
get_or-append_left (x ∷ xs) ys (suc k) h = get_or-append_left xs ys k (omega arith)

get_or-append_at : (xs ys : List ℕ) (y k : ℕ) → k ≡ length xs → get_or (xs ++ y ∷ ys) k 0 ≡ y
get_or-append_at [] ys y zero h = refl
get_or-append_at [] ys y (suc k) h = absurd (omega arith)
get_or-append_at (x ∷ xs) ys y zero h = absurd (omega arith)
get_or-append_at (x ∷ xs) ys y (suc k) h = get_or-append_at xs ys y k (omega arith)

pub get_or-reverse :
    (xs : List ℕ) (k : ℕ)
    → k < length xs
    → get_or xs (length xs - 1 - k) 0 ≡ get_or (reverse xs) k 0
get_or-reverse [] k h = absurd (omega arith)
get_or-reverse (x ∷ xs) k h = elim (dec_lt k (length xs)) [
  | yes p ↦
      ap (λ i. get_or (x ∷ xs) i 0) {y = suc (length xs - 1 - k)} (omega arith)
      ∙ get_or-reverse xs k p
      ∙ sym (
          ap (λ l. get_or l k 0) (reverse-cons x xs)
          ∙ get_or-append_left (reverse xs) (x ∷ []) k (omega (arith, length-reverse xs)))
  | no p ↦
      ap (λ i. get_or (x ∷ xs) i 0) {y = 0} (omega arith)
      ∙ sym (
          ap (λ l. get_or l k 0) (reverse-cons x xs)
          ∙ get_or-append_at (reverse xs) [] x k (omega (arith, length-reverse xs)))
]

copy_reversed-upto :
    (n : ℕ) (tmp out : List ℕ)
    → n ≤ length tmp
    → length tmp ≤ length out
    → for_below n (λ j o. set o j (get_or tmp (length tmp - 1 - j) 0)) out
      ≡ take n (reverse tmp) ++ drop n out
copy_reversed-upto zero tmp out h k = refl
copy_reversed-upto (suc n) tmp out h k =
    ap₂ (λ o v. set o n v) (copy_reversed-upto n tmp out (omega arith) k)
      (get_or-reverse tmp n (omega arith))
    ∙ ap (λ d. set (take n (reverse tmp) ++ d) n (get_or (reverse tmp) n 0))
        (drop-cons n out (omega arith))
    ∙ set-append (take n (reverse tmp)) (drop (suc n) out) (get_or out n 0)
        (get_or (reverse tmp) n 0) n
        (sym (length-take n (reverse tmp) (omega (arith, length-reverse tmp))))
    ∙ sym (
        ap (λ t. t ++ drop (suc n) out)
          (take-suc n (reverse tmp) (omega (arith, length-reverse tmp)))
        ∙ append_assoc (take n (reverse tmp)) (get_or (reverse tmp) n 0 ∷ []) (drop (suc n) out))

take-length : (xs : List ℕ) (n : ℕ) → n ≡ length xs → take n xs ≡ xs
take-length [] zero h = refl
take-length [] (suc n) h = absurd (omega arith)
take-length (x ∷ xs) zero h = absurd (omega arith)
take-length (x ∷ xs) (suc n) h = ap (x ∷◌) (take-length xs n (omega arith))

-- The loop writes the reversed bytes over the first ones of the block and leaves the others.
pub copy_reversed_lem :
    (tmp out : List ℕ)
    → length tmp ≤ length out
    → copy_reversed (length tmp) tmp out ≡ reverse tmp ++ drop (length tmp) out
unfolding copy_reversed
copy_reversed_lem tmp out h =
    copy_reversed-upto (length tmp) tmp out (omega arith) h
    ∙ ap (λ t. t ++ drop (length tmp) out)
        (take-length (reverse tmp) (length tmp) (sym (length-reverse tmp)))

-- The terminator goes behind the copied bytes.
pub set-copy_reversed :
    (tmp out : List ℕ)
    → length tmp < length out
    → set (copy_reversed (length tmp) tmp out) (length tmp) 0
      ≡ reverse tmp ++ 0 ∷ drop (suc (length tmp)) out
set-copy_reversed tmp out h =
    ap (λ o. set o (length tmp) 0)
      (copy_reversed_lem tmp out (omega arith)
        ∙ ap (λ d. reverse tmp ++ d) (drop-cons (length tmp) out h))
    ∙ set-append (reverse tmp) (drop (suc (length tmp)) out) (get_or out (length tmp) 0) 0
        (length tmp) (sym (length-reverse tmp))
