-- ===== src/CString.antt =====
-- src/lib/string.c and the number formatting of src/kernel/helper/helpers.c. A string is the list of
-- the bytes at its address; past the last one stands the terminating zero.
pub mod Compare
pub mod Memory
pub mod Reverse
pub mod Digits
pub mod Decimal
pub mod Hex
mod Tests
use my_dos.Base.{
  ℕ, zero, suc, ◌+◌, ◌-◌, ◌*◌, ◌/◌, ◌%◌, ◌^◌, ◌&&◌, Bool, true, false, not, List, [], ◌∷◌, ◌++◌,
  Option, none, some, ltb, ◌==◌, if◌then◌else◌, get_or, set, length, for_below, String, codes,
}
use my_dos.Base.Int.{ℤ, pos, sub_ℕ}

-- `*s`
abbrev pub head_or_zero : List ℕ → ℕ
head_or_zero [] = 0
head_or_zero (c ∷ s) = c

unfoldable pub strlen : List ℕ → ℕ
strlen [] = 0
strlen (c ∷ s) = if c == 0 then 0 else suc (strlen s)

-- The loop of `strcmp` ends at a zero of the first string or at a difference, and the result is the
-- difference of the two bytes there.
unfoldable pub strcmp : List ℕ → List ℕ → ℤ
strcmp [] t = sub_ℕ 0 (head_or_zero t)
strcmp (c ∷ s) [] = sub_ℕ c 0
strcmp (c ∷ s) (d ∷ t) = if not (c == 0) && c == d then strcmp s t else sub_ℕ c d

unfoldable pub strncmp : List ℕ → List ℕ → ℕ → ℤ
strncmp s t zero = pos 0
strncmp [] t (suc n) = sub_ℕ 0 (head_or_zero t)
strncmp (c ∷ s) [] (suc n) = sub_ℕ c 0
strncmp (c ∷ s) (d ∷ t) (suc n) = if not (c == 0) && c == d then strncmp s t n else sub_ℕ c d

-- `none` is a null pointer; otherwise the string from the character on. The zero is found too.
unfoldable pub strchr : List ℕ → ℕ → Option (List ℕ)
strchr [] character = if character == 0 then some [] else none
strchr (c ∷ s) character =
    if c == 0
    then (if character == 0 then some (c ∷ s) else none)
    else if c == character % 256
    then some (c ∷ s)
    else strchr s character

-- The functions on memory: `none` is an access past the end of a block.
unfoldable pub memset : List ℕ → ℕ → ℕ → Option (List ℕ)
memset destination value zero = some destination
memset [] value (suc count) = none
memset (b ∷ destination) value (suc count) =
    let rest = memset destination value count in
    elim rest [ none ↦ none | some r ↦ some ((value % 256) ∷ r) ]

unfoldable pub memcpy : List ℕ → List ℕ → ℕ → Option (List ℕ)
memcpy destination source zero = some destination
memcpy [] source (suc count) = none
memcpy (b ∷ destination) [] (suc count) = none
memcpy (b ∷ destination) (c ∷ source) (suc count) =
    let rest = memcpy destination source count in elim rest [ none ↦ none | some r ↦ some (c ∷ r) ]

unfoldable pub memcmp : List ℕ → List ℕ → ℕ → Option ℤ
memcmp left right zero = some (pos 0)
memcmp [] right (suc count) = none
memcmp (a ∷ left) [] (suc count) = none
memcmp (a ∷ left) (b ∷ right) (suc count) =
    let rest = memcmp left right count in if a == b then rest else some (sub_ℕ a b)

-- `strcmp(s, "...") == 0`
unfoldable pub equals : List ℕ → String → Bool
equals s t = elim (strcmp s (codes t)) [ pos n ↦ n == 0 | ℤ.negsuc n ↦ false ]

-- while (value > 0) { tmp[i++] = '0' + value % 10; value /= 10; }: the digits, the last one first,
-- behind those that are there. The fuel is the value: each round makes it smaller.
unfoldable pub push_digits : ℕ → ℕ → List ℕ → List ℕ
push_digits zero value tmp = tmp
push_digits (suc fuel) value tmp =
    let rest = push_digits fuel (value / 10) (tmp ++ (b'0' + value % 10) ∷ []) in
    if ltb 0 value then rest else tmp

-- for (j = 0; j < i; j++) out[j] = tmp[i - 1 - j];
unfoldable pub copy_reversed : ℕ → List ℕ → List ℕ → List ℕ
copy_reversed i tmp = for_below i (λ j out. set out j (get_or tmp (i - 1 - j) 0))

unfoldable pub itoanum : ℕ → List ℕ → List ℕ
unfolding push_digits copy_reversed
itoanum value out =
    if value == 0
    then set (set out 0 b'0') 1 0
    else let tmp = push_digits value value [] in
      set (copy_reversed (length tmp) tmp out) (length tmp) 0

-- `helpers.c` has the same code again.
unfoldable pub append_uint : List ℕ → ℕ → List ℕ
unfolding push_digits copy_reversed
append_uint out value =
    if value == 0
    then set (set out 0 b'0') 1 0
    else let tmp = push_digits value value [] in
      set (copy_reversed (length tmp) tmp out) (length tmp) 0

-- while (len < width) tmp[len++] = '0';
unfoldable pub pad_zeros : ℕ → List ℕ → List ℕ
pad_zeros zero tmp = tmp
pad_zeros (suc n) tmp = pad_zeros n (tmp ++ b'0' ∷ [])

unfoldable pub append_padded : List ℕ → ℕ → ℕ → List ℕ
unfolding push_digits copy_reversed pad_zeros
append_padded out value width =
    let digits = if value == 0 then b'0' ∷ [] else push_digits value value [] in
    let tmp = pad_zeros (width - length digits) digits in
    set (copy_reversed (length tmp) tmp out) (length tmp) 0

abbrev pub hex_digits : List ℕ
hex_digits = codes "0123456789ABCDEF"

-- `value >> shift` is a division, and `& 0xF` the remainder by 16.
unfoldable pub itohex : ℕ → List ℕ → List ℕ
itohex value out =
    let prefixed = set (set out 0 b'0') 1 b'x' in
    set
      (for_below 8 (λ i o. set o (2 + i) (get_or hex_digits (value / 2 ^ ((7 - i) * 4) % 16) 0))
        prefixed)
      10 0
