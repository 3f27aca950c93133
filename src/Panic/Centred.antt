-- ===== src/Panic/Centred.antt =====
-- What `print_centered` of src/kernel/panic.c leaves on the screen.
use my_dos.Base.{
  ℕ, zero, suc, ◌+◌, ◌*◌, ◌-◌, ◌≤◌, ◌<◌, ◌≡◌, refl, sym, ap, ◌∙◌, arith, ◌&&◌, not, List, [], ◌∷◌,
  ◌++◌, ltb, leb, ◌==◌, if◌then◌else◌, get_or, length, Bool-cases, inl, inr, length-append, subst,
}
use my_dos.Kernel.{white}
use my_dos.CString.{strlen}
use my_dos.CString.Compare.{text, strlen-eq-length_text}
use my_dos.Vga.{Theme, Words, print, cell, theme_attribute}
use my_dos.Vga.Print.{print_lem}
use my_dos.Panic.{print_some, centred_column, print_centered}

get_or-text : (s : List ℕ) (k : ℕ) → k < strlen s → get_or s k 0 ≡ get_or (text s) k 0
unfolding strlen
get_or-text [] k h = refl
get_or-text (c ∷ s) zero h = ground arith
get_or-text (c ∷ s) (suc k) h = ground (arith, get_or-text s k)

get_or-append_left :
    (xs ys : List ℕ) (k : ℕ) → k < length xs → get_or (xs ++ ys) k 0 ≡ get_or xs k 0
get_or-append_left [] ys k h = absurd (omega arith)
get_or-append_left (x ∷ xs) ys zero h = refl
get_or-append_left (x ∷ xs) ys (suc k) h = get_or-append_left xs ys k (omega arith)

get_or-append_right : (xs ys : List ℕ) (k : ℕ) → get_or (xs ++ ys) (length xs + k) 0 ≡ get_or ys k 0
get_or-append_right [] ys k = ap (λ n. get_or ys n 0) (omega arith)
get_or-append_right (x ∷ xs) ys k =
    let next : suc (length xs) + k ≡ suc (length xs + k) = omega arith in
    ap (λ n. get_or (x ∷ (xs ++ ys)) n 0) next ∙ get_or-append_right xs ys k

-- The cell at an index, once a text is shown from an offset on.
abbrev pub shown : List ℕ → ℕ → Theme → ℕ → ℕ → ℕ
shown s offset theme i old =
    if leb offset i && ltb i (offset + length s) && ltb i 2000
    then cell (get_or s (i - offset) 0) (theme_attribute white theme)
    else old

print-shown :
    (s : List ℕ) (x y : ℕ) (theme : Theme) (words : Words) (i : ℕ)
    → print s white x y theme words i ≡ shown (text s) (y * 80 + x) theme i (words i)
print-shown s x y theme words i =
    let len = strlen-eq-length_text s in
    let o = y * 80 + x in
    print_lem s white x y theme words i
    ∙ elim (Bool-cases (leb o i && ltb i (o + length (text s)))) [
      | inl e ↦ rw (len, get_or-text s (i - o) (ground (arith, len))) refl
      | inr e ↦ rw len (ground arith)
    ]

print_some-shown :
    (s : List ℕ) (x y : ℕ) (theme : Theme) (words : Words) (i : ℕ)
    → print_some s x y theme words i ≡ shown (text s) (y * 80 + x) theme i (words i)
print_some-shown [] x y theme words i = ground arith
print_some-shown (c ∷ s) x y theme words i = elim (Bool-cases (c == 0)) [
  | inl e ↦ rw e (ground arith)
  | inr e ↦
      subst
        (λ b.
          (if not b then print (c ∷ s) white x y theme words else words) i
          ≡ shown (text (c ∷ s)) (y * 80 + x) theme i (words i))
        (sym e) (print-shown (c ∷ s) x y theme words i)
]

-- Two texts one behind the other.
shown-append :
    (xs ys : List ℕ) (o : ℕ) (theme : Theme) (i old : ℕ)
    → shown ys (o + length xs) theme i (shown xs o theme i old) ≡ shown (xs ++ ys) o theme i old
shown-append xs ys o theme i old =
    let len = length-append xs ys in
    elim (Bool-cases (ltb i (o + length xs))) [
      | inl e ↦ elim (Bool-cases (leb o i)) [
        | inl f ↦ rw (len, get_or-append_left xs ys (i - o) (ground arith)) (ground arith)
        | inr f ↦ ground (arith, len)
      ]
      | inr e ↦
          let at : i - o ≡ length xs + (i - (o + length xs)) = ground arith in
          rw (len, at, get_or-append_right xs ys (i - (o + length xs))) (ground arith)
    ]

-- The prefix and the body are shown as one text, from the column on.
pub print_centered-shown :
    (prefix body : List ℕ) (y : ℕ) (theme : Theme) (words : Words) (i : ℕ)
    → (let whole = text prefix ++ text body in
        print_centered prefix body y theme words i
        ≡ shown whole (y * 80 + centred_column (length whole)) theme i (words i))
unfolding print_centered
print_centered-shown prefix body y theme words i =
    let lp = strlen-eq-length_text prefix in
    let lb = strlen-eq-length_text body in
    let x = centred_column (length (text prefix ++ text body)) in
    let assoc : y * 80 + (x + length (text prefix)) ≡ y * 80 + x + length (text prefix) =
      omega arith in
    rw (lp, lb, sym (length-append (text prefix) (text body)))
      (print_some-shown body (x + length (text prefix)) y theme (print_some prefix x y theme words)
          i
        ∙ rw (print_some-shown prefix x y theme words i, assoc)
            (shown-append (text prefix) (text body) (y * 80 + x) theme i (words i)))

-- A text of at most 78 bytes keeps a margin on both sides, and the two margins differ by at most one.
pub centred_column-margins :
    (n : ℕ)
    → n ≤ 78
    → (1 ≤ centred_column n) × (2 * centred_column n + n ≤ 80) × (79 ≤ 2 * centred_column n + n)
unfolding centred_column
centred_column-margins n h = ground arith
