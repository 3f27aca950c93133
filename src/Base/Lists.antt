-- ===== src/Base/Lists.antt =====
-- Lists measured and indexed by native numbers, under the library's names.
use Prim.Native.Nat.{ℕ, zero, suc, ◌+◌, ◌-◌, ◌≤◌, ◌<◌}
use Prim.Native.String.{String}
use Prim.Native.Char.{code}
use mathlib.Core.Path.{◌≡◌, refl, sym, ap, ap₂, ◌∙◌}
use mathlib.Core.Logic.{◌≢◌}
use mathlib.Core.List.{List, [], ◌∷◌, ◌++◌, reverse, reverse-cons}
use native.Mathlib.Omega.{arith}

-- The code points of a text: its bytes, if it is ASCII.
abbrev pub codes : String → List ℕ
codes String.[] = []
codes (String.◌∷◌ c s) = code c ∷ codes s

module _ {ℓ} {A : Type ℓ} where
  abbrev pub length : List A → ℕ
  length [] = 0
  length (_ ∷ xs) = suc (length xs)

  abbrev pub get_or : List A → ℕ → A → A
  get_or [] i d = d
  get_or (x ∷ xs) zero d = x
  get_or (x ∷ xs) (suc i) d = get_or xs i d

  -- A write out of bounds changes nothing.
  abbrev pub set : List A → ℕ → A → List A
  set [] i v = []
  set (x ∷ xs) zero v = v ∷ xs
  set (x ∷ xs) (suc i) v = x ∷ set xs i v

  abbrev pub take : ℕ → List A → List A
  take zero xs = []
  take (suc n) [] = []
  take (suc n) (x ∷ xs) = x ∷ take n xs

  abbrev pub drop : ℕ → List A → List A
  drop zero xs = xs
  drop (suc n) [] = []
  drop (suc n) (x ∷ xs) = drop n xs

  abbrev pub replicate : ℕ → A → List A
  replicate zero a = []
  replicate (suc n) a = a ∷ replicate n a

  -- f 0, f 1, …, f (n - 1)
  abbrev pub tabulate : ℕ → (ℕ → A) → List A
  tabulate zero f = []
  tabulate (suc n) f = f 0 ∷ tabulate n (λ i. f (suc i))

  abbrev pub insert_at : ℕ → A → List A → List A
  insert_at zero v xs = v ∷ xs
  insert_at (suc i) v [] = v ∷ []
  insert_at (suc i) v (x ∷ xs) = x ∷ insert_at i v xs

  abbrev pub erase_at : ℕ → List A → List A
  erase_at i [] = []
  erase_at zero (x ∷ xs) = xs
  erase_at (suc i) (x ∷ xs) = x ∷ erase_at i xs

  -- The element at an index, changed by a function.
  abbrev pub modify_at : ℕ → (A → A) → List A → List A
  modify_at i f [] = []
  modify_at zero f (x ∷ xs) = f x ∷ xs
  modify_at (suc i) f (x ∷ xs) = x ∷ modify_at i f xs

module _ {ℓ} {A : Type ℓ} where
  pub length-append : (xs ys : List A) → length (xs ++ ys) ≡ length xs + length ys
  length-append [] ys = omega arith
  length-append (x ∷ xs) ys = omega (arith, length-append xs ys)

  pub length-set : (xs : List A) (i : ℕ) (v : A) → length (set xs i v) ≡ length xs
  length-set [] i v = refl
  length-set (x ∷ xs) zero v = refl
  length-set (x ∷ xs) (suc i) v = ap suc (length-set xs i v)

  pub length-reverse : (xs : List A) → length (reverse xs) ≡ length xs
  length-reverse [] = refl
  length-reverse (x ∷ xs) =
      omega (
        arith,
        ap length (reverse-cons x xs),
        length-append (reverse xs) (x ∷ []),
        length-reverse xs,
      )

  pub length-take : (n : ℕ) (xs : List A) → n ≤ length xs → length (take n xs) ≡ n
  length-take zero xs h = refl
  length-take (suc n) [] h = absurd (omega arith)
  length-take (suc n) (x ∷ xs) h = ap suc (length-take n xs (omega arith))

  pub length-drop : (n : ℕ) (xs : List A) → length (drop n xs) ≡ length xs - n
  length-drop zero xs = omega arith
  length-drop (suc n) [] = omega arith
  length-drop (suc n) (x ∷ xs) = omega (arith, length-drop n xs)

  pub take-append-drop : (n : ℕ) (xs : List A) → take n xs ++ drop n xs ≡ xs
  take-append-drop zero xs = refl
  take-append-drop (suc n) [] = refl
  take-append-drop (suc n) (x ∷ xs) = ap (x ∷◌) (take-append-drop n xs)

  pub take-append : (xs ys : List A) (n : ℕ) → n ≡ length xs → take n (xs ++ ys) ≡ xs
  take-append [] ys zero h = refl
  take-append [] ys (suc n) h = absurd (omega arith)
  take-append (x ∷ xs) ys zero h = absurd (omega arith)
  take-append (x ∷ xs) ys (suc n) h = ap (x ∷◌) (take-append xs ys n (omega arith))

  pub drop-append : (xs ys : List A) (n : ℕ) → n ≡ length xs → drop n (xs ++ ys) ≡ ys
  drop-append [] ys zero h = refl
  drop-append [] ys (suc n) h = absurd (omega arith)
  drop-append (x ∷ xs) ys zero h = absurd (omega arith)
  drop-append (x ∷ xs) ys (suc n) h = drop-append xs ys n (omega arith)

  pub insert_at-append :
      (xs ys : List A) (v : A) (n : ℕ) → n ≡ length xs → insert_at n v (xs ++ ys) ≡ xs ++ v ∷ ys
  insert_at-append [] ys v zero h = refl
  insert_at-append [] ys v (suc n) h = absurd (omega arith)
  insert_at-append (x ∷ xs) ys v zero h = absurd (omega arith)
  insert_at-append (x ∷ xs) ys v (suc n) h = ap (x ∷◌) (insert_at-append xs ys v n (omega arith))

  pub erase_at-append :
      (xs ys : List A) (v : A) (n : ℕ) → n ≡ length xs → erase_at n (xs ++ v ∷ ys) ≡ xs ++ ys
  erase_at-append [] ys v zero h = refl
  erase_at-append [] ys v (suc n) h = absurd (omega arith)
  erase_at-append (x ∷ xs) ys v zero h = absurd (omega arith)
  erase_at-append (x ∷ xs) ys v (suc n) h = ap (x ∷◌) (erase_at-append xs ys v n (omega arith))

  pub modify_at-append :
      (xs ys : List A) (f : A → A) (v : A) (n : ℕ)
      → n ≡ length xs
      → modify_at n f (xs ++ v ∷ ys) ≡ xs ++ f v ∷ ys
  modify_at-append [] ys f v zero h = refl
  modify_at-append [] ys f v (suc n) h = absurd (omega arith)
  modify_at-append (x ∷ xs) ys f v zero h = absurd (omega arith)
  modify_at-append (x ∷ xs) ys f v (suc n) h =
      ap (x ∷◌) (modify_at-append xs ys f v n (omega arith))

module _ {ℓ} {A : Type ℓ} where
  pub length-tabulate : (n : ℕ) (f : ℕ → A) → length (tabulate n f) ≡ n
  length-tabulate zero f = refl
  length-tabulate (suc n) f = ap suc (length-tabulate n (λ i. f (suc i)))

  pub tabulate-congr :
      (n : ℕ) (f g : ℕ → A) → ((i : ℕ) → i < n → f i ≡ g i) → tabulate n f ≡ tabulate n g
  tabulate-congr zero f g h = refl
  tabulate-congr (suc n) f g h =
      ap₂ ◌∷◌ (h 0 (omega arith))
        (tabulate-congr n (λ i. f (suc i)) (λ i. g (suc i)) (λ i l. h (suc i) (omega arith)))

  -- A table cut in two.
  pub tabulate-append :
      (m n k : ℕ) (f g : ℕ → A)
      → k ≡ m + n
      → ((i : ℕ) → i < n → g i ≡ f (m + i))
      → tabulate k f ≡ tabulate m f ++ tabulate n g
  tabulate-append zero n k f g e h =
      let e' : k ≡ n = omega arith in
      rw e' (sym (tabulate-congr n g f (λ i l. h i l ∙ ap f (omega arith))))
  tabulate-append (suc m) n zero f g e h = absurd (omega arith)
  tabulate-append (suc m) n (suc k) f g e h =
      ap (f 0 ∷◌)
        (tabulate-append m n k (λ i. f (suc i)) g (omega arith) (λ i l. h i l ∙ ap f (omega arith)))

  pub take-nil_inv : (n : ℕ) (xs : List A) → length (take (suc n) xs) ≡ 0 → xs ≡ []
  take-nil_inv n [] h = refl
  take-nil_inv n (x ∷ xs) h = absurd (omega arith)

  pub length-drop_lt :
      (n k : ℕ) (xs : List A)
      → length (take (suc n) xs) ≢ 0
      → length xs < suc k
      → length (drop (suc n) xs) < k
  length-drop_lt n k [] ne h = absurd (ne refl)
  length-drop_lt n k (x ∷ xs) ne h = omega (arith, length-drop n xs)

  pub take-length-take :
      (n k : ℕ) (xs : List A) → take (length (take n xs) + k) xs ≡ take n xs ++ take k (drop n xs)
  take-length-take zero k xs = ap (λ n. take n xs) (omega arith)
  take-length-take (suc n) k [] = ground arith
  take-length-take (suc n) k (x ∷ xs) =
      let one_more : suc (length (take n xs)) + k ≡ suc (length (take n xs) + k) = omega arith in
      ap (λ m. take m (x ∷ xs)) one_more ∙ ap (λ ys. x ∷ ys) (take-length-take n k xs)

  pub take-all : (n : ℕ) (xs : List A) → length xs ≤ n → take n xs ≡ xs
  take-all zero [] h = refl
  take-all zero (x ∷ xs) h = absurd (omega arith)
  take-all (suc n) [] h = refl
  take-all (suc n) (x ∷ xs) h = ap (λ ys. x ∷ ys) (take-all n xs (omega arith))
