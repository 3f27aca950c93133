-- ===== src/Base/Tables.antt =====
-- Tables of two functions that differ by an insertion, an erasure, a cut or a join.
use Prim.Native.Nat.{ℕ, zero, suc, ◌+◌, ◌≤◌, ◌<◌}
use mathlib.Core.Path.{◌≡◌, refl, ap, ap₂, ◌∙◌}
use mathlib.Core.Logic.{◌≢◌}
use mathlib.Core.List.{List, [], ◌∷◌, ◌++◌}
use native.Mathlib.Omega.{arith}
use my_dos.Base.Lists.{tabulate, tabulate-congr, insert_at, erase_at, modify_at, take, drop}

module _ {ℓ} {A : Type ℓ} where
  pub tabulate-insert_at :
      (n c : ℕ) (v : A) (g h : ℕ → A)
      → c ≤ n
      → ((i : ℕ) → i < c → g i ≡ h i)
      → g c ≡ v
      → ((i : ℕ) → c ≤ i → i < n → g (suc i) ≡ h i)
      → tabulate (suc n) g ≡ insert_at c v (tabulate n h)
  tabulate-insert_at n zero v g h le below here above =
      ap₂ ◌∷◌ here (tabulate-congr n (λ i. g (suc i)) h (λ i l. above i (omega arith) l))
  tabulate-insert_at zero (suc c) v g h le below here above = absurd (omega arith)
  tabulate-insert_at (suc n) (suc c) v g h le below here above = ap₂ ◌∷◌ (below 0 (omega arith)) (
      tabulate-insert_at n c v (λ i. g (suc i)) (λ i. h (suc i)) (omega arith)
        (λ i l. below (suc i) (omega arith)) here
        (λ i l m. above (suc i) (omega arith) (omega arith)))

  pub tabulate-erase_at :
      (n c : ℕ) (g h : ℕ → A)
      → c ≤ n
      → ((i : ℕ) → i < c → g i ≡ h i)
      → ((i : ℕ) → c ≤ i → i < n → g i ≡ h (suc i))
      → tabulate n g ≡ erase_at c (tabulate (suc n) h)
  tabulate-erase_at n zero g h le below above =
      tabulate-congr n g (λ i. h (suc i)) (λ i l. above i (omega arith) l)
  tabulate-erase_at zero (suc c) g h le below above = absurd (omega arith)
  tabulate-erase_at (suc n) (suc c) g h le below above = ap₂ ◌∷◌ (below 0 (omega arith)) (
      tabulate-erase_at n c (λ i. g (suc i)) (λ i. h (suc i)) (omega arith)
        (λ i l. below (suc i) (omega arith)) (λ i l m. above (suc i) (omega arith) (omega arith)))

  pub tabulate-modify_at :
      (n r : ℕ) (f : A → A) (g h : ℕ → A)
      → r < n
      → g r ≡ f (h r)
      → ((i : ℕ) → i ≢ r → g i ≡ h i)
      → tabulate n g ≡ modify_at r f (tabulate n h)
  tabulate-modify_at zero r f g h lt here other = absurd (omega arith)
  tabulate-modify_at (suc n) zero f g h lt here other =
      ap₂ ◌∷◌ here
        (tabulate-congr n (λ i. g (suc i)) (λ i. h (suc i)) (λ i l. other (suc i) (omega arith)))
  tabulate-modify_at (suc n) (suc r) f g h lt here other = ap₂ ◌∷◌ (other 0 (omega arith)) (
      tabulate-modify_at n r f (λ i. g (suc i)) (λ i. h (suc i)) (omega arith) here
        (λ i ne. other (suc i) (omega arith)))

  pub tabulate-take :
      (n c : ℕ) (g h : ℕ → A)
      → c ≤ n
      → ((i : ℕ) → i < c → g i ≡ h i)
      → tabulate c g ≡ take c (tabulate n h)
  tabulate-take n zero g h le same = refl
  tabulate-take zero (suc c) g h le same = absurd (omega arith)
  tabulate-take (suc n) (suc c) g h le same = ap₂ ◌∷◌ (same 0 (omega arith)) (
      tabulate-take n c (λ i. g (suc i)) (λ i. h (suc i)) (omega arith)
        (λ i l. same (suc i) (omega arith)))

  pub tabulate-drop :
      (n c m : ℕ) (g h : ℕ → A)
      → n ≡ c + m
      → ((i : ℕ) → i < m → g i ≡ h (c + i))
      → tabulate m g ≡ drop c (tabulate n h)
  tabulate-drop n zero m g h e same =
      let e' : m ≡ n = omega arith in
      ap (λ k. tabulate k g) e'
      ∙ tabulate-congr n g h (λ i l. same i (omega arith) ∙ ap h (omega arith))
  tabulate-drop zero (suc c) m g h e same = absurd (omega arith)
  tabulate-drop (suc n) (suc c) m g h e same =
      tabulate-drop n c m g (λ i. h (suc i)) (omega arith) (λ i l. same i l ∙ ap h (omega arith))

-- The line at an index becomes its first `c` elements and, after those, the rest.
unfoldable pub split_at {ℓ} : {A : Type ℓ} → ℕ → ℕ → List (List A) → List (List A)
split_at r c [] = []
split_at zero c (l ∷ ls) = take c l ∷ drop c l ∷ ls
split_at (suc r) c (l ∷ ls) = l ∷ split_at r c ls

-- The line at an index and the next one become one line.
unfoldable pub join_at {ℓ} : {A : Type ℓ} → ℕ → List (List A) → List (List A)
join_at r [] = []
join_at r (l ∷ []) = l ∷ []
join_at zero (l ∷ m ∷ ls) = (l ++ m) ∷ ls
join_at (suc r) (l ∷ m ∷ ls) = l ∷ join_at r (m ∷ ls)

module _ {ℓ} {A : Type ℓ} where
  pub tabulate-split_at :
      (n r c : ℕ) (g h : ℕ → List A)
      → r < n
      → ((i : ℕ) → i < r → g i ≡ h i)
      → g r ≡ take c (h r)
      → g (suc r) ≡ drop c (h r)
      → ((i : ℕ) → r < i → i < n → g (suc i) ≡ h i)
      → tabulate (suc n) g ≡ split_at r c (tabulate n h)
  unfolding split_at
  tabulate-split_at zero r c g h lt below here next above = absurd (omega arith)
  tabulate-split_at (suc n) zero c g h lt below here next above = ap₂ ◌∷◌ here (
      ap₂ ◌∷◌ next (
        tabulate-congr n (λ i. g (suc (suc i))) (λ i. h (suc i))
          (λ i l. above (suc i) (omega arith) (omega arith))))
  tabulate-split_at (suc n) (suc r) c g h lt below here next above =
      ap₂ ◌∷◌ (below 0 (omega arith)) (
        tabulate-split_at n r c (λ i. g (suc i)) (λ i. h (suc i)) (omega arith)
          (λ i l. below (suc i) (omega arith)) here next
          (λ i l m. above (suc i) (omega arith) (omega arith)))

  pub tabulate-join_at :
      (n r : ℕ) (g h : ℕ → List A)
      → r < n
      → ((i : ℕ) → i < r → g i ≡ h i)
      → g r ≡ h r ++ h (suc r)
      → ((i : ℕ) → r < i → i < n → g i ≡ h (suc i))
      → tabulate n g ≡ join_at r (tabulate (suc n) h)
  unfolding join_at
  tabulate-join_at zero r g h lt below here above = absurd (omega arith)
  tabulate-join_at (suc n) zero g h lt below here above = ap₂ ◌∷◌ here (
      tabulate-congr n (λ i. g (suc i)) (λ i. h (suc (suc i)))
        (λ i l. above (suc i) (omega arith) (omega arith)))
  tabulate-join_at (suc n) (suc r) g h lt below here above = ap₂ ◌∷◌ (below 0 (omega arith)) (
      tabulate-join_at n r (λ i. g (suc i)) (λ i. h (suc i)) (omega arith)
        (λ i l. below (suc i) (omega arith)) here
        (λ i l m. above (suc i) (omega arith) (omega arith)))
