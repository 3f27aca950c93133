-- ===== src/CString/Compare.antt =====
-- What the comparisons of src/lib/string.c decide.
use my_dos.Base.{
  ℕ, zero, suc, ◌≡◌, ◌↔◌, refl, arith, true, List, [], ◌∷◌, ◌==◌, if◌then◌else◌, String, codes,
  take, length,
}
use my_dos.Base.Int.{pos, sub_ℕ}
use my_dos.CString.{strlen, strcmp, strncmp, equals}

-- The bytes before the first zero.
abbrev pub text : List ℕ → List ℕ
text [] = []
text (c ∷ s) = if c == 0 then [] else c ∷ text s

pub strlen-eq-length_text : (s : List ℕ) → strlen s ≡ length (text s)
unfolding strlen
strlen-eq-length_text [] = refl
strlen-eq-length_text (c ∷ s) = ground (arith, strlen-eq-length_text s)

sub_ℕ-eq_zero : (a b : ℕ) → sub_ℕ a b ≡ pos 0 → a ≡ b
sub_ℕ-eq_zero a b h = ground arith

-- The comparison returns 0 exactly for strings with the same text before their zero.
pub strcmp-eq-zero : (s t : List ℕ) → (strcmp s t ≡ pos 0) ↔ (text s ≡ text t)
unfolding strcmp
strcmp-eq-zero [] [] = (λ h. refl, λ h. refl)
strcmp-eq-zero [] (d ∷ t) = ground arith
strcmp-eq-zero (c ∷ s) [] = ground arith
strcmp-eq-zero (c ∷ s) (d ∷ t) =
    (λ h. ground (arith, (strcmp-eq-zero s t).0), λ h. ground (arith, (strcmp-eq-zero s t).1))

-- The bounded comparison returns 0 exactly if the texts agree in their first n bytes.
pub strncmp-eq-zero :
    (s t : List ℕ) (n : ℕ) → (strncmp s t n ≡ pos 0) ↔ (take n (text s) ≡ take n (text t))
unfolding strncmp
strncmp-eq-zero s t zero = (λ h. refl, λ h. refl)
strncmp-eq-zero [] [] (suc n) = (λ h. refl, λ h. refl)
strncmp-eq-zero [] (d ∷ t) (suc n) = ground arith
strncmp-eq-zero (c ∷ s) [] (suc n) = ground arith
strncmp-eq-zero (c ∷ s) (d ∷ t) (suc n) =
    (λ h. ground (arith, (strncmp-eq-zero s t n).0), λ h. ground (arith, (strncmp-eq-zero s t n).1))

-- The test `strcmp(s, t) == 0` holds exactly if the two are the same text.
pub equals_lem : (s : List ℕ) (t : String) → (equals s t ≡ true) ↔ (text s ≡ text (codes t))
unfolding equals
equals_lem s t = (
  λ h. (strcmp-eq-zero s (codes t)).0 (ground arith),
  λ h. ground (arith, (strcmp-eq-zero s (codes t)).1 h),
)
