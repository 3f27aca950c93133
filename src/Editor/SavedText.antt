-- ===== src/Editor/SavedText.antt =====
-- The text that `save_document` of src/programs/myeditor/myeditor.c writes for a list of lines.
use my_dos.Base.{
  ℕ, ◌-◌, ◌≤◌, ◌≡◌, sym, ap, ◌∙◌, arith, Bool, true, false, List, [], ◌∷◌, ◌++◌, length, append-nil,
  append_assoc, length-append, modify_at-append,
}
use my_dos.Editor.Document.{editor_columns}
use my_dos.Editor.Scanning.{add_byte, add_bytes}

-- The lines with "\r\n" between them.
unfoldable pub saved_text : List (List ℕ) → List ℕ
saved_text [] = []
saved_text (l ∷ []) = l
saved_text (l ∷ m ∷ ls) = l ++ 13 ∷ 10 ∷ saved_text (m ∷ ls)

-- The characters that the editor lets a user type.
abbrev pub IsPrintable : ℕ → Type 0
IsPrintable c = (32 ≤ c) × (c ≤ 126)

abbrev pub All {ℓ κ} : {A : Type ℓ} → (A → Type κ) → List A → Type κ
All P [] = Unit
All P (x ∷ xs) = P x × All P xs

abbrev pub LineFits : List ℕ → Type 0
LineFits l = All IsPrintable l × (length l ≤ editor_columns)

abbrev pub is_nil : List ℕ → Bool
is_nil [] = true
is_nil (c ∷ l) = false

-- A text of several lines whose last line is empty, without that line.
unfoldable pub drop_empty_end : List (List ℕ) → List (List ℕ)
drop_empty_end [] = []
drop_empty_end (l ∷ []) = l ∷ []
drop_empty_end (l ∷ [] ∷ []) = l ∷ []
drop_empty_end (l ∷ m ∷ ls) = l ∷ drop_empty_end (m ∷ ls)

-- The bytes that spell a text give that text back.
add_bytes-line :
    (l rest : List ℕ) (ls : List (List ℕ)) (m : List ℕ)
    → All IsPrintable l
    → add_bytes (l ++ rest) (ls ++ m ∷ []) ≡ add_bytes rest (ls ++ (m ++ l) ∷ [])
unfolding add_bytes add_byte
add_bytes-line [] rest ls m h = rw append-nil
add_bytes-line (c ∷ l) rest ls m ((lo, hi), h) =
    ap (add_bytes (l ++ rest)) step ∙ add_bytes-line l rest ls (m ++ c ∷ []) h ∙ rw append_assoc
  where
    step : add_byte c (ls ++ m ∷ []) ≡ ls ++ (m ++ c ∷ []) ∷ []
    step = ground (
      arith,
      length-append ls (m ∷ []),
      modify_at-append ls [] (λ l. l ++ c ∷ []) m (length (ls ++ m ∷ []) - 1),
    )

pub add_bytes-saved_text :
    (l : List ℕ) (rest ls : List (List ℕ))
    → All (All IsPrintable) (l ∷ rest)
    → add_bytes (saved_text (l ∷ rest)) (ls ++ [] ∷ []) ≡ ls ++ l ∷ rest
unfolding saved_text add_bytes add_byte
add_bytes-saved_text l [] ls (h, _) =
    ap (λ t. add_bytes t (ls ++ [] ∷ [])) (sym (append-nil l)) ∙ add_bytes-line l [] ls [] h
add_bytes-saved_text l (m ∷ rest) ls (h, k) =
    add_bytes-line l (13 ∷ 10 ∷ saved_text (m ∷ rest)) ls [] h
    ∙ add_bytes-saved_text m rest (ls ++ l ∷ []) k
    ∙ append_assoc ls (l ∷ []) (m ∷ rest)
