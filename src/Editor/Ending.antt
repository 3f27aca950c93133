-- ===== src/Editor/Ending.antt =====
-- A session of `myeditor`, src/programs/myeditor/myeditor.c, in which the document is only edited.
use my_dos.Base.{
  ℕ, zero, suc, ◌<◌, ◌≡◌, ◌≢◌, refl, ap, arith, List, [], ◌∷◌, ◌++◌, length, some, ◌==◌, ne→==,
  ==→eq, Bool-cases, inl, inr, sym,
}
use my_dos.FatFs.{FatFs}
use my_dos.Editor.Session.{Editor, key_f1, key_f2, key_f3, edit_key}
use my_dos.Editor.Loop.{fresh_editor, handle_key, session}
use my_dos.Editor.Invariant.{IsValid, edit_key-IsValid}
use my_dos.Editor.Drawing.{Printable}
use my_dos.Editor.Visible.{edit_key-Printable}

-- A key other than the three that save, open and leave.
abbrev pub IsEdit : ℕ → Type 0
IsEdit key = (key ≢ key_f1) × (key ≢ key_f2) × (key ≢ key_f3)

abbrev pub Edits : List ℕ → Type 0
Edits [] = Unit
Edits (key ∷ keys) = IsEdit key × Edits keys

abbrev pub edit_keys : List ℕ → Editor → Editor
edit_keys [] ed = ed
edit_keys (key ∷ keys) ed = edit_keys keys (edit_key key ed)

edit_keys-IsValid : (keys : List ℕ) (ed : Editor) → IsValid ed → IsValid (edit_keys keys ed)
edit_keys-IsValid [] ed v = v
edit_keys-IsValid (key ∷ keys) ed v =
    edit_keys-IsValid keys (edit_key key ed) (edit_key-IsValid key ed v)

edit_keys-Printable :
    (keys : List ℕ) (ed : Editor)
    → IsValid ed
    → Printable ed.doc
    → Printable (edit_keys keys ed).doc
edit_keys-Printable [] ed v p = p
edit_keys-Printable (key ∷ keys) ed v p =
    edit_keys-Printable keys (edit_key key ed) (edit_key-IsValid key ed v)
      (edit_key-Printable key ed v p)

no_key : (ed : Editor) → edit_key 0 ed ≡ ed
unfolding edit_key
no_key ed = refl

pub fresh_editor-Printable : (cells : ℕ → ℕ → ℕ) → Printable (fresh_editor cells).doc
fresh_editor-Printable cells = record {
  below = λ y h. refl;
  nonzero = λ y x h. absurd (omega arith);
}

module _ (fat : FatFs) where
  open fat use {Volume}

  handle_key-IsEdit :
      (fuel key : ℕ) (ed : Editor) (keys : List ℕ) (v : Volume)
      → key ≢ key_f1
      → key ≢ key_f2
      → handle_key fat fuel key ed keys v ≡ some (edit_key key ed, keys, v)
  unfolding handle_key
  handle_key-IsEdit fuel key ed keys v h k = elim (Bool-cases (key == 0)) [
    | inl z ↦
        let none_read = ==→eq key 0 z in
        rw (z, none_read) (ap (λ e. some (e, keys, v)) (sym (no_key ed)))
    | inr z ↦ rw (z, ne→== key key_f1 h, ne→== key key_f2 k) refl
  ]

  pub session-Edits :
      (keys rest : List ℕ) (n fuel : ℕ) (ed : Editor) (v : Volume)
      → Edits keys
      → length keys < n
      → session fat n fuel ed (keys ++ key_f3 ∷ rest) v ≡ some (edit_keys keys ed, rest, v)
  unfolding session
  session-Edits keys rest zero fuel ed v h l = absurd (omega arith)
  session-Edits [] rest (suc n) fuel ed v h l = refl
  session-Edits (key ∷ keys) rest (suc n) fuel ed v ((h, k, m), more) l =
      rw (ne→== key key_f3 m, handle_key-IsEdit fuel key ed (keys ++ key_f3 ∷ rest) v h k)
        (session-Edits keys rest n fuel (edit_key key ed) v more (omega arith))

  -- A session that starts in a valid state with a document that can be shown, and in which keys
  -- other than F1 and F2 are followed by F3, ends at that F3 with the later keys left and the file
  -- system untouched, in the valid state that the keys lead to one after the other, and its
  -- document can be shown.
  pub session-ends :
      (keys rest : List ℕ) (n fuel : ℕ) (ed : Editor) (v : Volume)
      → Edits keys
      → length keys < n
      → IsValid ed
      → Printable ed.doc
      → (session fat n fuel ed (keys ++ key_f3 ∷ rest) v ≡ some (edit_keys keys ed, rest, v))
        × IsValid (edit_keys keys ed)
        × Printable (edit_keys keys ed).doc
  session-ends keys rest n fuel ed v h l valid p = (
    session-Edits keys rest n fuel ed v h l,
    edit_keys-IsValid keys ed valid,
    edit_keys-Printable keys ed valid p,
  )
