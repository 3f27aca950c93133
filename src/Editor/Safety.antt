-- ===== src/Editor/Safety.antt =====
-- Every state that `myeditor`, src/programs/myeditor/myeditor.c, reaches satisfies the invariant,
-- whatever keys are pressed and whatever the file system answers.
use my_dos.Base.{ℕ, zero, suc, ◌≡◌, subst, arith, Bool, List, [], ◌∷◌, Option, none, some, ◌==◌}
use my_dos.FatFs.{FatFs}
use my_dos.Editor.Session.{Editor, key_f1, key_f2, key_f3}
use my_dos.Editor.Invariant.{IsValid, edit_key-IsValid}
use my_dos.Editor.Loop.{after_open, handle_key, session, fresh_editor}
use my_dos.Editor.SafePrompts.{Keeps, Keeps-if, save_file-Keeps, Shows, open_file-Shows}

module _ (fat : FatFs) where
  open fat use {Volume, File, f_read, f_stat, f_open, f_close}

  after_open-Keeps :
      (out : Option (Bool × Editor × List ℕ × Volume))
      → Shows fat out
      → Keeps fat (after_open fat out)
  unfolding after_open
  after_open-Keeps none h = tt
  after_open-Keeps (some (opened, ed, keys, v)) h = h

  handle_key-Keeps :
      (fuel key : ℕ) (ed : Editor) (keys : List ℕ) (v : Volume)
      → IsValid ed
      → Keeps fat (handle_key fat fuel key ed keys v)
  unfolding handle_key
  handle_key-Keeps fuel key ed keys v ok = Keeps-if fat (key == 0) _ _ ok (
      Keeps-if fat (key == key_f1) _ _ (save_file-Keeps fat ed keys v ok) (
        Keeps-if fat (key == key_f2) _ _
          (after_open-Keeps _ (open_file-Shows fat fuel ed keys v ok))
          (edit_key-IsValid key ed ok)))

  session-Keeps :
      (n fuel : ℕ) (ed : Editor) (keys : List ℕ) (v : Volume)
      → IsValid ed
      → Keeps fat (session fat n fuel ed keys v)
  unfolding session
  session-Keeps zero fuel ed keys v ok = tt
  session-Keeps (suc n) fuel ed [] v ok = tt
  session-Keeps (suc n) fuel ed (key ∷ keys) v ok = Keeps-if fat (key == key_f3) _ _ ok (
      next (handle_key fat fuel key ed keys v) (handle_key-Keeps fuel key ed keys v ok)
        (λ ed' keys' v'. session-Keeps n fuel ed' keys' v'))
    where
      next :
          (out : Option (Editor × List ℕ × Volume))
          → Keeps fat out
          → ((ed' : Editor) (keys' : List ℕ) (v' : Volume)
              → IsValid ed'
              → Keeps fat (session fat n fuel ed' keys' v'))
          → Keeps fat
              (elim out [ none ↦ none | some (ed', keys', v') ↦ session fat n fuel ed' keys' v' ])
      next none h rec = tt
      next (some (ed', keys', v')) h rec = rec ed' keys' v' h

  -- Whatever FatFs answers and whatever keys come, a session that starts in a valid state and ends
  -- with F3 leaves the document within its arrays and the cursor within the document.
  pub session-IsValid :
      (n fuel : ℕ) (ed : Editor) (keys : List ℕ) (v : Volume) (out : Editor × List ℕ × Volume)
      → IsValid ed
      → session fat n fuel ed keys v ≡ some out
      → IsValid out.0
  session-IsValid n fuel ed keys v out ok e =
      subst (Keeps fat) e (session-Keeps n fuel ed keys v ok)

pub fresh_editor-IsValid : (cells : ℕ → ℕ → ℕ) → IsValid (fresh_editor cells)
fresh_editor-IsValid cells = record {
  fits = record { some_line = omega arith; rows = omega arith; columns = λ y. omega arith };
  on_line = omega arith;
  in_line = omega arith;
}
