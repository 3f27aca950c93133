-- ===== src/Editor/RoundTrip.antt =====
-- Saving and opening again, src/programs/myeditor/myeditor.c: the text that `save_document` writes
-- is read back by the scanner of `load_document`.
use my_dos.Base.{
  ℕ, ◌+◌, ◌≤◌, ◌<◌, ◌≡◌, refl, sym, ap, subst, ◌∙◌, arith, Bool, true, false, List, [], ◌∷◌, ◌++◌,
  if◌then◌else◌, length, append-nil,
}
use my_dos.Editor.Document.{editor_rows, editor_columns}
use my_dos.Editor.Loader.{
  load_ok, Loader, start, load_newline, load_character, load_byte, load_bytes, is_load_ok,
  loaded_lines,
}
use my_dos.Editor.Load.{ready, load_bytes-lem}
use my_dos.Editor.Scanning.{
  start-IsValid, moved, stored, next_row-eq-moved, store_character-eq-stored,
}
use my_dos.Editor.SavedText.{
  saved_text, IsPrintable, All, LineFits, is_nil, drop_empty_end, add_bytes-saved_text,
}

-- A line read without a pending newline is stored character by character.
store_all : List ℕ → Loader → Loader
store_all [] s = s
store_all (c ∷ l) s = store_all l (stored c s)

record Stores (l : List ℕ) (s t : Loader) : Type 0 where
  row : t.row ≡ s.row
  column : t.column ≡ s.column + length l
  pending_newline : t.pending_newline ≡ s.pending_newline
  status : t.status ≡ s.status

store_all-Stores : (l : List ℕ) (s : Loader) → Stores l s (store_all l s)
unfolding store_all
store_all-Stores [] s = ground arith
store_all-Stores (c ∷ l) s = ground (arith, store_all-Stores l (stored c s))

load_byte-plain :
    (c : ℕ) (s : Loader)
    → IsPrintable c
    → s.pending_newline ≡ false
    → s.column < editor_columns
    → load_byte c s ≡ stored c s
unfolding load_byte load_character
load_byte-plain c s (lo, hi) p room = ground (arith, store_character-eq-stored c s)

load_byte-pending :
    (c : ℕ) (s : Loader)
    → IsPrintable c
    → s.pending_newline ≡ true
    → s.status ≡ load_ok
    → s.row + 1 < editor_rows
    → load_byte c s ≡ stored c (ready s)
unfolding load_byte load_character
load_byte-pending c s (lo, hi) p k room =
    ground (arith, next_row-eq-moved s, store_character-eq-stored c (ready s))

load_bytes-cons :
    (c : ℕ) (cs : List ℕ) (s : Loader)
    → is_load_ok (load_byte c s).status ≡ true
    → load_bytes (c ∷ cs) s ≡ load_bytes cs (load_byte c s)
unfolding load_bytes
load_bytes-cons c cs s h = rw h

load_bytes-stored :
    (c : ℕ) (cs : List ℕ) (s t : Loader)
    → load_byte c s ≡ t
    → t.status ≡ load_ok
    → load_bytes (c ∷ cs) s ≡ load_bytes cs t
load_bytes-stored c cs s t e k =
    load_bytes-cons c cs s (ap (λ u. is_load_ok u.status) e ∙ ap is_load_ok k)
    ∙ ap (load_bytes cs) e

load_bytes-line :
    (l rest : List ℕ) (s : Loader)
    → All IsPrintable l
    → s.pending_newline ≡ false
    → s.status ≡ load_ok
    → s.column + length l ≤ editor_columns
    → load_bytes (l ++ rest) s ≡ load_bytes rest (store_all l s)
unfolding store_all
load_bytes-line [] rest s h p k room = refl
load_bytes-line (c ∷ l) rest s (pc, h) p k room =
    load_bytes-stored c (l ++ rest) s (stored c s) (load_byte-plain c s pc p (omega arith)) k
    ∙ load_bytes-line l rest (stored c s) h p k (omega arith)

load_bytes-newline_plain :
    (rest : List ℕ) (s : Loader)
    → s.pending_newline ≡ false
    → s.status ≡ load_ok
    → load_bytes (13 ∷ 10 ∷ rest) s ≡ load_bytes rest (record s { pending_newline = true })
unfolding load_bytes load_byte load_newline
load_bytes-newline_plain rest s p k = ground arith

load_bytes-newline_pending :
    (rest : List ℕ) (s : Loader)
    → s.pending_newline ≡ true
    → s.status ≡ load_ok
    → s.row + 1 < editor_rows
    → load_bytes (13 ∷ 10 ∷ rest) s ≡ load_bytes rest (moved s)
unfolding load_bytes load_byte load_newline
load_bytes-newline_pending rest s p k room = ground (arith, next_row-eq-moved s)

-- A line read at a pending newline: the newline is carried out by its first character.
load_bytes-line_pending :
    (c : ℕ) (l rest : List ℕ) (s : Loader)
    → All IsPrintable (c ∷ l)
    → s.pending_newline ≡ true
    → s.status ≡ load_ok
    → s.row + 1 < editor_rows
    → length (c ∷ l) ≤ editor_columns
    → load_bytes ((c ∷ l) ++ rest) s ≡ load_bytes rest (store_all l (stored c (ready s)))
load_bytes-line_pending c l rest s (pc, h) p k room fits =
    load_bytes-stored c (l ++ rest) s (stored c (ready s)) (load_byte-pending c s pc p k room) k
    ∙ load_bytes-line l rest (stored c (ready s)) h refl k (omega arith)

abbrev last_is_nil : List ℕ → List (List ℕ) → Bool
last_is_nil l [] = is_nil l
last_is_nil l (m ∷ ls) = last_is_nil m ls

abbrev ends_empty : List ℕ → List (List ℕ) → Bool
ends_empty l [] = false
ends_empty l (m ∷ ls) = last_is_nil m ls

-- The loader accepts the text, and a newline is pending at its end exactly if `b` says so.
record Accepts (text : List ℕ) (s : Loader) (b : Bool) : Type 0 where
  accepted : is_load_ok (load_bytes text s).status ≡ true
  pending : (load_bytes text s).pending_newline ≡ b

Accepts-of_eq :
    {text rest : List ℕ} {s t : Loader} {b : Bool}
    → load_bytes text s ≡ load_bytes rest t
    → Accepts rest t b
    → Accepts text s b
Accepts-of_eq e a = record {
  accepted = ap (λ u. is_load_ok u.status) e ∙ a.accepted;
  pending = ap (λ u. u.pending_newline) e ∙ a.pending;
}

Accepts-nil : (s : Loader) (b : Bool) → s.status ≡ load_ok → s.pending_newline ≡ b → Accepts [] s b
unfolding load_bytes
Accepts-nil s b k p = record { accepted = ap is_load_ok k; pending = p }

-- Behind a pending newline every text that fits into the rows left is accepted.
Accepts-pending :
    (l : List ℕ) (ls : List (List ℕ)) (s : Loader)
    → All LineFits (l ∷ ls)
    → s.pending_newline ≡ true
    → s.status ≡ load_ok
    → s.row + 1 + length (l ∷ ls) ≤ editor_rows
    → Accepts (saved_text (l ∷ ls)) s (last_is_nil l ls)
unfolding saved_text
Accepts-pending [] [] s h p k room = Accepts-nil s true k p
Accepts-pending (c ∷ l) [] s ((f, n), h) p k room =
    let t = store_all l (stored c (ready s)) in
    let kept = store_all-Stores l (stored c (ready s)) in
    subst (λ x. Accepts x s false) (append-nil (c ∷ l))
      (Accepts-of_eq (load_bytes-line_pending c l [] s f p k (omega arith) n)
        (Accepts-nil t false (kept.status ∙ k) kept.pending_newline))
Accepts-pending [] (m ∷ ls) s (f, h) p k room =
    Accepts-of_eq (load_bytes-newline_pending (saved_text (m ∷ ls)) s p k (omega arith))
      (Accepts-pending m ls (moved s) h p k (omega arith))
Accepts-pending (c ∷ l) (m ∷ ls) s ((f, n), h) p k room =
    let t = store_all l (stored c (ready s)) in
    let kept = store_all-Stores l (stored c (ready s)) in
    Accepts-of_eq
      (load_bytes-line_pending c l (13 ∷ 10 ∷ saved_text (m ∷ ls)) s f p k (omega arith) n
        ∙ load_bytes-newline_plain (saved_text (m ∷ ls)) t kept.pending_newline (kept.status ∙ k))
      (Accepts-pending m ls (record t { pending_newline = true }) h refl (kept.status ∙ k)
        (omega (arith, kept.row)))

-- So is every text that fits, read from the start of the document.
Accepts-start :
    (l : List ℕ) (ls : List (List ℕ))
    → All LineFits (l ∷ ls)
    → length (l ∷ ls) ≤ editor_rows
    → Accepts (saved_text (l ∷ ls)) start (ends_empty l ls)
unfolding saved_text
Accepts-start l [] ((f, n), h) room =
    let kept = store_all-Stores l start in
    subst (λ x. Accepts x start false) (append-nil l)
      (Accepts-of_eq (load_bytes-line l [] start f refl refl (omega arith))
        (Accepts-nil (store_all l start) false kept.status kept.pending_newline))
Accepts-start l (m ∷ ls) ((f, n), h) room =
    let t = store_all l start in
    let kept = store_all-Stores l start in
    Accepts-of_eq
      (load_bytes-line l (13 ∷ 10 ∷ saved_text (m ∷ ls)) start f refl refl (omega arith)
        ∙ load_bytes-newline_plain (saved_text (m ∷ ls)) t kept.pending_newline kept.status)
      (Accepts-pending m ls (record t { pending_newline = true }) h refl kept.status
        (omega (arith, kept.row)))

drop_empty_end-keep :
    (l : List ℕ) (ls : List (List ℕ)) → ends_empty l ls ≡ false → drop_empty_end (l ∷ ls) ≡ l ∷ ls
unfolding drop_empty_end
drop_empty_end-keep l [] h = refl
drop_empty_end-keep l ([] ∷ []) h = absurd (ground arith)
drop_empty_end-keep l ((c ∷ m) ∷ []) h = refl
drop_empty_end-keep l ([] ∷ k ∷ r) h = ap (l ∷◌) (drop_empty_end-keep [] (k ∷ r) h)
drop_empty_end-keep l ((c ∷ m) ∷ k ∷ r) h = ap (l ∷◌) (drop_empty_end-keep (c ∷ m) (k ∷ r) h)

drop_empty_end-cut : (l : List ℕ) (ls : List (List ℕ)) → drop_empty_end (l ∷ ls ++ [] ∷ []) ≡ l ∷ ls
unfolding drop_empty_end
drop_empty_end-cut l [] = refl
drop_empty_end-cut l ([] ∷ []) = refl
drop_empty_end-cut l ((c ∷ m) ∷ []) = refl
drop_empty_end-cut l ([] ∷ k ∷ r) = ap (l ∷◌) (drop_empty_end-cut [] (k ∷ r))
drop_empty_end-cut l ((c ∷ m) ∷ k ∷ r) = ap (l ∷◌) (drop_empty_end-cut (c ∷ m) (k ∷ r))

loaded_lines-of_seen :
    (l : List ℕ) (ls : List (List ℕ)) (b : Bool) (kept : List (List ℕ))
    → b ≡ ends_empty l ls
    → (if b then kept ++ [] ∷ [] else kept) ≡ l ∷ ls
    → kept ≡ drop_empty_end (l ∷ ls)
loaded_lines-of_seen l ls false kept e h = h ∙ sym (drop_empty_end-keep l ls (sym e))
loaded_lines-of_seen l [] true [] e h = absurd (ground arith)
loaded_lines-of_seen l (m ∷ ls) true [] e h = absurd (ground arith)
loaded_lines-of_seen l ls true (k ∷ ks) e h = sym (drop_empty_end-cut k ks) ∙ ap drop_empty_end h

-- The text saved for lines that fit the editor is accepted by the scanner and gives the lines back,
-- but for an empty last line if there are several lines.
pub load-saved_text :
    (l : List ℕ) (ls : List (List ℕ))
    → All LineFits (l ∷ ls)
    → length (l ∷ ls) ≤ editor_rows
    → (is_load_ok (load_bytes (saved_text (l ∷ ls)) start).status ≡ true)
      × (loaded_lines (load_bytes (saved_text (l ∷ ls)) start) ≡ drop_empty_end (l ∷ ls))
load-saved_text l ls h room =
    let a = Accepts-start l ls h room in
    let text = saved_text (l ∷ ls) in
    let spelled = load_bytes-lem text start start-IsValid refl a.accepted in
    (
      a.accepted,
      loaded_lines-of_seen l ls (load_bytes text start).pending_newline
          (loaded_lines (load_bytes text start)) a.pending
          (spelled.1 ∙ add_bytes-saved_text l ls [] (printable (l ∷ ls) h)),
    )
  where
    printable : (ls : List (List ℕ)) → All LineFits ls → All (All IsPrintable) ls
    printable [] h = tt
    printable (m ∷ ms) ((f, n), h) = (f, printable ms h)
