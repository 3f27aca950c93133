-- ===== src/Editor/Load.antt =====
-- What the scanner of `load_document`, src/programs/myeditor/myeditor.c, makes of a text.
use my_dos.Base.{
  ℕ, ◌+◌, ◌<◌, ◌≡◌, refl, sym, ap, subst, ◌∙◌, arith, Bool-cases, inl, inr, true, false, List, [],
  ◌∷◌, ◌++◌, ◌==◌,
}
use my_dos.Editor.Document.{editor_rows, editor_columns}
use my_dos.Editor.Loader.{
  Loader, load_newline, load_character, load_byte, load_bytes, is_load_ok, loaded_lines,
}
use my_dos.Editor.Scanning.{
  append_last, add_byte, add_bytes, seen, IsValid, moved, stored, next_row-eq-moved,
  store_character-eq-stored, loaded_lines-moved, loaded_lines-stored, moved-IsValid, stored-IsValid,
  next_row-room, store_character-room,
}

-- A text as a list of lines, grown byte by byte, with no limit on their number and length.

load_newline-lem :
    (s : Loader)
    → IsValid s
    → is_load_ok (load_newline s).status ≡ true
    → IsValid (load_newline s) × (seen (load_newline s) ≡ seen s ++ [] ∷ [])
unfolding load_newline
load_newline-lem s v h =
    let room = next_row-room s in
    let eq = next_row-eq-moved s in
    (
      record {
        count = ground (arith, room, eq, v.count);
        row_in = ground (arith, room, eq);
        here = ground (arith, room, eq, v.here, v.fresh (s.row + 1));
        column_in = ground (arith, room, eq);
        widths = λ y. ground (arith, room, eq, v.widths y);
        fresh = λ y l. ground (arith, room, eq, v.fresh y);
      },
      ground (arith, room, eq, loaded_lines-moved s v),
    )

-- The state in which a character is stored: a pending newline has been carried out.
abbrev pub ready : Loader → Loader
ready s = record (moved s) { pending_newline = false }

load_character-pending :
    (c : ℕ) (s : Loader)
    → s.pending_newline ≡ true
    → is_load_ok (load_character c s).status ≡ true
    → (s.row + 1 < editor_rows) × (load_character c s ≡ stored c (ready s))
unfolding load_character
load_character-pending c s p h =
    let room = next_row-room s in
    let eq = next_row-eq-moved s in
    (
      ground (arith, room),
      ground (
        arith,
        room,
        eq,
        store_character-room c (ready s),
        store_character-eq-stored c (ready s),
      ),
    )

load_character-plain :
    (c : ℕ) (s : Loader)
    → s.pending_newline ≡ false
    → is_load_ok (load_character c s).status ≡ true
    → (s.column < editor_columns) × (load_character c s ≡ stored c s)
unfolding load_character
load_character-plain c s p h = (
  ground (arith, store_character-room c s),
  ground (arith, store_character-room c s, store_character-eq-stored c s),
)

pub ready-IsValid : (s : Loader) → s.row + 1 < editor_rows → IsValid s → IsValid (ready s)
ready-IsValid s room v =
    let m = moved-IsValid s room v in
    record {
      count = m.count;
      row_in = m.row_in;
      here = m.here;
      column_in = m.column_in;
      widths = m.widths;
      fresh = m.fresh;
    }

load_character-lem :
    (c : ℕ) (s : Loader)
    → IsValid s
    → is_load_ok (load_character c s).status ≡ true
    → IsValid (load_character c s) × (seen (load_character c s) ≡ append_last c (seen s))
load_character-lem c s v h = elim (Bool-cases s.pending_newline) [
  | inl p ↦
      let (room, eq) = load_character-pending c s p h in
      let ok = ready-IsValid s room v in
      (
        subst IsValid (sym eq) (stored-IsValid c (ready s) (omega arith) ok),
        ap seen eq
            ∙ loaded_lines-stored (ready s) ok c
            ∙ ap (append_last c) (loaded_lines-moved s v)
            ∙ ap (append_last c) {x = loaded_lines s ++ [] ∷ []} {y = seen s} (ground arith),
      )
  | inr p ↦
      let (room, eq) = load_character-plain c s p h in
      (
        subst IsValid (sym eq) (stored-IsValid c s room v),
        ap seen eq ∙ ground (arith, loaded_lines-stored s v c),
      )
]

-- A byte that is accepted extends the text by that byte.
pub load_byte-lem :
    (c : ℕ) (s : Loader)
    → IsValid s
    → is_load_ok (load_byte c s).status ≡ true
    → IsValid (load_byte c s) × (seen (load_byte c s) ≡ add_byte c (seen s))
unfolding load_byte add_byte
load_byte-lem c s v h = elim (Bool-cases (c == 13)) [
  | inl e ↦ (rw e v, rw e)
  | inr e ↦ elim (Bool-cases (c == 10)) [
    | inl n ↦ rw (e, n) (load_newline-lem s v (rw (e, n) at h))
    | inr n ↦ rw (e, n) (load_character-lem c s v (rw (e, n) at h))
  ]
]

-- From a valid state, bytes that are all accepted leave the scanner valid, and its buffer spells
-- the same text as an unbounded reading of the bytes.
pub load_bytes-lem :
    (cs : List ℕ) (s : Loader)
    → IsValid s
    → is_load_ok s.status ≡ true
    → is_load_ok (load_bytes cs s).status ≡ true
    → IsValid (load_bytes cs s) × (seen (load_bytes cs s) ≡ add_bytes cs (seen s))
unfolding load_bytes add_bytes
load_bytes-lem [] s v k h = (v, refl)
load_bytes-lem (c ∷ cs) s v k h = elim (Bool-cases (is_load_ok (load_byte c s).status)) [
  | inl e ↦
      let (v', eq) = load_byte-lem c s v e in
      let (w, eq') = load_bytes-lem cs (load_byte c s) v' e (rw e at h) in
      rw e (w, eq' ∙ ap (add_bytes cs) eq)
  | inr e ↦ absurd (ground arith)
]
