-- ===== src/FsHelpers/Paths.antt =====
-- What `join_path` of src/kernel/helper/fshelpers/fshelpers.c makes of a directory and a name.
use my_dos.Base.{
  ℕ, zero, suc, ◌-◌, ◌≤◌, ◌<◌, ◌≡◌, ◌≢◌, refl, ap, sym, ◌∙◌, arith, not, ◌&&◌, List, [], ◌∷◌, ◌++◌,
  ltb, ◌==◌, if◌then◌else◌, length, get_or, take, append-nil, append_assoc, length-append,
  Bool-cases, inl, inr, dec_lt, length-take, take-append, take-all, ne→==,
}
use my_dos.FsHelpers.{append_part, append_slash, join_path}

-- No byte is the terminator.
abbrev pub NoZero : List ℕ → Type 0
NoZero [] = Unit
NoZero (c ∷ s) = (c ≢ 0) × NoZero s

take-append_long : (n : ℕ) (xs ys : List ℕ) → n ≤ length xs → take n (xs ++ ys) ≡ take n xs
take-append_long zero xs ys h = refl
take-append_long (suc n) [] ys h = absurd (omega arith)
take-append_long (suc n) (x ∷ xs) ys h = ap (x ∷◌) (take-append_long n xs ys (omega arith))

append_part-take :
    (room : ℕ) (part dest : List ℕ)
    → NoZero part
    → length dest ≤ room
    → append_part room part dest ≡ take room (dest ++ part)
unfolding append_part
append_part-take room [] dest h fits =
    sym (take-all room dest fits) ∙ ap (take room) (sym (append-nil dest))
append_part-take room (c ∷ part) dest (ne, h) fits = elim (Bool-cases (ltb (length dest) room)) [
  | inl t ↦
      rw (ne→== c 0 ne, t)
        (append_part-take room part (dest ++ c ∷ []) h (ground (arith, length-append dest (c ∷ [])))
          ∙ ap (take room) (append_assoc dest (c ∷ []) part))
  | inr t ↦ rw (ne→== c 0 ne, t) (sym (take-append dest (c ∷ part) room (ground arith)))
]

-- The separator that a directory needs.
abbrev pub separator : List ℕ → List ℕ
separator dir =
    if ltb 0 (length dir) && not (get_or dir (length dir - 1) 0 == b'/') then b'/' ∷ [] else []

append_slash-separator :
    (room : ℕ) (dir : List ℕ) → length dir < room → append_slash room dir ≡ dir ++ separator dir
unfolding append_slash
append_slash-separator room dir h =
    elim (Bool-cases (ltb 0 (length dir) && not (get_or dir (length dir - 1) 0 == b'/'))) [
      | inl t ↦ ground arith
      | inr t ↦ ground (arith, append-nil dir)
    ]

append_slash-full : (room : ℕ) (dest : List ℕ) → length dest ≡ room → append_slash room dest ≡ dest
unfolding append_slash
append_slash-full room dest h = ground arith

length-separator : (dir : List ℕ) → length (separator dir) ≤ 1
length-separator dir = ground arith

-- For a directory and a name without zero bytes, the joined path is the directory, a slash unless
-- the directory is empty or ends with one, and the name, cut to the size of the buffer.
pub join_path_lem :
    (dest_size : ℕ) (dir file : List ℕ)
    → NoZero dir
    → NoZero file
    → join_path dest_size dir file ≡ take (dest_size - 1) (dir ++ (separator dir ++ file))
unfolding join_path
join_path_lem dest_size dir file hd hf =
    let room = dest_size - 1 in
    let first = append_part-take room dir [] hd (omega arith) in
    elim (dec_lt (length dir) room) [
      | yes fits ↦
          let start = first ∙ take-all room dir (omega arith) in
          ap (λ d. append_part room file (append_slash room d)) start
          ∙ ap (append_part room file) (append_slash-separator room dir fits)
          ∙ append_part-take room file (dir ++ separator dir) hf
              (omega (arith, length-append dir (separator dir), length-separator dir))
          ∙ ap (take room) (append_assoc dir (separator dir) file)
      | no long ↦
          let full : length (take room dir) ≡ room = length-take room dir (omega arith) in
          ap (λ d. append_part room file (append_slash room d)) first
          ∙ ap (append_part room file) (append_slash-full room (take room dir) full)
          ∙ append_part-take room file (take room dir) hf (omega (arith, full))
          ∙ take-append (take room dir) file room (sym full)
          ∙ sym (take-append_long room dir (separator dir ++ file) (omega arith))
    ]
