-- ===== src/FsHelpers/Volumes.antt =====
-- Which volume `fs_init` of src/kernel/helper/fshelpers/fshelpers.c chooses.
use my_dos.Base.{
  ℕ, zero, suc, ◌+◌, ◌≡◌, refl, ap, sym, ◌∙◌, arith, Bool, true, false, not, ◌&&◌, List, [], ◌∷◌,
  ◌++◌, length, Option, none, some, ◌==◌, if◌then◌else◌, Bool-cases, inl, inr, length-append,
}
use my_dos.FatFs.{FatFs, FResult, fr_no_filesystem, fr_not_ready, is_ok, is_no_filesystem}
use my_dos.FsHelpers.{
  volumes, drive_path, Found, keep_first, note_mount, try_volume, try_volumes, choose_volume,
  fs_init,
}

-- What became of a volume: its drive is not ready, or what mounting it returned.
abbrev pub Attempt : Type 0
Attempt = Option FResult

-- The first number, from `from` on, whose attempt passes a test.
abbrev pub first_from : (Attempt → Bool) → ℕ → List Attempt → Option ℕ
first_from test from [] = none
first_from test from (a ∷ attempts) =
    if test a then some from else first_from test (suc from) attempts

abbrev pub is_ready : Attempt → Bool
is_ready none = false
is_ready (some result) = true

abbrev pub is_mounted : Attempt → Bool
is_mounted none = false
is_mounted (some result) = is_ok result

-- The first failure that is more than a missing file system.
abbrev pub worst : List Attempt → FResult
worst [] = fr_no_filesystem
worst (none ∷ attempts) = worst attempts
worst (some result ∷ attempts) =
    if not (is_ok result) && not (is_no_filesystem result) then result else worst attempts

abbrev pub summary : List Attempt → Found
summary attempts = record {
  first_error = worst attempts;
  mounted_volume = first_from is_mounted 0 attempts;
  first_ready_volume = first_from is_ready 0 attempts;
}

first_from-append :
    (test : Attempt → Bool) (from : ℕ) (attempts : List Attempt) (a : Attempt)
    → first_from test from (attempts ++ a ∷ []) ≡ (
        if test a
        then keep_first (from + length attempts) (first_from test from attempts)
        else first_from test from attempts)
first_from-append test from [] a = ground arith
first_from-append test from (b ∷ attempts) a =
    let later = first_from test (suc from) attempts in
    elim (Bool-cases (test b)) [
      | inl t ↦ rw t (ground arith)
      | inr t ↦ rw t (
          first_from-append test (suc from) attempts a
          ∙ ap (λ n. if test a then keep_first n later else later) (omega arith))
    ]

worst-append_none : (attempts : List Attempt) → worst (attempts ++ none ∷ []) ≡ worst attempts
worst-append_none [] = refl
worst-append_none (none ∷ attempts) = worst-append_none attempts
worst-append_none (some r ∷ attempts) = rw (worst-append_none attempts) refl

worst-append_some :
    (attempts : List Attempt) (result : FResult)
    → worst (attempts ++ some result ∷ []) ≡ (
        if not (is_ok result)
          && (not (is_no_filesystem result) && is_no_filesystem (worst attempts))
        then result
        else worst attempts)
worst-append_some [] result = ground arith
worst-append_some (none ∷ attempts) result = worst-append_some attempts result
worst-append_some (some r ∷ attempts) result =
    elim (Bool-cases (not (is_ok r) && not (is_no_filesystem r))) [
      | inl bad ↦ let n : is_no_filesystem r ≡ false = ground arith in rw (bad, n) (ground arith)
      | inr fine ↦ rw fine (worst-append_some attempts result)
    ]

summary-none : (before : List Attempt) → summary (before ++ none ∷ []) ≡ summary before
summary-none before =
    rw
      (
        worst-append_none before,
        first_from-append is_mounted 0 before none,
        first_from-append is_ready 0 before none,
      )
      refl

note_mount-summary :
    (n : ℕ) (result : FResult) (before : List Attempt)
    → length before ≡ n
    → note_mount n result (record (summary before) {
      first_ready_volume = keep_first n (first_from is_ready 0 before);
    })
      ≡ summary (before ++ some result ∷ [])
unfolding note_mount
note_mount-summary n result before h =
    let here : 0 + length before ≡ n = omega arith in
    let error = worst-append_some before result in
    let mounted = first_from-append is_mounted 0 before (some result) in
    let ready = first_from-append is_ready 0 before (some result) in
    elim (Bool-cases (is_ok result)) [
      | inl ok ↦ rw (error, mounted, ready, here, ok) refl
      | inr bad ↦
          elim (Bool-cases (not (is_no_filesystem result) && is_no_filesystem (worst before))) [
            | inl t ↦ rw (error, mounted, ready, here, bad, t) refl
            | inr t ↦ rw (error, mounted, ready, here, bad, t) refl
          ]
    ]

module _ (fat : FatFs) where
  open fat use {Volume, f_mount, f_chdrive}

  module _ (disk_initialize : ℕ → Volume → ℕ × Volume) where
    -- The attempts on the volumes below n, in their order.
    unfoldable pub attempt : ℕ → Volume → Attempt × Volume
    attempt n v =
        let (status, v1) = disk_initialize n v in
        if not (status == 0)
        then (none, v1)
        else (let (result, v2) = f_mount n (drive_path n) v1 in (some result, v2))

    unfoldable pub attempts : ℕ → Volume → List Attempt × Volume
    attempts zero v = ([], v)
    attempts (suc n) v =
        let (before, v') = attempts n v in
        let (last, v'') = attempt n v' in (before ++ last ∷ [], v'')

    length-attempts : (n : ℕ) (v : Volume) → length (attempts n v).0 ≡ n
    unfolding attempts
    length-attempts zero v = refl
    length-attempts (suc n) v =
        length-append (attempts n v).0 ((attempt n (attempts n v).1).0 ∷ [])
        ∙ omega (arith, length-attempts n v)

    try_volume-summary :
        (n : ℕ) (before : List Attempt) (v : Volume)
        → length before ≡ n
        → try_volume fat disk_initialize n (summary before, v)
          ≡ (summary (before ++ (attempt n v).0 ∷ []), (attempt n v).1)
    unfolding try_volume attempt note_mount
    try_volume-summary n before v h = elim (Bool-cases ((disk_initialize n v).0 == 0)) [
      | inl ready ↦ rw ready (
          ap (λ f. (f, (f_mount n (drive_path n) (disk_initialize n v).1).1))
            (note_mount-summary n (f_mount n (drive_path n) (disk_initialize n v).1).0 before h))
      | inr off ↦ rw off (ap (λ f. (f, (disk_initialize n v).1)) (sym (summary-none before)))
    ]

    try_volumes-summary :
        (n : ℕ) (v : Volume)
        → try_volumes fat disk_initialize n v ≡ (summary (attempts n v).0, (attempts n v).1)
    unfolding try_volumes attempts
    try_volumes-summary zero v = refl
    try_volumes-summary (suc n) v =
        ap (try_volume fat disk_initialize n) (try_volumes-summary n v)
        ∙ try_volume-summary n (attempts n v).0 (attempts n v).1 (length-attempts n v)

    -- Starting the file system tries all volumes in order and takes the first that mounts, and
    -- changes to it; if none mounts, the first whose drive is ready becomes active and the first
    -- failure other than a missing file system is returned; if none is ready, the active volume
    -- stays and the result says so.
    pub fs_init-first :
        (active : ℕ) (v : Volume)
        → (let (tried, v') = attempts volumes v in
            fs_init fat disk_initialize active v ≡ elim (first_from is_mounted 0 tried) [
              | some volume ↦ (
                (f_chdrive (drive_path volume) v').0,
                volume,
                (f_chdrive (drive_path volume) v').1,
              )
              | none ↦ elim (first_from is_ready 0 tried) [
                | none ↦ (fr_not_ready, active, v')
                | some volume ↦ (worst tried, volume, v')
              ]
            ])
    unfolding fs_init choose_volume
    fs_init-first active v =
        ap (λ r. choose_volume fat disk_initialize r.0 active r.1) (try_volumes-summary volumes v)
