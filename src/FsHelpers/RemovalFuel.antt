-- ===== src/FsHelpers/RemovalFuel.antt =====
-- How much fuel `rm_recursive` of src/kernel/helper/fshelpers/fshelpers.c takes.
use my_dos.Base.{ℕ, suc, ◌+◌, ◌-◌, ◌≤◌, ◌≡◌, refl, subst, arith, List, some}
use my_dos.FatFs.{FatFs, fr_ok}
use my_dos.FsHelpers.Removing.{rm_entries, finish_rm, rm_recursive}
use my_dos.FsHelpers.Removal.{Removes, RemovesAll, file, directory, end, dots, entry}

module _ (fat : FatFs) where
  open fat use {Volume, Dir}

  -- Fuel above which a call succeeds.
  abbrev Succeeds : List ℕ → Volume → Volume → Type 0
  Succeeds path v v' =
      (n : ℕ) × ((fuel : ℕ) → n ≤ fuel → rm_recursive fat fuel path v ≡ some (fr_ok, v'))

  abbrev SucceedsAll : List ℕ → Dir → Volume → Dir → Volume → Type 0
  SucceedsAll path dir v dir' v' =
      (n : ℕ) × ((rounds fuel : ℕ)
        → n ≤ rounds
        → n ≤ fuel
        → rm_entries fat rounds (rm_recursive fat fuel) path dir v ≡ some (fr_ok, dir', v'))

  mutual
    unfolding rm_recursive finish_rm rm_entries

    Removes-Succeeds : {path : List ℕ} {v v' : Volume} → Removes fat path v v' → Succeeds path v v'
    Removes-Succeeds (file {path} {v} {v1} {v'} info there plain gone) = (
      1,
      λ fuel h.
          subst (λ n. rm_recursive fat n path v ≡ some (fr_ok, v')) {x = suc (fuel - 1)}
            (omega (arith, h)) (rw (there, plain, gone) refl),
    )
    Removes-Succeeds
          (directory {path} {v} {v1} {v2} {v3} {v'} info dir dir' there d opens all gone) =
        let (n, runs) = RemovesAll-SucceedsAll all in
        (
          suc n,
          λ fuel h.
              subst (λ k. rm_recursive fat k path v ≡ some (fr_ok, v')) {x = suc (fuel - 1)}
                (omega (arith, h))
                (rw
                  (
                    there,
                    d,
                    opens,
                    runs (fuel - 1) (fuel - 1) (omega (arith, h)) (omega (arith, h)),
                    gone,
                  )
                  refl),
        )

    RemovesAll-SucceedsAll :
        {path : List ℕ} {dir dir' : Dir} {v v' : Volume}
        → RemovesAll fat path dir v dir' v'
        → SucceedsAll path dir v dir' v'
    RemovesAll-SucceedsAll (end {path} {dir} {dir'} {v} {v'} info reads last) = (
      1,
      λ rounds fuel h k.
          subst (λ n. rm_entries fat n (rm_recursive fat fuel) path dir v ≡ some (fr_ok, dir', v'))
            {x = suc (rounds - 1)} (omega (arith, h)) (rw (reads, last) refl),
    )
    RemovesAll-SucceedsAll
          (dots {path} {dir} {dir1} {dir'} {v} {v1} {v'} info reads more plain rest) =
        let (n, runs) = RemovesAll-SucceedsAll rest in
        (
          suc n,
          λ rounds fuel h k.
              subst
                (λ n. rm_entries fat n (rm_recursive fat fuel) path dir v ≡ some (fr_ok, dir', v'))
                {x = suc (rounds - 1)} (omega (arith, h))
                (rw (reads, more, plain)
                  (runs (rounds - 1) fuel (omega (arith, h)) (omega (arith, k)))),
        )
    RemovesAll-SucceedsAll
          (entry {path} {dir} {dir1} {dir'} {v} {v1} {v2} {v'} info reads more named gone rest) =
        let (n, runs) = RemovesAll-SucceedsAll rest in
        let (m, removes) = Removes-Succeeds gone in
        (
          suc (n + m),
          λ rounds fuel h k.
              subst
                (λ n. rm_entries fat n (rm_recursive fat fuel) path dir v ≡ some (fr_ok, dir', v'))
                {x = suc (rounds - 1)} (omega (arith, h))
                (rw (reads, more, named, removes fuel (omega (arith, k)))
                  (runs (rounds - 1) fuel (omega (arith, h)) (omega (arith, k)))),
        )
