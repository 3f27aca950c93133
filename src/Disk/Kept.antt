-- ===== src/Disk/Kept.antt =====
-- The machine of Disk/Simulated.antt keeps the promises of Disk/Drive.antt, for the examples on
-- src/fs/fatfs/source/diskio.c.
use my_dos.Base.{
  ℕ, subst, ◌+◌, ◌*◌, ◌^◌, ◌-◌, ◌≤◌, ◌≡◌, ◌≢◌, refl, ap, arith, Bool, true, false, List, [], ◌∷◌,
  length, Option, some, none, tabulate, length-tabulate, get_or, ltb, lt→ltb, ◌++◌, length-append,
  sym, ◌<◌, ◌∙◌, Bool-cases, inr, ◌==◌, if◌then◌else◌, bit_and, ◌||◌, suc, inl, ne→==, eq→==,
}
use my_dos.Disk.Ata.{has_bits}
use my_dos.Disk.Drive.{Drive}
use my_dos.Disk.Simulated.{
  over, once, twice, Delay, Machine, when_ready, machine, modern_drive, times, tick, address,
  status_of, take_word, begin_read, out_byte, complete, put_word,
}

pub times-over : (d : Delay) → times d ≡ 0 → d ≡ over
times-over over h = refl
times-over once h = absurd (omega (arith, h))
times-over twice h = absurd (omega (arith, h))

pub times_small : (d : Delay) → times d < 1000000
times_small over = omega arith
times_small once = omega arith
times_small twice = omega arith

pub times-tick : (d : Delay) → times (tick d) ≡ times d - 1
times-tick over = refl
times-tick once = refl
times-tick twice = refl

pub status_of-present :
    (d : Delay) (f : Bool) (b : List ℕ) (t : Option (ℕ × List ℕ))
    → (status_of d f b t == 0 || status_of d f b t == 0xFF) ≡ false
status_of-present over false [] none = refl
status_of-present over false [] (some t) = refl
status_of-present over false (x ∷ xs) t = refl
status_of-present over true b t = refl
status_of-present once f b t = refl
status_of-present twice f b t = refl

pub status_of-busy :
    (d : Delay) (f : Bool) (b : List ℕ) (t : Option (ℕ × List ℕ))
    → 0 < times d
    → has_bits (status_of d f b t) 0x80 ≡ true
status_of-busy over f b t h = absurd (omega (arith, h))
status_of-busy once f b t h = refl
status_of-busy twice f b t h = refl

-- What a drive that is ready shows.
abbrev pub Tells : ℕ → Bool → List ℕ → Option (ℕ × List ℕ) → Type 0
Tells status f b t =
    (has_bits status 0x80 ≡ false)
    × (has_bits status 0x21 ≡ f)
    × (f ≡ false → b ≢ [] → (bit_and status 0x08 == 0x08) ≡ true)
    × (f ≡ false → t ≢ none → (bit_and status 0x08 == 0x08) ≡ true)

pub status_of-Tells :
    (d : Delay) (f : Bool) (b : List ℕ) (t : Option (ℕ × List ℕ))
    → times d ≡ 0
    → Tells (status_of d f b t) f b t
status_of-Tells over false [] none z =
    (refl, refl, (λ _ h. absurd (h refl)), λ _ h. absurd (h refl))
status_of-Tells over false [] (some t) z = (refl, refl, (λ _ h. refl), λ _ h. refl)
status_of-Tells over false (x ∷ xs) t z = (refl, refl, (λ _ h. refl), λ _ h. refl)
status_of-Tells over true b t z = (refl, refl, (λ e. absurd (cc e)), λ e. absurd (cc e))
status_of-Tells once f b t z = absurd (omega (arith, z))
status_of-Tells twice f b t z = absurd (omega (arith, z))

-- What reading a word leaves.
abbrev pub Gives : ℕ → List ℕ → Machine → ℕ × Machine → Type 0
Gives word rest w out =
    (out.0 ≡ word)
    × (out.1.buffer ≡ rest)
    × ((n : ℕ) → tabulate 256 (out.1.contents n) ≡ tabulate 256 (w.contents n))
    × (out.1.target ≡ w.target)
    × (out.1.failed ≡ w.failed)
    × (rest ≢ [] → times out.1.delay ≡ 0)

pub take_word-Gives :
    (word : ℕ) (rest : List ℕ) (w : Machine)
    → w.delay ≡ over
    → Gives word rest w (take_word (word ∷ rest) w)
take_word-Gives word [] w e = (refl, refl, (λ n. refl), refl, refl, λ h. absurd (h refl))
take_word-Gives word (x ∷ xs) w e = (refl, refl, (λ n. refl), refl, refl, λ h. ap times e)

tabulate-get_or : (xs : List ℕ) → tabulate (length xs) (λ i. get_or xs i 0) ≡ xs
tabulate-get_or [] = refl
tabulate-get_or (x ∷ xs) = ap (x ∷◌) (tabulate-get_or xs)

-- What the last word of a sector leaves.
abbrev pub Completes : ℕ → List ℕ → Machine → Machine → Type 0
Completes sector words w w' =
    (w'.target ≡ none)
    × ((sector == 999) ≡ false
        → (n : ℕ)
        → tabulate 256 (w'.contents n)
          ≡ (if n == sector then words else tabulate 256 (w.contents n)))
    × (w'.buffer ≡ w.buffer)
    × (w'.failed ≡ (sector == 999))

complete-Completes :
    (sector : ℕ) (words : List ℕ) (w : Machine)
    → length words ≡ 256
    → Completes sector words w (complete sector words (sector == 999) w)
complete-Completes sector words w size = elim (Bool-cases (sector == 999)) [
  | inl e ↦ rw e (refl, (λ h. absurd (cc h)), refl, refl)
  | inr e ↦ rw e (
    refl,
    (λ _ n. elim (Bool-cases (n == sector)) [
      | inl here ↦
          rw here (ap (λ k. tabulate k (λ i. get_or words i 0)) (sym size) ∙ tabulate-get_or words)
      | inr away ↦ rw away refl
    ]),
    refl,
    refl,
  )
]

pub put_word-more :
    (word sector : ℕ) (words : List ℕ) (w : Machine)
    → suc (length words) < 256
    → put_word word (some (sector, words)) w
      ≡ record w { target = some (sector, words ++ word ∷ []) }
put_word-more word sector words w h = rw (lt→ltb (suc (length words)) 256 h) refl

pub put_word-last :
    (word sector : ℕ) (words : List ℕ) (w : Machine)
    → suc (length words) ≡ 256
    → Completes sector (words ++ word ∷ []) w (put_word word (some (sector, words)) w)
put_word-last word sector words w h =
    let full : ltb (suc (length words)) 256 ≡ false = ground arith in
    rw full (
      complete-Completes sector (words ++ word ∷ []) w
        (length-append words (word ∷ []) ∙ omega arith))

-- What READ SECTORS for a sector leaves.
abbrev pub Begins : ℕ → Machine → Machine → Type 0
Begins n w w' =
    (w'.failed ≡ (n == 999))
    × ((n == 999) ≡ false → w'.buffer ≡ tabulate 256 (w.contents n))
    × ((k : ℕ) → tabulate 256 (w'.contents k) ≡ tabulate 256 (w.contents k))
    × (w'.target ≡ w.target)

pub begin_read-Begins : (n : ℕ) (w : Machine) → Begins n w (begin_read n (n == 999) w)
begin_read-Begins n w = elim (Bool-cases (n == 999)) [
  | inl e ↦ rw e (refl, (λ h. absurd (cc h)), (λ k. refl), refl)
  | inr e ↦ rw e (refl, (λ _. refl), (λ k. refl), refl)
]

pub out_byte-register :
    (k v : ℕ) (w : Machine)
    → 2 ≤ k
    → k ≤ 6
    → out_byte (0x1F0 + k) v w
      ≡ record w { registers = λ j. if (0x1F0 + k) == (0x1F0 + j) then v else w.registers j }
out_byte-register k v w lo hi = rw (ne→== (0x1F0 + k) 0x1F7 (λ e. omega arith)) refl

pub when_ready-over :
    {A : Type 0} (d : Delay) (now before : A) → times d ≡ 0 → when_ready d now before ≡ now
when_ready-over over now before h = refl
when_ready-over once now before h = absurd (omega (arith, h))
when_ready-over twice now before h = absurd (omega (arith, h))

-- What writing a register, WRITE SECTORS and a word leave.
abbrev pub Writes : ℕ → ℕ → Machine → Machine → Type 0
Writes k v w w' =
    (w'.registers k ≡ v)
    × ((j : ℕ) → j ≢ k → w'.registers j ≡ w.registers j)
    × ((n : ℕ) → tabulate 256 (w'.contents n) ≡ tabulate 256 (w.contents n))
    × (w'.buffer ≡ w.buffer)
    × (w'.target ≡ w.target)
    × (times w'.delay ≡ 0)

abbrev pub Awaits : ℕ → Machine → Machine → Type 0
Awaits n w w' =
    (w'.target ≡ some (n, []))
    × ((k : ℕ) → tabulate 256 (w'.contents k) ≡ tabulate 256 (w.contents k))
    × (w'.buffer ≡ [])
    × (w'.failed ≡ false)

abbrev pub Takes : ℕ → ℕ → List ℕ → Machine → Machine → Type 0
Takes word sector words w w' =
    (w'.target ≡ some (sector, words ++ word ∷ []))
    × ((n : ℕ) → tabulate 256 (w'.contents n) ≡ tabulate 256 (w.contents n))
    × (w'.buffer ≡ w.buffer)
    × (times w'.delay ≡ 0)

abbrev pub modern : Drive machine modern_drive
modern = record {
  reg = λ k w. w.registers k;
  stored = λ n w. tabulate 256 (w.contents n);
  queue = λ w. w.buffer;
  taking = λ w. w.target;
  busy = λ w. times w.delay;
  fault = λ w. w.failed;
  bad = λ n. n == 999;
  sector_words = λ n w. length-tabulate 256 (w.contents n);
  not_stuck = λ w. times_small w.delay;
  alternate = λ w. ((λ k. refl), (λ n. refl), refl, refl, refl, omega arith);
  status = λ w. ((λ k. refl), (λ n. refl), refl, refl, refl, times-tick w.delay);
  present = λ w. status_of-present w.delay w.failed w.buffer w.target;
  is_busy = λ w h. status_of-busy w.delay w.failed w.buffer w.target h;
  is_ready = λ w h. status_of-Tells w.delay w.failed w.buffer w.target h;
  write_register = λ k v w still lo hi.
      subst (Writes k v w) (sym (when_ready-over w.delay _ w still ∙ out_byte-register k v w lo hi))
        (
          rw (eq→== (0x1F0 + k) (0x1F0 + k) refl) refl,
          (λ j ne. rw (ne→== (0x1F0 + k) (0x1F0 + j) (λ e. ne (omega arith))) refl),
          (λ n. refl),
          refl,
          refl,
          still,
        );
  read_sectors = λ top w still two small six empty idle.
      let number : top * 2 ^ 24 + w.registers 5 * 2 ^ 16 + w.registers 4 * 2 ^ 8 + w.registers 3
          ≡ address w.registers =
        omega (arith, six) in
      let begun = begin_read (address w.registers) (address w.registers == 999) w in
      let begins : Begins (address w.registers) w (when_ready w.delay begun w) =
        subst (Begins (address w.registers) w) {x = begun}
          (sym (when_ready-over w.delay begun w still))
          (begin_read-Begins (address w.registers) w) in
      let (f, q, s, t) = subst (λ n. Begins n w (when_ready w.delay begun w)) (sym number) begins in
      (f, q, s, t ∙ idle);
  read_word = λ word rest w still e.
      subst (Gives word rest w)
        (sym (when_ready-over w.delay _ (0, w) still ∙ ap (λ b. take_word b w) e))
        (take_word-Gives word rest w (times-over w.delay still));
  write_sectors = λ top w still two small six empty idle.
      subst
        (Awaits (top * 2 ^ 24 + w.registers 5 * 2 ^ 16 + w.registers 4 * 2 ^ 8 + w.registers 3) w)
        (sym (when_ready-over w.delay _ w still))
        (ap (λ n. some (n, [])) (omega (arith, six)), (λ n. refl), empty, refl);
  write_word = λ word sector words w still e h.
      subst (Takes word sector words w)
        (sym (
          when_ready-over w.delay _ w still
          ∙ ap (λ t. put_word word t w) e
          ∙ put_word-more word sector words w h))
        (refl, (λ n. refl), refl, still);
  write_last = λ word sector words w still e h.
      subst (Completes sector (words ++ word ∷ []) w)
        (sym (when_ready-over w.delay _ w still ∙ ap (λ t. put_word word t w) e))
        (put_word-last word sector words w h);
}
