-- ===== src/Shell/Typing.antt =====
-- From the keys to a command: what the loop of `KernelEntryPoint`, src/kernel/kernel.c, does with a
-- line that is typed and entered.
use my_dos.Base.{
  ℕ, suc, ◌+◌, ◌≤◌, ◌≡◌, ◌≢◌, refl, ap, sym, ◌∙◌, arith, List, [], ◌∷◌, ◌++◌, map, ltb,
  if◌then◌else◌, length, take, append-nil, append_assoc, take-append, take-all, length-append,
  ltb→lt, Bool-cases, inl, inr, ne→==, subst,
}
use my_dos.Console.{scrl}
use my_dos.Rtc.{Registers}
use my_dos.Shell.State.{Platform, Shell}
use my_dos.Shell.Echo.{split_space}
use my_dos.Shell.Commands.{running, run_command}
use my_dos.Shell.Loop.{Key, end_command, type_character, enter, handle_key, continue, shell_loop}

-- Keys that are neither zero nor backspace nor enter.
abbrev pub Plain : List ℕ → Type 0
Plain [] = Unit
Plain (c ∷ cs) = (c ≢ 0) × (c ≢ 8) × (c ≢ 10) × Plain cs

-- A word: no space and no zero.
abbrev pub Word : List ℕ → Type 0
Word [] = Unit
Word (c ∷ cs) = (c ≢ 0) × (c ≢ 32) × Word cs

pub split_space-Word : (w : List ℕ) → Word w → split_space w ≡ (w, [])
unfolding split_space
split_space-Word [] h = refl
split_space-Word (c ∷ w) (h, k, rest) = rw (ne→== c 0 h, ne→== c 32 k, split_space-Word w rest) refl

pub split_space-command : (w args : List ℕ) → Word w → split_space (w ++ 32 ∷ args) ≡ (w, args)
unfolding split_space
split_space-command [] args h = refl
split_space-command (c ∷ w) args (h, k, rest) =
    rw (ne→== c 0 h, ne→== c 32 k, split_space-command w args rest) refl

-- The keys of a text, all at one time.
abbrev pub typed : Registers → List ℕ → List Key
typed r cs = map (λ c. (c, r)) cs

module _ (p : Platform) where
  abbrev pub type_all : List ℕ → Shell p → Shell p
  type_all [] s = s
  type_all (c ∷ cs) s = type_all cs (type_character p c s)

  type_character-cmd :
      (c : ℕ) (s : Shell p)
      → (type_character p c s).cmd ≡ (if ltb (length s.cmd) 63 then s.cmd ++ c ∷ [] else s.cmd)
  unfolding type_character
  type_character-cmd c s = ground arith

  -- What the buffer holds after a text is typed: what fits of it.
  pub type_all-cmd :
      (cs : List ℕ) (s : Shell p) → length s.cmd ≤ 63 → (type_all cs s).cmd ≡ take 63 (s.cmd ++ cs)
  type_all-cmd [] s h = sym (ap (take 63) (append-nil s.cmd) ∙ take-all 63 s.cmd h)
  type_all-cmd (c ∷ cs) s h =
      let now = type_character-cmd c s in
      elim (Bool-cases (ltb (length s.cmd) 63)) [
        | inl e ↦
            let longer : (type_character p c s).cmd ≡ s.cmd ++ c ∷ [] = now ∙ rw e refl in
            let fits : length (type_character p c s).cmd ≤ 63 =
              subst (λ xs. length xs ≤ 63) (sym longer)
                (omega (arith, length-append s.cmd (c ∷ []), ltb→lt (length s.cmd) 63 e)) in
            type_all-cmd cs (type_character p c s) fits
            ∙ ap (λ xs. take 63 (xs ++ cs)) longer
            ∙ ap (take 63) (append_assoc s.cmd (c ∷ []) cs)
        | inr e ↦
            let same : (type_character p c s).cmd ≡ s.cmd = now ∙ rw e refl in
            let full : 63 ≡ length s.cmd = ground arith in
            type_all-cmd cs (type_character p c s) (subst (λ xs. length xs ≤ 63) (sym same) h)
            ∙ ap (λ xs. take 63 (xs ++ cs)) same
            ∙ take-append s.cmd cs 63 full
            ∙ sym (take-append s.cmd (c ∷ cs) 63 full)
      ]

  handle_key-plain :
      (c : ℕ) (r : Registers) (s : Shell p)
      → c ≢ 0
      → c ≢ 8
      → c ≢ 10
      → handle_key p (c, r) s ≡ running (type_character p c s)
  unfolding handle_key
  handle_key-plain c r s h k l = rw (ne→== c 0 h, ne→== c 8 k, ne→== c 10 l) refl

  shell_loop-typed :
      (cs : List ℕ) (r : Registers) (n : ℕ) (keys : List Key) (s : Shell p)
      → Plain cs
      → shell_loop p (length cs + n) (typed r cs ++ keys) s ≡ shell_loop p n keys (type_all cs s)
  unfolding shell_loop
  shell_loop-typed [] r n keys s h = ap (λ m. shell_loop p m keys s) (omega arith)
  shell_loop-typed (c ∷ cs) r n keys s (h, k, l, rest) =
      let next : suc (length cs) + n ≡ suc (length cs + n) = omega arith in
      ap (λ m. shell_loop p m ((c, r) ∷ (typed r cs ++ keys)) s) next
      ∙ ap (continue p (shell_loop p (length cs + n)) (typed r cs ++ keys))
          (handle_key-plain c r s h k l)
      ∙ shell_loop-typed cs r n keys (type_character p c s) rest

  -- A line of at most 63 bytes that is typed at an empty prompt and entered runs the command before
  -- its first space with what follows that space as the arguments, one row further down; then the
  -- loop goes on with the keys that follow.
  pub shell_loop-command :
      (w args : List ℕ) (r : Registers) (n : ℕ) (keys : List Key) (s : Shell p)
      → s.cmd ≡ []
      → Word w
      → Plain (w ++ 32 ∷ args)
      → length (w ++ 32 ∷ args) ≤ 63
      → (let line = w ++ 32 ∷ args in
          let t = type_all line s in
          shell_loop p (length line + suc n) (typed r line ++ (10, r) ∷ keys) s
          ≡ continue p
              (shell_loop p n)
              keys
              (end_command p (run_command p r w args (record t { console = scrl t.console }))))
  unfolding shell_loop handle_key enter
  shell_loop-command w args r n keys s empty word plain room =
      let line = w ++ 32 ∷ args in
      let t = type_all line s in
      let whole : t.cmd ≡ line =
        type_all-cmd line s (subst (λ xs. length xs ≤ 63) (sym empty) (omega arith))
        ∙ ap (λ xs. take 63 (xs ++ line)) empty
        ∙ take-all 63 line room in
      shell_loop-typed line r (suc n) ((10, r) ∷ keys) s plain
      ∙ ap
          (λ c. continue p (shell_loop p n) keys (
            end_command p (
              run_command p r (split_space c).0 (split_space c).1
                (record t { console = scrl t.console }))))
          whole
      ∙ ap
          (λ cut.
            continue p (shell_loop p n) keys
              (end_command p (run_command p r cut.0 cut.1 (record t { console = scrl t.console }))))
          (split_space-command w args word)
