-- ===== src/Shell/Editing.antt =====
-- The keys of the loop in `KernelEntryPoint`, src/kernel/kernel.c: a character and a backspace, and how
-- many rounds are enough.
use my_dos.Base.{
  ℕ, zero, suc, ◌+◌, ◌-◌, ◌≤◌, ◌<◌, ◌≡◌, refl, ap, sym, ◌∙◌, arith, List, [], ◌∷◌, ◌++◌, Option,
  none, some, map, length, take, drop, length-append, length-drop, take-append, lt→ltb,
}
use my_dos.Console.{write}
use my_dos.Editor.Session.{Editor}
use my_dos.Editor.Loop.{session, fresh_editor}
use my_dos.Shell.State.{Platform, Shell, prompt_length}
use my_dos.Shell.Commands.{Outcome, running, editing, stopped, out_of_fuel}
use my_dos.Shell.Loop.{
  Key, backspace, type_character, handle_key, after_editor, resume, continue, shell_loop,
}
use my_dos.Shell.Invariant.{Ready}

module _ (p : Platform) where
  type_character-room :
      (c : ℕ) (s : Shell p)
      → length s.cmd < 63
      → ((type_character p c s).cmd ≡ s.cmd ++ c ∷ [])
        × ((type_character p c s).cursor_x ≡ s.cursor_x + 1)
        × ((type_character p c s).console.cursor_y ≡ s.console.cursor_y)
  unfolding type_character write
  type_character-room c s h = rw (lt→ltb (length s.cmd) 63 h) (refl, refl, refl)

  backspace-some :
      (s : Shell p)
      → prompt_length < s.cursor_x
      → 0 < length s.cmd
      → ((backspace p s).cmd ≡ take (length s.cmd - 1) s.cmd)
        × ((backspace p s).cursor_x ≡ s.cursor_x - 1)
        × ((backspace p s).cursor ≡ (s.cursor_x - 1, s.console.cursor_y))
  unfolding backspace
  backspace-some s h k =
      rw (lt→ltb prompt_length s.cursor_x h, lt→ltb 0 (length s.cmd) k) (refl, refl, refl)

  -- In a state that is ready, with room in the buffer, a backspace takes back the character that
  -- was typed before it: the command and both cursors are as they were.
  pub backspace-type_character :
      (c : ℕ) (s : Shell p)
      → Ready p s
      → length s.cmd < 63
      → (let t = backspace p (type_character p c s) in
          (t.cmd ≡ s.cmd) × (t.cursor_x ≡ s.cursor_x) × (t.cursor ≡ s.cursor))
  backspace-type_character c s ready h =
      let u = type_character p c s in
      let (cmd, x, y) = type_character-room c s h in
      let longer : length u.cmd ≡ suc (length s.cmd) =
        ap length cmd ∙ length-append s.cmd (c ∷ []) ∙ omega arith in
      let place = ready.behind in
      let (cut, x', there) = backspace-some u (omega (arith, x, place)) (omega (arith, longer)) in
      let back : u.cursor_x - 1 ≡ s.cursor_x = omega (arith, x) in
      (
        cut
            ∙ ap (λ xs. take (length u.cmd - 1) xs) cmd
            ∙ take-append s.cmd (c ∷ []) (length u.cmd - 1) (omega (arith, longer)),
        x' ∙ back,
        there
            ∙ ap (λ a. (a, u.console.cursor_y)) back
            ∙ ap (λ b. (s.cursor_x, b)) y
            ∙ sym ready.shown,
      )

  -- Two ways to go on that agree on what is left of the keys.
  Agree : (List Key → Shell p → Outcome p) → (List Key → Shell p → Outcome p) → ℕ → Type 0
  Agree next next' n = (ks : List Key) (t : Shell p) → length ks ≤ n → next ks t ≡ next' ks t

  continue-Agree :
      (next next' : List Key → Shell p → Outcome p) (keys : List Key) (o : Outcome p)
      → Agree next next' (length keys)
      → continue p next keys o ≡ continue p next' keys o
  unfolding Agree
  continue-Agree next next' keys (running s) h = h keys s (omega arith)
  continue-Agree next next' keys (editing s) h =
      resumed
        (session p.fat (length keys) p.fuel (fresh_editor s.cells) (map (λ k. k.0) keys) s.volume)
    where
      resumed :
          (out : Option (Editor × List ℕ × p.fat.Volume))
          → resume p next keys s out ≡ resume p next' keys s out
      resumed none = refl
      resumed (some (ed, left, v)) =
          h (drop (length keys - length left) keys) (after_editor p s ed v)
            (omega (arith, length-drop (length keys - length left) keys))
  continue-Agree next next' keys (stopped words) h = refl
  continue-Agree next next' keys out_of_fuel h = refl

  -- As many rounds as there are keys are enough: more rounds give the same outcome.
  pub shell_loop-enough :
      (n m : ℕ) (keys : List Key) (s : Shell p)
      → length keys ≤ n
      → length keys ≤ m
      → shell_loop p n keys s ≡ shell_loop p m keys s
  unfolding shell_loop Agree
  shell_loop-enough zero zero keys s h k = refl
  shell_loop-enough zero (suc m) [] s h k = refl
  shell_loop-enough (suc n) zero [] s h k = refl
  shell_loop-enough zero (suc m) (key ∷ keys) s h k = absurd (omega arith)
  shell_loop-enough (suc n) zero (key ∷ keys) s h k = absurd (omega arith)
  shell_loop-enough (suc n) (suc m) [] s h k = refl
  shell_loop-enough (suc n) (suc m) (key ∷ keys) s h k =
      continue-Agree (shell_loop p n) (shell_loop p m) keys (handle_key p key s)
        (λ ks t l. shell_loop-enough n m ks t (omega arith) (omega arith))
