-- ===== src/Shell/Invariant.antt =====
-- The state in which the loop of `KernelEntryPoint`, src/kernel/kernel.c, waits for a key.
use my_dos.Base.{
  ℕ, zero, suc, ◌+◌, ◌-◌, ◌≤◌, ◌<◌, ◌≡◌, refl, ap, sym, subst, arith, Bool, true, false, ◌&&◌, List,
  [], ◌∷◌, ◌++◌, Option, none, some, ltb, ◌==◌, if◌then◌else◌, length, take, drop, Bool-cases, inl,
  inr, length-append, length-take, ltb→lt,
}
use my_dos.Vga.{Words}
use my_dos.Console.{Console, OnScreen, scrl-OnScreen, at-OnScreen, write}
use my_dos.Rtc.{Registers}
use my_dos.Editor.Session.{Editor}
use my_dos.Shell.State.{Platform, Shell, prompt, prompt_length}
use my_dos.Shell.Commands.{Outcome, running, editing, stopped, out_of_fuel}
use my_dos.Shell.Loop.{
  Key, end_round, end_command, backspace, type_character, enter, handle_key, after_editor, resume,
  continue, shell_loop,
}
use my_dos.Shell.Rounds.{Shown, runs, edits, stops, exhausted, run_command-Shown}

pub prompt-OnScreen : (c : Console) → OnScreen c → OnScreen (prompt c)
unfolding prompt write
prompt-OnScreen c h = record { in_rows = h.in_rows }

pub prompt-row : (c : Console) → (prompt c).cursor_y ≡ c.cursor_y
unfolding prompt write
prompt-row c = refl

module _ (p : Platform) where
  -- The command fits its buffer with the zero behind it, it stands behind the prompt in a row of the
  -- screen, and the hardware cursor stands behind it.
  pub record Ready (s : Shell p) : Type 0 where
    pub fits : length s.cmd ≤ 63
    pub behind : s.cursor_x ≡ prompt_length + length s.cmd
    pub row : OnScreen s.console
    pub shown : s.cursor ≡ (s.cursor_x, s.console.cursor_y)

  end_round-Ready : (s : Shell p) → OnScreen s.console → Ready (end_round p s)
  unfolding end_round
  end_round-Ready s h = record {
    fits = omega arith;
    behind = refl;
    row = prompt-OnScreen s.console h;
    shown = ap (λ y. (prompt_length, y)) (sym (prompt-row s.console));
  }

  backspace-Ready : (s : Shell p) → Ready s → Ready (backspace p s)
  unfolding backspace write
  backspace-Ready s r = elim (Bool-cases (ltb prompt_length s.cursor_x && ltb 0 (length s.cmd))) [
    | inr e ↦ rw e r
    | inl e ↦
        let some_left : 0 < length s.cmd = ground arith in
        let shorter : length (take (length s.cmd - 1) s.cmd) ≡ length s.cmd - 1 =
          length-take (length s.cmd - 1) s.cmd (omega arith) in
        let place = r.behind in
        let bound = r.fits in
        rw e (record {
          fits = omega (arith, shorter, bound);
          behind = omega (arith, shorter, place, some_left);
          row = at-OnScreen _ r.row.in_rows;
          shown = refl;
        })
  ]

  type_character-Ready : (c : ℕ) (s : Shell p) → Ready s → Ready (type_character p c s)
  unfolding type_character write
  type_character-Ready c s r = elim (Bool-cases (ltb (length s.cmd) 63)) [
    | inr e ↦ rw e r
    | inl e ↦
        let room = ltb→lt (length s.cmd) 63 e in
        let longer : length (s.cmd ++ c ∷ []) ≡ length s.cmd + 1 = length-append s.cmd (c ∷ []) in
        let place = r.behind in
        rw e (record {
          fits = omega (arith, longer, room);
          behind = omega (arith, longer, place);
          row = at-OnScreen _ r.row.in_rows;
          shown = refl;
        })
  ]

  -- A shell that waits for a key is ready for it.
  pub data Waits : Outcome p → Type 0 where
    waits : (s : Shell p) → Ready s → Waits (running s)
    in_editor : (s : Shell p) → Waits (editing s)
    halted : (words : Words) → Waits (stopped words)
    unfinished : Waits out_of_fuel

  end_command-Waits : (o : Outcome p) → Shown p o → Waits (end_command p o)
  end_command-Waits _ (runs s h) = waits (end_round p s) (end_round-Ready s h)
  end_command-Waits _ (edits s) = in_editor s
  end_command-Waits _ (stops words) = halted words
  end_command-Waits _ exhausted = unfinished

  Waits-if : (b : Bool) (x y : Outcome p) → Waits x → Waits y → Waits (if b then x else y)
  Waits-if true x y h k = h
  Waits-if false x y h k = k

  enter-Waits : (r : Registers) (s : Shell p) → Waits (enter p r s)
  unfolding enter
  enter-Waits r s = end_command-Waits _ (run_command-Shown p r _ _ _ (scrl-OnScreen s.console))

  handle_key-Waits : (key : Key) (s : Shell p) → Ready s → Waits (handle_key p key s)
  unfolding handle_key
  handle_key-Waits (c, r) s h = Waits-if (c == 0) _ _ (waits s h) (
      Waits-if (c == 8) _ _ (waits _ (backspace-Ready s h))
        (Waits-if (c == 10) _ _ (enter-Waits r s) (waits _ (type_character-Ready c s h))))

  after_editor-Ready :
      (s : Shell p) (ed : Editor) (v : p.fat.Volume) → Ready (after_editor p s ed v)
  unfolding after_editor
  after_editor-Ready s ed v = end_round-Ready _ (at-OnScreen _ (omega arith))

  resume-Waits :
      (next : List Key → Shell p → Outcome p) (keys : List Key) (s : Shell p)
      (out : Option (Editor × List ℕ × p.fat.Volume))
      → ((ks : List Key) (t : Shell p) → Ready t → Waits (next ks t))
      → Waits (resume p next keys s out)
  resume-Waits next keys s none h = in_editor s
  resume-Waits next keys s (some (ed, left, v)) h =
      h (drop (length keys - length left) keys) (after_editor p s ed v) (after_editor-Ready s ed v)

  continue-Waits :
      (next : List Key → Shell p → Outcome p) (keys : List Key) (o : Outcome p)
      → ((ks : List Key) (t : Shell p) → Ready t → Waits (next ks t))
      → Waits o
      → Waits (continue p next keys o)
  continue-Waits next keys _ h (waits s k) = h keys s k
  continue-Waits next keys _ h (in_editor s) = resume-Waits next keys s _ h
  continue-Waits next keys _ h (halted words) = halted words
  continue-Waits next keys _ h unfinished = unfinished

  shell_loop-Waits :
      (n : ℕ) (keys : List Key) (s : Shell p) → Ready s → Waits (shell_loop p n keys s)
  unfolding shell_loop
  shell_loop-Waits zero keys s h = waits s h
  shell_loop-Waits (suc n) [] s h = waits s h
  shell_loop-Waits (suc n) (key ∷ keys) s h =
      continue-Waits (shell_loop p n) keys (handle_key p key s) (shell_loop-Waits n)
        (handle_key-Waits key s h)

  -- Whatever keys come, whatever the clock shows, and whatever FatFs, the disks, the ports and the
  -- memory answer, a shell that starts ready and waits for another key is ready for it: the command
  -- is within its buffer, behind the prompt, in a row of the screen, with the cursor behind it.
  pub shell_loop-Ready :
      (n : ℕ) (keys : List Key) (s s' : Shell p)
      → Ready s
      → shell_loop p n keys s ≡ running s'
      → Ready s'
  shell_loop-Ready n keys s s' h e = ready (subst Waits e (shell_loop-Waits n keys s h))
    where
      ready : Waits (running s') → Ready s'
      ready (waits _ k) = k
