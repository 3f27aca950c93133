-- ===== src/Descriptors/Gates.antt =====
-- The gates that src/kernel/interrupts/idt.c installs.
use my_dos.Base.{
  ℕ, zero, suc, ◌+◌, ◌*◌, ◌/◌, ◌%◌, ◌^◌, ◌≤◌, ◌<◌, ◌≡◌, refl, arith, ap, sym, ◌∙◌, ==→eq, true,
  false, ltb, ◌==◌, if◌then◌else◌, for_below, lt→ltb, Bool-cases, inl, inr,
}
use my_dos.Descriptors.{IdtEntry, idt_set_gate, idt_init, no_gate, put}

-- The address that the processor jumps to.
abbrev pub gate_offset : IdtEntry → ℕ
gate_offset e = e.base_low + e.base_high * 65536

-- A loop that fills the first n entries of a table.
filled-at {ℓ} :
    {A : Type ℓ} (f : ℕ → A) (n : ℕ) (table : ℕ → A) (i : ℕ)
    → for_below n (λ k. put k (f k)) table i ≡ (if ltb i n then f i else table i)
filled-at f zero table i = ground arith
filled-at f (suc n) table i = elim (Bool-cases (i == n)) [
  | inl e ↦
      let last : ltb i (suc n) ≡ true = ground arith in rw (e, last) (ap f (sym (==→eq i n e)))
  | inr e ↦
      let same : ltb i (suc n) ≡ ltb i n = ground arith in rw (e, same) (filled-at f n table i)
]

-- The gate of an exception.
abbrev gate : (ℕ → ℕ) → ℕ → IdtEntry
gate isr n = record {
  base_low = isr n % 65536;
  base_high = isr n / 65536 % 65536;
  sel = 0x08;
  zero_byte = 0;
  flags = 0x8E;
}

installed-at :
    (isr : ℕ → ℕ) (address : ℕ) (entries : ℕ → IdtEntry) (n : ℕ)
    → (idt_init isr address entries).1 n
      ≡ (if ltb n 32 then gate isr n else if ltb n 256 then no_gate else entries n)
unfolding idt_init idt_set_gate
installed-at isr address entries n =
    filled-at (gate isr) 32 (for_below 256 (λ k. put k no_gate) entries) n
    ∙ ap (λ e. if ltb n 32 then gate isr n else e) (filled-at (λ k. no_gate) 256 entries n)

-- Whatever the table held, the gate of each of the 32 exceptions is a present interrupt gate of the
-- kernel's code segment that leads to that exception's stub, and the other gates are not present.
pub idt_init-gates :
    (isr : ℕ → ℕ) (address : ℕ) (entries : ℕ → IdtEntry) (n : ℕ)
    → isr n < 2 ^ 32
    → (let e = (idt_init isr address entries).1 n in
        (n < 32 → (gate_offset e ≡ isr n) × (e.sel ≡ 0x08) × (e.flags ≡ 0x8E))
        × (32 ≤ n → n < 256 → e ≡ no_gate))
idt_init-gates isr address entries n h =
    let e = installed-at isr address entries n in
    (
      λ l. rw (e, lt→ltb n 32 l) (omega arith, refl, refl),
      λ k l. let later : ltb n 32 ≡ false = ground arith in rw (e, later, lt→ltb n 256 l) refl,
    )
