-- ===== src/Descriptors.antt =====
-- src/kernel/gdt/gdt.c and src/kernel/interrupts/idt.c: the descriptor tables of the processor, and
-- what an exception leads to. The tables are functions from an index.
pub mod Segments
pub mod Gates
pub mod Exceptions
mod Tests
use my_dos.Base.{
  ℕ, ◌+◌, ◌*◌, ◌-◌, ◌/◌, ◌%◌, Bool, List, Option, none, some, codes, ltb, ◌==◌, bit_and, bit_or,
  if◌then◌else◌, for_below,
}
use my_dos.Vga.{Theme, Words}
use my_dos.Panic.{panic_exception}

-- `gdt_entry_t`
pub record GdtEntry : Type 0 where
  pub limit_low : ℕ
  pub base_low : ℕ
  pub base_middle : ℕ
  pub access : ℕ
  pub granularity : ℕ
  pub base_high : ℕ

-- `gdt_ptr_t` and `idt_ptr_t`
pub record TablePointer : Type 0 where
  pub limit : ℕ
  pub base : ℕ

unfoldable pub gdt_entry : ℕ → ℕ → ℕ → ℕ → GdtEntry
gdt_entry base limit access gran = record {
  base_low = base % 65536;
  base_middle = base / 65536 % 256;
  base_high = base / 16777216 % 256;
  limit_low = limit % 65536;
  granularity = bit_or (limit / 65536 % 16) (bit_and gran 0xF0);
  access = access;
}

-- An assignment to an element of a table.
abbrev pub put {ℓ} : {A : Type ℓ} → ℕ → A → (ℕ → A) → ℕ → A
put num entry table n = if n == num then entry else table n

unfoldable pub gdt_set_gate : ℕ → ℕ → ℕ → ℕ → ℕ → (ℕ → GdtEntry) → ℕ → GdtEntry
gdt_set_gate num base limit access gran = put num (gdt_entry base limit access gran)

-- The table, and the pointer that is loaded; `address` is that of the table.
unfoldable pub gdt_init : ℕ → (ℕ → GdtEntry) → TablePointer × (ℕ → GdtEntry)
gdt_init address entries = (
  record { limit = 8 * 3 - 1; base = address },
  gdt_set_gate 2 0 0xFFFFFFFF 0x92 0xCF
      (gdt_set_gate 1 0 0xFFFFFFFF 0x9A 0xCF (gdt_set_gate 0 0 0 0 0 entries)),
)

-- `idt_entry_t`
pub record IdtEntry : Type 0 where
  pub base_low : ℕ
  pub sel : ℕ
  pub zero_byte : ℕ
  pub flags : ℕ
  pub base_high : ℕ

unfoldable pub idt_set_gate : ℕ → ℕ → ℕ → ℕ → (ℕ → IdtEntry) → ℕ → IdtEntry
idt_set_gate num base sel flags = put num (record {
  base_low = base % 65536;
  base_high = base / 65536 % 65536;
  sel = sel;
  zero_byte = 0;
  flags = flags;
})

-- What `memset` leaves in an entry.
abbrev pub no_gate : IdtEntry
no_gate = record { base_low = 0; sel = 0; zero_byte = 0; flags = 0; base_high = 0 }

-- `isr n` is the address of the stub of the exception n, and `address` that of the table.
unfoldable pub idt_init : (ℕ → ℕ) → ℕ → (ℕ → IdtEntry) → TablePointer × (ℕ → IdtEntry)
idt_init isr address entries = (
  record { limit = 8 * 256 - 1; base = address },
  for_below 32 (λ n. idt_set_gate n (isr n) 0x08 0x8E) (for_below 256 (λ n. put n no_gate) entries),
)

-- The panic screen of an exception; `none` is a return without effect.
unfoldable pub isr_handler : ℕ → ℕ → Theme → Words → Option Words
isr_handler int_no err_code theme words =
    if ltb int_no 32
    then some
        (panic_exception (int_no % 256) err_code (codes "Unhandled CPU Exception") theme words)
    else none
