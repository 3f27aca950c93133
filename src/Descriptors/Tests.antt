-- ===== src/Descriptors/Tests.antt =====
-- Runs of src/kernel/gdt/gdt.c and src/kernel/interrupts/idt.c, and the theorems at these inputs.
use my_dos.Base.{ℕ, ◌+◌, ◌*◌, ◌≡◌, ◌≤◌, ◌<◌, ◌++◌, arith, none, some, codes, length}
use my_dos.CString.Compare.{text}
use my_dos.CString.Hex.{read_hex}
use my_dos.Vga.{Words, default_theme}
use my_dos.Panic.{centred_column, exception_name}
use my_dos.Panic.Screen.{Shows, code_digits}
use my_dos.Descriptors.{GdtEntry, gdt_entry, idt_init, no_gate, isr_handler}
use my_dos.Descriptors.Gates.{gate_offset, idt_init-gates}
use my_dos.Descriptors.Exceptions.{shown_code, isr_handler-Shows}

abbrev old_table : ℕ → GdtEntry
old_table n = gdt_entry n n n n

-- The stubs stand 16 bytes apart.
abbrev stub : ℕ → ℕ
stub n = 0x12340 + n * 16

idt_init-gates_example :
    (let e = (idt_init stub 0x2000 (λ n. no_gate)).1 14 in
      (14 < 32 → (gate_offset e ≡ 0x12420) × (e.sel ≡ 0x08) × (e.flags ≡ 0x8E))
      × (32 ≤ 14 → 14 < 256 → e ≡ no_gate))
idt_init-gates_example = idt_init-gates stub 0x2000 (λ n. no_gate) 14 (omega arith)

abbrev blank_words : Words
blank_words i = 0

isr_handler-Shows_example :
    (14 < 32
      → (screen : Words) × (isr_handler 14 2 default_theme blank_words ≡ some screen)
        × (read_hex (code_digits (shown_code 14 2)) ≡ 2)
        × Shows
            (codes "Code: " ++ code_digits (shown_code 14 2))
            (14 * 80 + centred_column 16)
            default_theme
            screen
        × (let name = text (codes (exception_name 14)) in
            Shows
              (codes "Exception: " ++ name)
              (15 * 80 + centred_column (11 + length name))
              default_theme
              screen))
    × (32 ≤ 14 → isr_handler 14 2 default_theme blank_words ≡ none)
isr_handler-Shows_example = isr_handler-Shows 14 2 default_theme blank_words (omega arith)
