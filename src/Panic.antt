-- ===== src/Panic.antt =====
-- src/kernel/panic.c: the panic screen. A null pointer is the empty text, which the code treats
-- alike.
pub mod Centred
pub mod Screen
mod Tests
use my_dos.Base.{
  ℕ, ◌+◌, ◌-◌, ◌/◌, Bool, not, List, [], ◌∷◌, String, codes, ltb, ◌==◌, if◌then◌else◌, get_or,
  replicate,
}
use my_dos.Kernel.{white}
use my_dos.CString.{strlen, head_or_zero, itohex}
use my_dos.CString.Compare.{text}
use my_dos.Vga.{Theme, Words, print, clear_screen}
use my_dos.Vga.Logo.{draw_pattern, print_logo_color}

abbrev pub exclamation_pattern : List String
exclamation_pattern = "####" ∷ "####" ∷ "####" ∷ " ## " ∷ "    " ∷ " ## " ∷ []

abbrev pub exception_names : List String
exception_names =
    "Divide-by-Zero Error (#DE)" ∷ "Debug Exception (#DB)" ∷ "Non-Maskable Interrupt (#NMI)"
    ∷ "Breakpoint Exception (#BP)" ∷ "Overflow Exception (#OF)" ∷ "Bound Range Exceeded (#BR)"
    ∷ "Invalid Opcode (#UD)" ∷ "Device Not Available (#NM)" ∷ "Double Fault (#DF)"
    ∷ "Coprocessor Segment Overrun" ∷ "Invalid TSS (#TS)" ∷ "Segment Not Present (#NP)"
    ∷ "Stack-Segment Fault (#SS)" ∷ "General Protection Fault (#GP)" ∷ "Page Fault (#PF)"
    ∷ "Reserved Exception" ∷ "x87 FPU Floating-Point Error (#MF)" ∷ "Alignment Check (#AC)"
    ∷ "Machine Check (#MC)" ∷ "SIMD Floating-Point Exception (#XM)"
    ∷ "Virtualization Exception (#VE)" ∷ "Control Protection Exception (#CP)" ∷ "Reserved Exception"
    ∷ "Reserved Exception" ∷ "Reserved Exception" ∷ "Reserved Exception" ∷ "Reserved Exception"
    ∷ "Reserved Exception" ∷ "Hypervisor Injection Exception" ∷ "VMM Communication Exception"
    ∷ "Security Exception" ∷ "Reserved Exception" ∷ []

-- if (text[0] != '\0') print(text, ...);
abbrev pub print_some : List ℕ → ℕ → ℕ → Theme → Words → Words
print_some s x y theme words =
    if not (head_or_zero s == 0) then print s white x y theme words else words

-- The column: a text that is too long starts at the first column but one.
unfoldable pub centred_column : ℕ → ℕ
centred_column total_len = let x = (80 - total_len) / 2 in if ltb x 1 then 1 else x

unfoldable pub print_centered : List ℕ → List ℕ → ℕ → Theme → Words → Words
print_centered prefix body y theme words =
    let prefix_len = strlen prefix in
    let x = centred_column (prefix_len + strlen body) in
    print_some body (x + prefix_len) y theme (print_some prefix x y theme words)

-- The code, and the exception's name and the message, where they are given.
unfoldable pub panic_texts : ℕ → List ℕ → List ℕ → Theme → Words → Words
panic_texts code exception_name message theme words =
    let w1 = print_centered (codes "Code: ") (itohex code (replicate 11 0)) 14 theme words in
    let w2 =
      if not (head_or_zero exception_name == 0)
      then print_centered (codes "Exception: ") exception_name 15 theme w1
      else w1 in
    if not (head_or_zero message == 0)
    then print_centered (codes "Error: ") message 17 theme w2
    else w2

-- What stands on the screen when the processor halts. The tone does not touch the screen.
unfoldable pub panic_render : ℕ → List ℕ → List ℕ → Theme → Words → Words
panic_render code exception_name message theme words =
    let w1 = clear_screen theme words in
    let w2 = print_logo_color 2 2 white theme w1 in
    let w3 = draw_pattern exclamation_pattern 4 6 white 41 2 theme w2 in
    let w4 = print_centered [] (codes "KERNEL PANIC!") 10 theme w3 in
    let w5 = print_centered [] (codes "Please reboot your computer.") 12 theme w4 in
    panic_texts code exception_name message theme w5

unfoldable pub panic_code : ℕ → List ℕ → Theme → Words → Words
panic_code code message = panic_render code [] message

unfoldable pub panic : List ℕ → Theme → Words → Words
panic message = panic_code 1 message

unfoldable pub exception_name : ℕ → String
exception_name vector =
    if ltb vector 32 then get_or exception_names vector "" else "Unknown CPU Exception"

unfoldable pub panic_exception : ℕ → ℕ → List ℕ → Theme → Words → Words
panic_exception vector error_code extra_msg =
    let code = if not (error_code == 0) then error_code else vector in
    panic_render code (codes (exception_name vector)) extra_msg
