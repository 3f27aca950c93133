-- ===== src/Panic/Tests.antt =====
-- Runs of src/kernel/panic.c, and the theorems at these inputs.
use my_dos.Base.{◌≡◌, refl}
use my_dos.Vga.{Words}
use my_dos.Panic.{centred_column, exception_name}

centred_run : centred_column 13 ≡ 33
unfolding centred_column
centred_run = refl

name_run : exception_name 14 ≡ "Page Fault (#PF)"
unfolding exception_name
name_run = refl

abbrev blank_words : Words
blank_words i = 0
