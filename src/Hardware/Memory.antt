-- ===== src/Hardware/Memory.antt =====
-- `get_total_ram_mb` of src/lib/hardware.c on a memory map as the boot loader lays it out.
use my_dos.Base.{ℕ, ◌+◌, ◌/◌, ◌%◌, ◌^◌, ◌<◌, ◌≡◌, ◌==◌, List, [], ◌∷◌, length, if◌then◌else◌}
use my_dos.Hardware.{Ram}

-- An entry of the memory map: its size without the field `size` itself, the lower word of the length
-- of its range, and the type.
pub record MapEntry : Type 0 where
  pub size : ℕ
  pub len_low : ℕ
  pub kind : ℕ

-- The entries lie in the memory one behind the other.
abbrev pub LaidAt : Ram → ℕ → List MapEntry → Type 0
LaidAt ram addr [] = Unit
LaidAt ram addr (e ∷ entries) =
    (ram (addr % 2 ^ 32) ≡ e.size)
    × (ram ((addr % 2 ^ 32 + 12) % 2 ^ 32) ≡ e.len_low)
    × (ram ((addr % 2 ^ 32 + 20) % 2 ^ 32) ≡ e.kind)
    × LaidAt ram (addr + (e.size + 4)) entries

abbrev pub map_bytes : List MapEntry → ℕ
map_bytes [] = 0
map_bytes (e ∷ entries) = e.size + 4 + map_bytes entries

-- The megabytes of the usable ranges, each rounded as the kernel does.
abbrev pub sum_mb : List MapEntry → ℕ
sum_mb [] = 0
sum_mb (e ∷ entries) =
    (if e.kind == 1 then (e.len_low + 1023) % 2 ^ 32 / 1024 / 1024 else 0) + sum_mb entries

-- The boot loader's memory map, if its flags choose it: `fuel` is above the number of entries.
pub record MapAt (ram : Ram) (mbi fuel : ℕ) (entries : List MapEntry) : Type 0 where
  pub laid : LaidAt ram (ram ((mbi + 48) % 2 ^ 32)) entries
  pub bytes : map_bytes entries ≡ ram ((mbi + 44) % 2 ^ 32)
  pub in_range : map_bytes entries < 2 ^ 32
  pub enough : length entries < fuel
