-- ===== src/Hardware.antt =====
-- src/lib/hardware.c: the processor's name, the size of the memory, and the size of the disk.
-- src/lib/shtdwn.c: the screen at the end.
pub mod Memory
pub mod Names
mod Tests
use my_dos.Base.{
  ℕ, zero, suc, ◌+◌, ◌*◌, ◌-◌, ◌/◌, ◌%◌, ◌^◌, Bool, not, List, [], ◌∷◌, Option, none, some, codes,
  ltb, ◌==◌, bit_and, if◌then◌else◌,
}
use my_dos.FatFs.{FResult, fr_ok, fr_invalid_parameter, is_ok}
use my_dos.Vga.{Theme, Words, clear_screen, print}

-- What CPUID leaves in ebx, ecx and edx.
unfoldable pub cpuid_vendor : ℕ → ℕ → ℕ → List ℕ
cpuid_vendor ebx ecx edx =
    ebx % 256
    ∷ (ebx / 256 % 256)
    ∷ (ebx / 65536 % 256)
    ∷ (ebx / 16777216 % 256)
    ∷ edx % 256
    ∷ (edx / 256 % 256)
    ∷ (edx / 65536 % 256)
    ∷ (edx / 16777216 % 256)
    ∷ ecx % 256
    ∷ (ecx / 256 % 256)
    ∷ (ecx / 65536 % 256)
    ∷ (ecx / 16777216 % 256)
    ∷ 0
    ∷ []

-- The 32-bit word at an address.
abbrev pub Ram : Type 0
Ram = ℕ → ℕ

-- What an entry of the memory map adds: the megabytes of a range of type 1.
unfoldable pub entry_mb : Ram → ℕ → ℕ
entry_mb ram entry =
    if ram ((entry + 20) % 2 ^ 32) == 1
    then (ram ((entry + 12) % 2 ^ 32) + 1023) % 2 ^ 32 / 1024 / 1024
    else 0

-- The loop over the memory map; it runs on fuel, and `none` means that it ran out.
unfoldable pub walk_map : ℕ → Ram → ℕ → ℕ → ℕ → ℕ → Option ℕ
walk_map zero ram mmap_addr mmap_length total offset = none
walk_map (suc fuel) ram mmap_addr mmap_length total offset =
    let entry = (mmap_addr + offset) % 2 ^ 32 in
    let rest =
      walk_map fuel ram mmap_addr mmap_length ((total + entry_mb ram entry) % 2 ^ 32)
        ((offset + ram entry + 4) % 2 ^ 32) in
    if ltb offset mmap_length then rest else some total

unfoldable pub get_total_ram_mb : ℕ → Ram → ℕ → Option ℕ
get_total_ram_mb fuel ram mbi =
    let info : ℕ → ℕ = λ i. ram ((mbi + 4 * i) % 2 ^ 32) in
    let flags = info 0 in
    if not (bit_and flags 0x1 == 0)
    then some ((info 1 + info 2) % 2 ^ 32 / 1024)
    else if bit_and flags 0x40 == 0
    then some 0
    else walk_map fuel ram (info 12) (info 11) 0 0

-- The fields of the volume that are used, and the free clusters, as `f_getfree` returns them.
pub record FreeSpace : Type 0 where
  pub csize : ℕ
  pub n_fatent : ℕ
  pub free_clusters : ℕ

-- `FF_MIN_SS`
abbrev pub ff_min_ss : ℕ
ff_min_ss = 512

-- The megabytes in use and in all; `has_pointers` tells whether neither pointer to them is null.
-- `n_fatent - 2` is a 32-bit number, the products are 64-bit numbers.
unfoldable pub get_storage_info : Bool → FResult → FreeSpace → FResult × Option (ℕ × ℕ)
get_storage_info has_pointers result volume =
    let cluster_bytes = volume.csize * ff_min_ss in
    let total_bytes = (volume.n_fatent + 2 ^ 32 - 2) % 2 ^ 32 * cluster_bytes % 2 ^ 64 in
    let free_bytes = volume.free_clusters * cluster_bytes % 2 ^ 64 in
    if not has_pointers
    then (fr_invalid_parameter, none)
    else if not (is_ok result)
    then (result, none)
    else (
      fr_ok,
      some (
        (total_bytes + 2 ^ 64 - free_bytes) % 2 ^ 64 / 1048576 % 2 ^ 32,
        total_bytes / 1048576 % 2 ^ 32,
      ),
    )

-- What stands on the screen when the processor halts.
unfoldable pub shutdown : Theme → Words → Words
shutdown theme words =
    print (codes "It is now safe to power off your computer.") 0x0C 15 12 theme
      (clear_screen theme words)
