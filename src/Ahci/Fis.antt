-- ===== src/Ahci/Fis.antt =====
-- What a disk reads from the commands of src/kernel/drivers/ahci.c.
use my_dos.Base.{
  ℕ, ◌+◌, ◌*◌, ◌/◌, ◌%◌, ◌^◌, ◌<◌, ◌≡◌, refl, arith, Bool, true, false, List, ltb, ◌==◌, bit_or,
  if◌then◌else◌, get_or, length, passes_below_lem, ==→eq, Bool-cases, inl, inr, ltb→lt,
}
unfoldable use my_dos.Base.{passes_below}
use my_dos.Ahci.Command.{command_fis, is_ext}
use my_dos.Ahci.Driver.{transfer_command}

-- The sector that the specification of ATA reads from the bytes of a command: 48 bits in two groups, or
-- 28 bits of which the topmost four share the byte of the device.
abbrev pub device_lba : List ℕ → ℕ
device_lba fis =
    let low = get_or fis 4 0 + get_or fis 5 0 * 256 + get_or fis 6 0 * 65536 in
    if is_ext (get_or fis 2 0)
    then low
      + get_or fis 8 0 * 16777216
      + get_or fis 9 0 * 4294967296
      + get_or fis 10 0 * 1099511627776
    else low + get_or fis 7 0 % 16 * 16777216

abbrev pub device_count : List ℕ → ℕ
device_count fis = get_or fis 12 0 + get_or fis 13 0 * 256

device_nibble : (n : ℕ) → n < 16 → bit_or 0xE0 n % 16 ≡ n
unfolding passes_below
device_nibble n h = ==→eq _ n (passes_below_lem 16 (λ x. bit_or 0xE0 x % 16 == x) n refl h)

-- The two forms of a command.
short_form :
    (command sector : ℕ)
    → is_ext command ≡ false
    → sector < 0x10000000
    → (let fis = command_fis command sector 1 in
        (device_lba fis ≡ sector)
        × (device_count fis ≡ 1)
        × (get_or fis 2 0 ≡ command)
        × (length fis ≡ 64))
unfolding command_fis
short_form command sector e h =
    let nibble = device_nibble (sector / 16777216 % 16) (omega arith) in
    rw e (rw (e, nibble) (omega arith), refl, refl, refl)

long_form :
    (command sector : ℕ)
    → is_ext command ≡ true
    → sector < 2 ^ 32
    → (let fis = command_fis command sector 1 in
        (device_lba fis ≡ sector)
        × (device_count fis ≡ 1)
        × (get_or fis 2 0 ≡ command)
        × (length fis ≡ 64))
unfolding command_fis
long_form command sector e h = rw e (rw e (omega arith), refl, refl, refl)

-- Every 32-bit sector has a command that names it and one sector, in 64 bytes, whichever of the two
-- forms it takes.
pub command_fis-names :
    (sector : ℕ) (write : Bool)
    → sector < 2 ^ 32
    → (let fis = command_fis (transfer_command sector write) sector 1 in
        (device_lba fis ≡ sector)
        × (device_count fis ≡ 1)
        × (get_or fis 2 0 ≡ transfer_command sector write)
        × (length fis ≡ 64))
unfolding transfer_command
command_fis-names sector true h = elim (Bool-cases (ltb sector 0x10000000)) [
  | inl e ↦ rw e (short_form 0xCA sector refl (ltb→lt sector 0x10000000 e))
  | inr e ↦ rw e (long_form 0x35 sector refl h)
]
command_fis-names sector false h = elim (Bool-cases (ltb sector 0x10000000)) [
  | inl e ↦ rw e (short_form 0xC8 sector refl (ltb→lt sector 0x10000000 e))
  | inr e ↦ rw e (long_form 0x25 sector refl h)
]
