-- ===== src/Descriptors/Segments.antt =====
-- The segments that the processor reads from the table of src/kernel/gdt/gdt.c.
use my_dos.Base.{
  ℕ, ◌+◌, ◌*◌, ◌-◌, ◌/◌, ◌%◌, ◌^◌, ◌<◌, ◌≡◌, refl, arith, leb, if◌then◌else◌, bit_or-nibbles,
  bit_and-high_nibble, bit_or, bit_and, ap, ◌∙◌,
}
use my_dos.Descriptors.{GdtEntry, gdt_entry, gdt_set_gate, gdt_init}

-- How the processor puts an entry together: the base from three fields, the limit of twenty bits
-- from two, of which the second shares its byte with the flags.
abbrev pub segment_base : GdtEntry → ℕ
segment_base e = e.base_low + e.base_middle * 65536 + e.base_high * 16777216

abbrev pub segment_limit : GdtEntry → ℕ
segment_limit e = e.limit_low + e.granularity % 16 * 65536

-- With the granularity flag the limit counts pages of 4096 bytes. The last byte of the segment:
abbrev pub last_byte : GdtEntry → ℕ
last_byte e = if leb 128 e.granularity then segment_limit e * 4096 + 4095 else segment_limit e

-- An entry made from a 32-bit base, a limit and a byte of flags has that base, the limit's lowest
-- twenty bits, and the upper half of the flags.
pub gdt_entry-decodes :
    (base limit access gran : ℕ)
    → base < 2 ^ 32
    → gran < 256
    → (segment_base (gdt_entry base limit access gran) ≡ base)
      × (segment_limit (gdt_entry base limit access gran) ≡ limit % 2 ^ 20)
      × ((gdt_entry base limit access gran).granularity / 16 ≡ gran / 16)
unfolding gdt_entry
gdt_entry-decodes base limit access gran hb hg =
    let high = bit_and-high_nibble gran hg in
    let both : bit_or (limit / 65536 % 16) (bit_and gran 0xF0)
        ≡ limit / 65536 % 16 + gran / 16 * 16 =
      ap (bit_or (limit / 65536 % 16)) high
      ∙ bit_or-nibbles (limit / 65536 % 16) (gran / 16) (omega arith) (omega arith) in
    (omega arith, rw both (omega arith), rw both (omega arith))

-- Whatever the table held, its first entry is the null descriptor, and the two others are segments
-- for code and for data that span all 2 ^ 32 bytes from 0 on.
pub gdt_init-flat :
    (address : ℕ) (entries : ℕ → GdtEntry)
    → (let table = (gdt_init address entries).1 in
        (table 0 ≡ gdt_entry 0 0 0 0)
        × ((segment_base (table 1) ≡ 0)
            × (last_byte (table 1) ≡ 2 ^ 32 - 1)
            × ((table 1).access ≡ 0x9A))
        × ((segment_base (table 2) ≡ 0)
            × (last_byte (table 2) ≡ 2 ^ 32 - 1)
            × ((table 2).access ≡ 0x92)))
unfolding gdt_init gdt_set_gate gdt_entry
gdt_init-flat address entries = (refl, (refl, refl, refl), (refl, refl, refl))
