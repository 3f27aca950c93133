-- ===== src/Ahci/Pci.antt =====
-- The search for the controller in src/kernel/drivers/ahci.c.
use my_dos.Base.{
  ℕ, zero, suc, ◌*◌, ◌/◌, ◌%◌, not, ◌||◌, Option, none, some, ◌==◌, bit_and, bit_or, if◌then◌else◌,
}
use my_dos.Ahci.Machine.{Machine}

abbrev pub pci_config_address : ℕ
pci_config_address = 0xCF8

abbrev pub pci_config_data : ℕ
pci_config_data = 0xCFC

abbrev pub pci_command : ℕ
pci_command = 0x04

abbrev pub pci_bar5 : ℕ
pci_bar5 = 0x24

abbrev pub pci_class_revision : ℕ
pci_class_revision = 0x08

abbrev pub ahci_pci_class : ℕ
ahci_pci_class = 0x010601

-- The address of a register, for a bus, a device and an offset of eight bits.
unfoldable pub pci_address : ℕ → ℕ → ℕ → ℕ → ℕ
pci_address bus device function offset =
    bit_or (bit_or (bit_or (bit_or 0x80000000 (bus * 65536)) (device * 2048)) (function * 256))
      (bit_and offset 0xFC)

module _ (m : Machine) where
  open m use {World, inl, outl}

  unfoldable pub pci_read : ℕ → ℕ → ℕ → ℕ → World → ℕ × World
  pci_read bus device function offset w =
      inl pci_config_data (outl pci_config_address (pci_address bus device function offset) w)

  unfoldable pub pci_write : ℕ → ℕ → ℕ → ℕ → ℕ → World → World
  pci_write bus device function offset value w =
      outl pci_config_data value
        (outl pci_config_address (pci_address bus device function offset) w)

  -- One function of a device: the address of the controller, if it is one.
  unfoldable pub try_function : ℕ → ℕ → ℕ → World → Option ℕ × World
  try_function bus dev function w =
      let (class_revision, w1) = pci_read bus dev function pci_class_revision w in
      let (command, w2) = pci_read bus dev function pci_command w1 in
      let w3 = pci_write bus dev function pci_command (bit_or command 0x0006) w2 in
      let (bar5, w4) = pci_read bus dev function pci_bar5 w3 in
      if not (class_revision / 256 == ahci_pci_class)
      then (none, w1)
      else if not (bit_and bar5 1 == 0) || bit_and bar5 0xFFFFFFF0 == 0
      then (none, w4)
      else (some (bit_and bar5 0xFFFFFFF0), w4)

  -- A loop of n rounds from a number on, which the first address found leaves.
  unfoldable pub first_found : ℕ → ℕ → (ℕ → World → Option ℕ × World) → World → Option ℕ × World
  first_found zero from body w = (none, w)
  first_found (suc n) from body w =
      let (found, w') = body from w in
      elim found [ some address ↦ (some address, w') | none ↦ first_found n (suc from) body w' ]

  -- A device that is there has one function or eight.
  unfoldable pub try_device : ℕ → ℕ → World → Option ℕ × World
  try_device bus dev w =
      let (identity, w1) = pci_read bus dev 0 0 w in
      let (header, w2) = pci_read bus dev 0 0x0C w1 in
      let functions = if not (bit_and header 0x00800000 == 0) then 8 else 1 in
      if identity % 65536 == 0xFFFF
      then (none, w1)
      else first_found functions 0 (try_function bus dev) w2

  unfoldable pub find_ahci_controller : World → Option ℕ × World
  find_ahci_controller = first_found 256 0 (λ bus. first_found 32 0 (try_device bus))
