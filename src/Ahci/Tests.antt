-- ===== src/Ahci/Tests.antt =====
-- Runs of src/kernel/drivers/ahci.c, and the theorems at these inputs.
use my_dos.Base.{
  ℕ, ◌++◌, replicate, bit_and, ◌%◌, ◌≡◌, refl, arith, true, false, [], ◌∷◌, get_or, length, ◌==◌,
  if◌then◌else◌,
}
use my_dos.Disk.Device.{at_boot, res_notrdy}
use my_dos.Disk.Calls.{disk_read}
use my_dos.Ahci.Machine.{Machine}
use my_dos.Ahci.Command.{command_fis, issue_command, await_end}
use my_dos.Ahci.Driver.{
  Disks, try_ports, try_port, is_disk, identify_port, set_up_port, add_disk, identify_sectors,
  transfer_command, ahci_init, ahci_sector_count,
}
use my_dos.Ahci.Pci.{
  find_ahci_controller, first_found, try_device, try_function, pci_read, pci_write, pci_address,
}
use my_dos.Ahci.Port.{
  port_stop, port_start, set_command, await_bit, port_read, port_write, port_wait, wait_rounds,
}
use my_dos.Ahci.Fis.{device_lba, device_count, command_fis-names}
use my_dos.Ahci.Disks.{Found, ahci_init-Found}
use my_dos.Ahci.Interface.{with_disks, ahci_calls, disk_read-no_sector}

-- A controller with one disk of a hundred sectors at the port 3. The world is the address that was put
-- out last, and the command of the port.
abbrev registers : ℕ → ℕ → ℕ
registers offset command =
    if offset == 0x0C
    then 8
    else if offset % 0x80 == 0x18
    then if bit_and command 0x10 == 0 then 0 else 0x4000
    else if offset % 0x80 == 0x28
    then 0x103
    else if offset % 0x80 == 0x24
    then 0x101
    else 0

abbrev configuration : ℕ → ℕ
configuration address =
    if address == 0x80000008 then 0x01060100 else if address == 0x80000024 then 0xFEB00000 else 0

abbrev one_port : Machine
one_port = record {
  World = ℕ × ℕ;
  inl = λ port w. (configuration w.0, w);
  outl = λ port value w. (value, w.1);
  io_wait = λ w. w;
  hba_read = λ hba offset w. (registers offset w.1, w);
  hba_write = λ hba offset value w. (w.0, if offset % 0x80 == 0x18 then value else w.1);
  header = λ port w. record { options = 0; transferred = 512; table_low = 0; table_high = 0 };
  put_header = λ port header w. w;
  put_table = λ port table w. w;
  transfer_buffer = λ w. replicate 120 0 ++ 100 ∷ replicate 391 0;
  put_buffer = λ bytes w. w;
  list_address = λ port. 0;
  fis_address = λ port. 0;
  table_address = λ port. 0;
  buffer_address = 0;
}

-- One disk of a hundred sectors at the port 3, without the flush command.
abbrev one_disk : Disks
one_disk = record {
  hba = 0xFEB00000;
  disk_ports = λ i. 3;
  disk_sectors = λ i. 100;
  disk_flush_supported = λ i. false;
  disk_total = 1;
}

command_fis-names_example :
    (let fis = command_fis (transfer_command 0x12345678 true) 0x12345678 1 in
      (device_lba fis ≡ 0x12345678)
      × (device_count fis ≡ 1)
      × (get_or fis 2 0 ≡ transfer_command 0x12345678 true)
      × (length fis ≡ 64))
command_fis-names_example = command_fis-names 0x12345678 true (omega arith)

ahci_init-Found_example : Found 32 (ahci_init one_port (one_disk, (0, 0))).0
ahci_init-Found_example = ahci_init-Found one_port one_disk (0, 0)

abbrev bytes_in : ℕ → ℕ × ℕ → ℕ × (ℕ × ℕ)
bytes_in port w = (0, w)

abbrev bytes_out : ℕ → ℕ → ℕ × ℕ → ℕ × ℕ
bytes_out port value w = w

disk_read-no_sector_example :
    disk_read
      (with_disks one_port bytes_in bytes_in bytes_out bytes_out)
      (ahci_calls one_port bytes_in bytes_in bytes_out bytes_out)
      4
      100
      1
      at_boot
      (one_disk, (7, 0))
    ≡ (res_notrdy, [], (one_disk, (7, 0)))
disk_read-no_sector_example =
    disk_read-no_sector one_port bytes_in bytes_in bytes_out bytes_out 0 100 1 at_boot one_disk
      (7, 0) (omega arith) (omega arith) (unfold ahci_sector_count in omega arith)

-- The disk is found, with its hundred sectors.
one_disk_run :
    (let d = (ahci_init one_port (one_disk, (0, 0))).0 in
      (d.disk_total ≡ 1) × (d.disk_ports 0 ≡ 3) × (d.disk_sectors 0 ≡ 100))
unfolding ahci_init find_ahci_controller first_found try_device try_function pci_read pci_write
    pci_address try_ports try_port is_disk identify_port set_up_port port_stop port_start
    set_command await_bit port_read port_write port_wait wait_rounds issue_command await_end
    add_disk identify_sectors
one_disk_run = (refl, refl, refl)
