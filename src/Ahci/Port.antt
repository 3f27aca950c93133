-- ===== src/Ahci/Port.antt =====
-- The ports of the controller in src/kernel/drivers/ahci.c: waiting, stopping and starting.
use my_dos.Base.{
  ℕ, zero, suc, ◌+◌, ◌*◌, Bool, true, false, not, ◌==◌, bit_and, bit_or, if◌then◌else◌,
}
use my_dos.Ahci.Machine.{Machine}

abbrev pub ahci_timeout : ℕ
ahci_timeout = 10000000

abbrev pub port_clb : ℕ
port_clb = 0x00

abbrev pub port_fb : ℕ
port_fb = 0x08

abbrev pub port_is : ℕ
port_is = 0x10

abbrev pub port_cmd : ℕ
port_cmd = 0x18

abbrev pub port_tfd : ℕ
port_tfd = 0x20

abbrev pub port_sig : ℕ
port_sig = 0x24

abbrev pub port_ssts : ℕ
port_ssts = 0x28

abbrev pub port_serr : ℕ
port_serr = 0x30

abbrev pub port_ci : ℕ
port_ci = 0x38

-- The complements, as 32-bit words, of PORT_CMD_ST and PORT_CMD_FRE.
abbrev pub without_st : ℕ
without_st = 0xFFFFFFFE

abbrev pub without_fre : ℕ
without_fre = 0xFFFFFFEF

module _ (m : Machine) (hba : ℕ) where
  open m use {World, io_wait, hba_read, hba_write}

  unfoldable pub port_read : ℕ → ℕ → World → ℕ × World
  port_read port reg = hba_read hba (0x100 + port * 0x80 + reg)

  unfoldable pub port_write : ℕ → ℕ → ℕ → World → World
  port_write port reg value = hba_write hba (0x100 + port * 0x80 + reg) value

  -- The loop of `port_wait`, with the rounds that are left.
  unfoldable pub wait_rounds : ℕ → ℕ → ℕ → ℕ → World → Bool × World
  wait_rounds zero port mask value w = (false, w)
  wait_rounds (suc n) port mask value w =
      let (current, w') = port_read port (if mask == port_ci then port_ci else port_tfd) w in
      elim (mask == port_ci) [
        | true ↦ elim (bit_and current value == 0) [
          | true ↦ (true, w')
          | false ↦ wait_rounds n port mask value (io_wait w')
        ]
        | false ↦ elim (not (bit_and current 0x01 == 0)) [
          | true ↦ (false, w')
          | false ↦ elim (bit_and current mask == value) [
            | true ↦ (true, w')
            | false ↦ wait_rounds n port mask value (io_wait w')
          ]
        ]
      ]

  unfoldable pub port_wait : ℕ → ℕ → ℕ → World → Bool × World
  port_wait = wait_rounds ahci_timeout

  -- The loops that wait until a bit of PORT_CMD is clear, or is set. The last round that finds it
  -- otherwise ends without success.
  unfoldable pub await_bit : Bool → ℕ → ℕ → ℕ → World → Bool × World
  await_bit wanted zero port mask w = (false, w)
  await_bit wanted (suc n) port mask w =
      let (command, w') = port_read port port_cmd w in
      elim (not (bit_and command mask == 0)) [
        | true ↦ elim wanted [ true ↦ (true, w') | false ↦ await_bit wanted n port mask w' ]
        | false ↦ elim wanted [ true ↦ await_bit wanted n port mask w' | false ↦ (true, w') ]
      ]

  -- PORT_CMD_CR is bit 15, and PORT_CMD_FR is bit 14.
  unfoldable pub port_stop : ℕ → World → Bool × World
  port_stop port w =
      let (value, w1) = port_read port port_cmd w in
      let command = bit_and value without_st in
      let (stopped, w2) =
        await_bit false ahci_timeout port 0x8000 (port_write port port_cmd command w1) in
      if stopped
      then await_bit false ahci_timeout port 0x4000
          (port_write port port_cmd (bit_and command without_fre) w2)
      else (false, w2)

  -- port_write(port, PORT_CMD, port_read(port, PORT_CMD) | bit);
  unfoldable pub set_command : ℕ → ℕ → World → World
  set_command port bit w =
      let (command, w') = port_read port port_cmd w in
      port_write port port_cmd (bit_or command bit) w'

  unfoldable pub port_start : ℕ → World → Bool × World
  port_start port w =
      let (idle, w1) = await_bit false ahci_timeout port 0x8000 w in
      let (receiving, w2) = await_bit true ahci_timeout port 0x4000 (set_command port 0x10 w1) in
      if not idle
      then (false, w1)
      else if not receiving
      then (false, w2)
      else (true, set_command port 0x01 w2)
