-- ===== src/Speaker.antt =====
-- src/kernel/drivers/pc_speaker.c: the timer and the gate of the speaker, over the machine's ports.
pub mod Gate
mod Tests
use my_dos.Base.{ℕ, zero, suc, ◌+◌, ◌/◌, ◌%◌, Bool, not, ltb, ◌==◌, bit_and, bit_or, if◌then◌else◌}
use my_dos.Disk.Ports.{Ports}

abbrev pub pit_channel_2 : ℕ
pit_channel_2 = 0x42

abbrev pub pit_command : ℕ
pit_command = 0x43

abbrev pub pc_speaker_port : ℕ
pc_speaker_port = 0x61

abbrev pub pit_frequency : ℕ
pit_frequency = 1193182

abbrev pub beep_frequency : ℕ
beep_frequency = 1000

abbrev pub beep_transitions : ℕ
beep_transitions = 200

abbrev pub beep_poll_limit : ℕ
beep_poll_limit = 10000000

-- An `unsigned short`.
abbrev pub divisor : ℕ
divisor = pit_frequency / beep_frequency % 65536

module _ (ports : Ports) where
  open ports use {World, inb, outb}

  -- The loop that waits for the transitions, with the number of polls that are left.
  unfoldable pub await_transitions : ℕ → ℕ → ℕ → World → World
  await_transitions zero previous transitions w = w
  await_transitions (suc polls) previous transitions w = elim (ltb transitions beep_transitions) [
    | Bool.false ↦ w
    | Bool.true ↦
        let (value, w') = inb pc_speaker_port w in
        let current = bit_and value 0x20 in
        if not (current == previous)
        then await_transitions polls current (transitions + 1) w'
        else await_transitions polls previous transitions w'
  ]

  -- The command, and the two bytes of the divisor.
  unfoldable pub set_timer : World → World
  set_timer w =
      outb pit_channel_2 (divisor / 256)
        (outb pit_channel_2 (divisor % 256) (outb pit_command 0xB6 w))

  -- The tone is on while the two lowest bits of the port are set.
  unfoldable pub speaker_on : World → World
  speaker_on w =
      let (speaker, w') = inb pc_speaker_port w in outb pc_speaker_port (bit_or speaker 0x03) w'

  unfoldable pub speaker_off : World → World
  speaker_off w =
      let (speaker, w') = inb pc_speaker_port w in outb pc_speaker_port (bit_and speaker 0xFC) w'

  unfoldable pub pc_speaker_beep : World → World
  pc_speaker_beep w =
      let (first, w') = inb pc_speaker_port (speaker_on (set_timer w)) in
      speaker_off (await_transitions beep_poll_limit (bit_and first 0x20) 0 w')
