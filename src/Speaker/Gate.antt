-- ===== src/Speaker/Gate.antt =====
-- The gate that src/kernel/drivers/pc_speaker.c leaves.
use my_dos.Base.{ℕ, ◌<◌, ◌≡◌, refl, ◌∙◌, ==→eq, ltb→lt, ltb, passes_below_lem, bit_and, ◌==◌}
unfoldable use my_dos.Base.{passes_below}
use my_dos.Disk.Ports.{Ports}
use my_dos.Speaker.{pc_speaker_port, speaker_off, pc_speaker_beep}

module _ (ports : Ports) where
  open ports use {World, inb, outb}

  -- What the controller promises of the port: it is a byte, of which the two lowest bits are those
  -- that were written last.
  pub record Latch : Type 0 where
    pub is_byte : (w : World) → (inb pc_speaker_port w).0 < 256
    pub keeps :
        (value : ℕ) (w : World)
        → value < 256
        → bit_and (inb pc_speaker_port (outb pc_speaker_port value w)).0 3 ≡ bit_and value 3

  gate_mask : (value : ℕ) → value < 256 → bit_and (bit_and value 0xFC) 3 ≡ 0
  unfolding passes_below
  gate_mask value h =
      ==→eq _ 0 (passes_below_lem 256 (λ v. bit_and (bit_and v 0xFC) 3 == 0) value refl h)

  masked-byte : (value : ℕ) → value < 256 → bit_and value 0xFC < 256
  unfolding passes_below
  masked-byte value h =
      ltb→lt _ 256 (passes_below_lem 256 (λ v. ltb (bit_and v 0xFC) 256) value refl h)

  speaker_off-silent :
      (latch : Latch) (w : World) → bit_and (inb pc_speaker_port (speaker_off ports w)).0 3 ≡ 0
  unfolding speaker_off
  speaker_off-silent latch w =
      latch.keeps _ _ (masked-byte (inb pc_speaker_port w).0 (latch.is_byte w))
      ∙ gate_mask (inb pc_speaker_port w).0 (latch.is_byte w)

  -- Whatever the port answered meanwhile, after the tone both bits of the speaker's gate are off.
  pub pc_speaker_beep-silent :
      (latch : Latch) (w : World) → bit_and (inb pc_speaker_port (pc_speaker_beep ports w)).0 3 ≡ 0
  unfolding pc_speaker_beep
  pc_speaker_beep-silent latch w = speaker_off-silent latch _
