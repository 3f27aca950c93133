-- ===== src/Speaker/Tests.antt =====
-- The tone of src/kernel/drivers/pc_speaker.c on a port that keeps what is written to it.
use my_dos.Base.{ℕ, ◌≡◌, ◌<◌, refl, arith, bit_and, ◌==◌, if◌then◌else◌, ◌%◌}
use my_dos.Disk.Ports.{Ports}
use my_dos.Speaker.{pc_speaker_port}
use my_dos.Speaker.Gate.{Latch}

-- The world is the port's byte.
abbrev latched : Ports
latched = record {
  World = ℕ;
  inb = λ port w. (w % 256, w);
  inw = λ port w. (0, w);
  outb = λ port value w. if port == pc_speaker_port then value % 256 else w;
  outw = λ port value w. w;
}

-- The byte keeps the two lowest bits of what is written.
low_bits : (value : ℕ) → value < 256 → bit_and (value % 256 % 256) 3 ≡ bit_and value 3
low_bits value h = let e : value % 256 % 256 ≡ value = omega arith in rw e refl

latch : Latch latched
latch = record { is_byte = λ w. omega arith; keeps = λ value w h. low_bits value h }
