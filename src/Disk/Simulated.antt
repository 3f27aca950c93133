-- ===== src/Disk/Simulated.antt =====
-- A machine with one drive, for the examples on src/fs/fatfs/source/diskio.c. It shows that the
-- promises of Disk/Drive.antt can be kept: the drive is busy for two reads of its status after a
-- command and after the last word of a sector, does nothing else while it is busy, and has one bad
-- sector, the last.
use my_dos.Base.{
  ℕ, ◌+◌, ◌*◌, ◌%◌, ◌^◌, refl, arith, Bool, true, false, List, [], ◌∷◌, length, Option, some, none,
  tabulate, get_or, ltb, ◌++◌, ◌==◌, if◌then◌else◌, suc, inl,
}
use my_dos.Disk.Ports.{Ports}
use my_dos.Disk.Device.{Device, unknown_device}
use my_dos.Disk.Identify.{IsValid}

-- How often the status will still say busy.
pub data Delay : Type 0 where
  over : Delay
  once : Delay
  twice : Delay

abbrev pub times : Delay → ℕ
times over = 0
times once = 1
times twice = 2

abbrev pub tick : Delay → Delay
tick over = over
tick once = over
tick twice = once

-- The words of the sectors, the words that wait to be read, the sector that is being written, the
-- time until the drive is ready, and whether the command failed.
pub record Machine : Type 0 where
  pub registers : ℕ → ℕ
  pub contents : ℕ → ℕ → ℕ
  pub buffer : List ℕ
  pub target : Option (ℕ × List ℕ)
  pub delay : Delay
  pub failed : Bool

abbrev pub address : (ℕ → ℕ) → ℕ
address r = r 6 % 16 * 2 ^ 24 + r 5 * 2 ^ 16 + r 4 * 2 ^ 8 + r 3

abbrev drq_of : List ℕ → Option (ℕ × List ℕ) → ℕ
drq_of [] none = 0x40
drq_of [] (some t) = 0x48
drq_of (x ∷ xs) t = 0x48

abbrev pub status_of : Delay → Bool → List ℕ → Option (ℕ × List ℕ) → ℕ
status_of over false b t = drq_of b t
status_of over true b t = 0x41
status_of once f b t = 0x80
status_of twice f b t = 0x80

abbrev in_byte : ℕ → Machine → ℕ × Machine
in_byte port w = (
  if port == 0x1F7 then status_of w.delay w.failed w.buffer w.target else 0,
  record w { delay = if port == 0x1F7 then tick w.delay else w.delay },
)

-- What an access does once the drive is ready; before, it does nothing.
abbrev pub when_ready : {A : Type 0} → Delay → A → A → A
when_ready over now before = now
when_ready once now before = before
when_ready twice now before = before

abbrev pub take_word : List ℕ → Machine → ℕ × Machine
take_word [] w = (0, w)
take_word (x ∷ []) w = (x, record w { buffer = []; delay = twice })
take_word (x ∷ y ∷ ys) w = (x, record w { buffer = y ∷ ys })

abbrev pub begin_read : ℕ → Bool → Machine → Machine
begin_read n true w = record w { delay = twice; failed = true }
begin_read n false w = record w {
  delay = twice;
  failed = false;
  buffer = tabulate 256 (w.contents n);
}

abbrev begin_write : ℕ → Machine → Machine
begin_write n w = record w { delay = once; failed = false; target = some (n, []) }

abbrev pub out_byte : ℕ → ℕ → Machine → Machine
out_byte port v w =
    if port == 0x1F7
    then if v == 0x20
      then begin_read (address w.registers) (address w.registers == 999) w
      else if v == 0x30
      then begin_write (address w.registers) w
      else w
    else record w { registers = λ k. if port == 0x1F0 + k then v else w.registers k }

-- The last word of a sector completes it.
abbrev pub complete : ℕ → List ℕ → Bool → Machine → Machine
complete sector words true w = record w { target = none; delay = twice; failed = true }
complete sector words false w = record w {
  target = none;
  delay = twice;
  failed = false;
  contents = λ n i. if n == sector then get_or words i 0 else w.contents n i;
}

-- A word for the sector that is being written, if there is one.
abbrev pub put_word : ℕ → Option (ℕ × List ℕ) → Machine → Machine
put_word v none w = w
put_word v (some (sector, words)) w =
    if ltb (suc (length words)) 256
    then record w { target = some (sector, words ++ v ∷ []) }
    else complete sector (words ++ v ∷ []) (sector == 999) w

abbrev pub machine : Ports
machine = record {
  World = Machine;
  inb = in_byte;
  inw = λ port w. when_ready w.delay (take_word w.buffer w) (0, w);
  outb = λ port v w. when_ready w.delay (out_byte port v w) w;
  outw = λ port v w. when_ready w.delay (put_word v w.target w) w;
}

abbrev pub modern_drive : Device
modern_drive = record (unknown_device 0x1F0 0x3F6 0) {
  lba_supported = true;
  status = 0;
  sector_count = 1000;
}

pub modern_drive-IsValid : IsValid modern_drive
modern_drive-IsValid = record {
  known = inl refl;
  some_sectors = λ _. omega arith;
  lba_reach = λ _ _. omega arith;
  chs_reach = λ _ h. cc h;
}
