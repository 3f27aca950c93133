-- ===== src/Shell/State.antt =====
-- What the shell of src/kernel/kernel.c stands on, and its state.
use my_dos.Base.{ℕ, List}
use my_dos.Kernel.{white, green, red, light_red}
use my_dos.Console.{Console, write_text}
use my_dos.Keyboard.{Keyboard}
use my_dos.FatFs.{FatFs}
use my_dos.Disk.Ports.{Ports}
use my_dos.Hardware.{Ram}

-- FatFs, the calls of src/fs/fatfs/source/diskio.c on its machine, the ports, the three registers
-- that CPUID returns, the memory with the boot loader's tables, and the fuel of the loops over files.
pub record Platform : Type 1 where
  pub fat : FatFs
  pub disk_status : ℕ → fat.Volume → ℕ
  pub disk_initialize : ℕ → fat.Volume → ℕ × fat.Volume
  pub ports : Ports
  pub ebx : ℕ
  pub ecx : ℕ
  pub edx : ℕ
  pub ram : Ram
  pub mbi : ℕ
  pub fuel : ℕ

-- `PROMPT_LENGTH`
abbrev pub prompt_length : ℕ
prompt_length = 16

module _ (p : Platform) where
  -- The local variables of `KernelEntryPoint` and the static ones of the files below it. `cmd` is the
  -- first `cmd_len` bytes of the buffer; `cursor` is what `move_cursor` was told last; the cells are
  -- those that the editor keeps.
  pub record Shell : Type 0 where
    pub console : Console
    pub cursor_x : ℕ
    pub cursor : ℕ × ℕ
    pub cmd : List ℕ
    pub uptime : ℕ
    pub keyboard : Keyboard
    pub cells : ℕ → ℕ → ℕ
    pub volume : p.fat.Volume
    pub world : p.ports.World

-- The prompt in the row of the cursor.
unfoldable pub prompt : Console → Console
prompt c =
    let c1 = write_text "MyDOS" green 0 c in
    let c2 = write_text "[" red 5 c1 in
    let c3 = write_text "root" light_red 6 c2 in
    let c4 = write_text "]" red 10 c3 in
    let c5 = write_text "/" light_red 11 c4 in write_text ":~#" white 12 c5
