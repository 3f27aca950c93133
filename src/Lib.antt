-- ===== src/Lib.antt =====
-- MyDOS, a 32-bit hobby operating system in C: a model of its text editor, its drivers for the
-- keyboard, the text screen, the clock and the disk, and of the string functions below them.
--
-- How the parts meet. The kernel's entry point starts the file system and draws the first screen, and
-- then runs the shell: a loop over the bytes that the keyboard driver makes of scancodes. A line that
-- is entered becomes a command, which writes to the screen, reads the clock, sounds the speaker, asks
-- FatFs (a library of another project) through the file-system helpers, or hands the keys over to the
-- editor. FatFs reads and writes sectors through the disk driver, which passes the calls for its last
-- four drives to the AHCI driver. An exception leads through the descriptor tables to the panic
-- screen. All parts use the string functions.
--
-- The files and the code:
--   Base         lists, loops and tests over the native numbers; 32-bit results are written `% 2 ^ 32`
--   Kernel       the constants of src/kernel/kernel.h
--   CString      src/lib/string.c (strlen to itohex) and append_uint and append_padded of
--                src/kernel/helper/helpers.c. A string is the list of bytes at its address, and the
--                functions on memory return `none` where they would leave their block.
--   Keyboard     src/kernel/drivers/keyboard.c: the record Keyboard holds the static variables,
--                load_layout is keyboard_load_layout, and getchar is keyboard_getchar for a scancode
--                that is there. Keyboard/Layouts and Keyboard/Keys hold the theorems.
--   Vga          src/kernel/drivers/vga.c: the theme, print, scroll_screen, clear_screen,
--                draw_logo_pattern and move_cursor, over the words of the screen as a function.
--   Console      the screen, the theme and the row of the cursor together, and scrl of
--                src/kernel/kernel.c.
--   Rtc          src/kernel/drivers/rtc.c, rtcts of helpers.c, and elapsed_uptime_seconds and
--                format_short_uptime of src/kernel/kernel.c.
--   Disk         src/fs/fatfs/source/diskio.c: Disk/Ata the ATA drives, Disk/Calls the calls that
--                FatFs makes. The ports and the AHCI driver are parameters; Disk/Drive states what a
--                drive promises while it is not busy, and Disk/Simulated is a machine that keeps the
--                promises, as Disk/Kept shows; Reading, Writing and RoundTrip follow the transfers.
--   Ahci         src/kernel/drivers/ahci.c: Machine the ports, the controller's registers and the
--                memory that both share, as a parameter, Pci the search for the controller, Port and
--                Command the registers and the commands of a port, Driver the operations. Interface
--                fills the interface of Disk with them.
--   FatFs        the calls of FatFs as a parameter (FatFs), what its documentation promises of files
--                (FatFs/Laws), and a disk in memory that keeps those promises (FatFs/Memory).
--   FsHelpers    src/kernel/helper/fshelpers/fshelpers.c: fs_init, fs_format, make_file and join_path
--                in FsHelpers, cat_file in Showing, the lists of files and drives in Listing,
--                and removing in Removing; Rows describes how a text is shown, and Removal which
--                calls remove a tree (RemovalFuel with how much fuel). `disk_initialize` is a
--                parameter, as it acts on the volume's machine.
--   Editor       src/programs/myeditor/myeditor.c: Document the arrays and their operations, Loader
--                the scanner of load_document, Session the keys, Storage saving and loading,
--                Prompts the dialogues, Loop the loop of myeditor. The document is related to the
--                list of its lines in Lines, Breaks and Joins, the scanner to an unbounded reading
--                in Scanning and Load, and the text of a file to the lines in SavedText, RoundTrip, Saving and
--                Opening; SafeLoading, SafePrompts and Safety follow the invariant of Invariant
--                through a session. Screen draws the frame, the document and the status line, as
--                Drawing shows for the document; Visible and Ending follow sessions of editing keys.
--   Speaker      src/kernel/drivers/pc_speaker.c.
--   Panic        src/kernel/panic.c: the panic screen, as what becomes of the words of the screen.
--   Descriptors  src/kernel/gdt/gdt.c and src/kernel/interrupts/idt.c: the tables as functions of
--                the index, and isr_handler.
--   Hardware     src/lib/hardware.c and src/lib/shtdwn.c; the registers of CPUID and the memory that
--                the boot loader left are parameters.
--   Shell        src/kernel/kernel.c: State the variables of KernelEntryPoint and what the shell
--                stands on (Platform), Help, Fetch, Times, Echo and Files the commands, Commands the
--                choice among them, Loop the loop over the keys, Start what comes before it, Visiting
--                the way into the editor and back. A key
--                carries the registers of the clock at that moment. The way a round ends is the type
--                Outcome: with a state, in the editor, or with the last screen of a halted machine.
--
-- Bounds and fuel. push_digits runs on the value, which each division makes smaller. The loops of
-- ata_wait, of the AHCI ports and of the speaker have the number of rounds that the code gives them,
-- and an ATA drive is assumed to be busy for fewer reads of its status at a time. The loop of the shell
-- and a session of the editor are given a round for each key, as each round of theirs in the code
-- reads at least one. The loops that read a file run on fuel, and more
-- fuel than the file has bytes is enough; the loop over the boot loader's map of the memory does too,
-- and more fuel than the map has entries is enough. The loops over directories run on the fuel of
-- the platform, since a directory is what FatFs answers, and their running out of it is a result of
-- its own (`none`, and out_of_fuel of the shell).
--
-- Not modelled: FatFs itself; the echo of a prompt's characters in the editor; assembly, with the
-- loading of the tables, the stubs of the interrupts and the halting of the processor; what an AHCI
-- controller does with a command.
pub mod Base
pub mod Kernel
pub mod CString
pub mod Keyboard
pub mod Vga
pub mod Console
pub mod Rtc
pub mod Disk
pub mod Ahci
pub mod FatFs
pub mod FsHelpers
pub mod Editor
pub mod Speaker
pub mod Panic
pub mod Descriptors
pub mod Hardware
pub mod Shell
