-- ===== src/Shell/OnScreen.antt =====
-- The other commands of src/kernel/kernel.c leave the cursor in a row of the screen.
use my_dos.Base.{ℕ, arith, Bool, true, false, List, Option, none, some, if◌then◌else◌}
use my_dos.Kernel.{white}
use my_dos.Console.{Console, OnScreen, scrl-OnScreen, at-OnScreen, OnScreen-if}
use my_dos.Rtc.{Registers}
use my_dos.Keyboard.{Keyboard}
use my_dos.Shell.Help.{help}
use my_dos.Shell.Fetch.{fetch}
use my_dos.Shell.Times.{date, uptime}
use my_dos.Shell.Echo.{echo, echo_colored, say_text, color_argument}
use my_dos.Shell.Commands.{show_logo, clear_command, change_theme_command, loadkeys, shlogo}

pub help-OnScreen : (args : List ℕ) (c : Console) → OnScreen (help args c)
unfolding help
help-OnScreen args c = search (OnScreen-if, scrl-OnScreen)

pub clear_command-OnScreen : (args : List ℕ) (c : Console) → OnScreen (clear_command args c)
unfolding clear_command
clear_command-OnScreen args c = ground (arith)

show_logo-OnScreen : (c : Console) → OnScreen (show_logo c)
show_logo-OnScreen c = at-OnScreen (show_logo c) (omega arith)

pub change_theme_command-OnScreen :
    (args : List ℕ) (c : Console) → OnScreen (change_theme_command args c)
unfolding change_theme_command
change_theme_command-OnScreen args c = search (OnScreen-if, scrl-OnScreen, show_logo-OnScreen)

pub shlogo-OnScreen : (c : Console) → OnScreen (shlogo c)
unfolding shlogo
shlogo-OnScreen c = scrl-OnScreen _

pub fetch-OnScreen : (vendor ram up : List ℕ) (c : Console) → OnScreen (fetch vendor ram up c)
unfolding fetch
fetch-OnScreen vendor ram up c = scrl-OnScreen _

pub date-OnScreen : (r : Registers) (args : List ℕ) (c : Console) → OnScreen (date r args c)
unfolding date
date-OnScreen r args c = search (OnScreen-if, scrl-OnScreen)

pub uptime-OnScreen : (n : ℕ) (args : List ℕ) (c : Console) → OnScreen (uptime n args c)
unfolding uptime
uptime-OnScreen n args c = scrl-OnScreen _

say_text-OnScreen : (s : List ℕ) (color : ℕ) (c : Console) → OnScreen (say_text s color c)
unfolding say_text
say_text-OnScreen s color c = search (OnScreen-if, scrl-OnScreen)

echo_colored-OnScreen : (arg : List ℕ) (c : Console) → OnScreen (echo_colored arg c)
unfolding echo_colored
echo_colored-OnScreen arg c = search (OnScreen-if, say_text-OnScreen)

pub echo-OnScreen : (args : List ℕ) (c : Console) → OnScreen (echo args c)
unfolding echo
echo-OnScreen args c = OnScreen-if _ _ _ (scrl-OnScreen _) (choice (color_argument args))
  where
    choice :
        (arg : Option (List ℕ))
        → OnScreen (elim arg [ none ↦ say_text args white c | some a ↦ echo_colored a c ])
    choice none = say_text-OnScreen args white c
    choice (some a) = echo_colored-OnScreen a c

-- The console is a part of what is returned.
second-if {ℓ} :
    {A : Type ℓ} (b : Bool) (x y : A × Console)
    → OnScreen x.1
    → OnScreen y.1
    → OnScreen (if b then x else y).1
second-if true x y h k = h
second-if false x y h k = k

pub loadkeys-OnScreen :
    (args : List ℕ) (kb : Keyboard) (c : Console) → OnScreen (loadkeys args kb c).1
unfolding loadkeys
loadkeys-OnScreen args kb c = search (second-if, scrl-OnScreen)
