-- ===== src/Shell/Help.antt =====
-- The help pages of src/kernel/kernel.c.
use my_dos.Base.{ℕ, List, [], ◌∷◌, String, ◌==◌, if◌then◌else◌}
use my_dos.Kernel.{blue, green, red, light_grey, light_green, light_cyan, yellow, white}
use my_dos.CString.{equals, head_or_zero}
use my_dos.Console.{Console, write, write_text, scrl}

-- A row of text and its colour.
abbrev pub Row : Type 0
Row = String × ℕ

-- print(text, color, 0, cursor_y);
abbrev pub say : String → ℕ → Console → Console
say text color = write_text text color 0

-- The rows one below the other, with the cursor left on the last of them.
abbrev pub say_rows : List Row → Console → Console
say_rows [] c = c
say_rows ((text, color) ∷ []) c = say text color c
say_rows ((text, color) ∷ rows) c = say_rows rows (scrl (say text color c))

unfoldable pub help_row : String → ℕ → Console → Console
help_row text color c = scrl (write_text text color 2 c)

abbrev pub help_rows : List Row → Console → Console
help_rows [] c = c
help_rows ((text, color) ∷ rows) c = help_rows rows (help_row text color c)

unfoldable pub help_command_header : List ℕ → Console → Console
help_command_header command c =
    let c1 = help_row "============================================================" blue c in
    let c2 = help_row "                   MYDOS / COMMAND MANUAL" green c1 in
    let c3 = help_row "------------------------------------------------------------" blue c2 in
    let c4 = write_text "  COMMAND  " light_cyan 2 c3 in
    let c5 = scrl (write command yellow 13 c4) in
    help_row "------------------------------------------------------------" blue c5

abbrev pub command_table : List Row
command_table =
    ("+--------------------------------------------------------------------------+", blue)
    ∷ ("|                           MYDOS COMMAND CENTRE                           |", green)
    ∷ ("+--------------------------------------------------------------------------+", blue)
    ∷ ("| Want to know what a command does? Just type help <cmd>!                  |", white)
    ∷ ("|                                                                          |", white)
    ∷ ("| [ SHELL ]                                                                |", yellow)
    ∷ ("|   help            clear           echo           change-theme            |", light_grey)
    ∷ ("|   loadkeys        date           uptime          fetch                   |", light_grey)
    ∷ ("|   shlogo          beep                                                   |", light_grey)
    ∷ ("|                                                                          |", white)
    ∷ ("| [ SYSTEM AND DEBUGGING ]                                                 |", light_cyan)
    ∷ ("|   rbt             shtdwn           fault                                 |", light_grey)
    ∷ ("|                                                                          |", white)
    ∷ ("| [ FILESYSTEM ]                                                           |", light_green)
    ∷ ("|   mkdir           mkfile          ls             lsdrv                   |", light_grey)
    ∷ ("|   rm              cd              myeditor       pwd                     |", light_grey)
    ∷ ("|   cat                                                                    |", light_grey)
    ∷ ("|                                                                          |", white)
    ∷ ("| TIP: Try typing 'help echo'                                              |", yellow)
    ∷ ("+--------------------------------------------------------------------------+", blue)
    ∷ []

-- The page of a command, up to the `scrl` that follows all of them.
unfoldable pub help_topic : List ℕ → Console → Console
help_topic args c =
    if equals args "date"
    then say_rows
        (("Usage: date [-t|--time] [-d|--date] [-12|--12h]", white)
          ∷ ("Display RTC date and time.", light_grey)
          ∷ ("The flag '-t' or '--time' displays only the time.", light_grey)
          ∷ ("The flag '-d' or '--date' displays only the date.", light_grey)
          ∷ ("The flag '-12' or '--12h' displays the time in 12-hour AM/PM format.", light_grey)
          ∷ [])
        c
    else if equals args "echo"
    then say_rows
        (("Usage: echo [-c <color>|--color <color>] <text>", white)
          ∷ ("Colors: blue, green, cyan, red, magenta, brown, light_grey, ", light_grey)
          ∷ (
            "dark_grey, light_blue, light_green, light_cyan, light_red, light_magenta,", light_grey,
          )
          ∷ ("yellow, white", light_grey)
          ∷ (
            "Print text in a specified color. If no color is specified, white is used.", light_grey,
          )
          ∷ [])
        c
    else if equals args "uptime"
    then say_rows
        (("Usage: uptime [-p|--pretty] [-s|--seconds]", white)
          ∷ ("Shows elapsed time since boot.", light_grey)
          ∷ (
            "The flag '-p' or '--pretty' shows the elapsed time in a more human-readable format.",
            light_grey,
          )
          ∷ ("The flag '-s' or '--seconds' shows the elapsed time in seconds.", light_grey)
          ∷ [])
        c
    else if equals args "clear"
    then say_rows
        (("Usage: clear [-dl|--draw-logo]", white)
          ∷ ("Clear screen and reset cursor.", light_grey)
          ∷ ("The flag mentioned above clears the screen and redraws the logo.", light_grey)
          ∷ [])
        c
    else if equals args "shlogo"
    then say_rows (("Usage: shlogo", white) ∷ ("Display the MyDOS logo.", light_grey) ∷ []) c
    else if equals args "rbt"
    then say_rows
        (("Usage: rbt", white) ∷ ("Reboot computer via keyboard controller.", light_grey) ∷ []) c
    else if equals args "shtdwn"
    then say_rows
        (("Usage: shtdwn", white)
          ∷ ("Halts the CPU. Hold the power button to shut down your machine.", light_grey)
          ∷ [])
        c
    else if equals args "fault"
    then say_rows
        (("Usage: fault <zero|ud>", white)
          ∷ ("Executes real CPU faulting instructions (Divide-by-zero or UD2).", light_grey)
          ∷ [])
        c
    else if equals args "beep"
    then say_rows
        (("Usage: beep", white)
          ∷ ("Play a short tone through the legacy PC speaker.", light_grey)
          ∷ [])
        c
    else if equals args "help"
    then say_rows
        (("Usage: help [optional: command]", white)
          ∷ ("Show help for all commands or a specific command.", light_grey)
          ∷ [])
        c
    else if equals args "change-theme"
    then say_rows
        (("Usage: change-theme <default|matrix|ocean|sunset>", white)
          ∷ ("Changes the color theme.", light_grey)
          ∷ [])
        c
    else if equals args "loadkeys"
    then say_rows
        (("Usage: loadkeys <us|de|fr|status>", white)
          ∷ ("Loads a built-in keyboard layout or reports the active layout.", light_grey)
          ∷ [])
        c
    else if equals args "fetch"
    then say_rows
        (("Usage: fetch", white)
          ∷ ("Displays system information and uptime beside the MyDOS logo.", light_grey)
          ∷ [])
        c
    else if equals args "mkfile"
    then say_rows
        (("Usage: mkfile [FILENAME.EXTENSION]", white)
          ∷ ("Creates a file with the name you chose in the current working directory.", light_grey)
          ∷ [])
        c
    else if equals args "ls"
    then say_rows
        (("Usage: ls", white) ∷ ("Lists files in the current directory.", light_grey) ∷ []) c
    else if equals args "lsdrv"
    then say_rows (("Usage: lsdrv", white) ∷ ("Lists available storage drives.", light_grey) ∷ []) c
    else if equals args "mkdir"
    then say_rows
        (("Usage: mkdir [DIRNAME]", white)
          ∷ (
            "Creates a folder with the name you chose in the current working directory.",
            light_grey,
          )
          ∷ [])
        c
    else if equals args "rm"
    then say_rows
        (("Usage: rm [/PATH/TO/FILE] / [-r /PATH/TO/DIRECTORY]", white)
          ∷ ("Deletes a file or directory. Please note that this is permanent!", light_grey)
          ∷ [])
        c
    else if equals args "cd"
    then say_rows
        (("Usage: cd /PATH/TO/DIRECTORY", white)
          ∷ ("Changes the current working directory to your specified one.", light_grey)
          ∷ [])
        c
    else if equals args "cat"
    then scrl (
        say_rows
          (("Usage: cat <filename>", white) ∷ ("Displays the contents of a file.", light_grey) ∷ [])
          c)
    else if equals args "pwd"
    then say_rows
        (("Usage: pwd", white) ∷ ("Prints the current working directory.", light_grey) ∷ []) c
    else if equals args "myeditor"
    then say_rows
        (("Usage: myeditor", white)
          ∷ ("Opens the built-in MyEditor program.", light_grey)
          ∷ ("F1 saves, F2 opens a file, and F3 exits the editor.", light_grey)
          ∷ [])
        c
    else say "help: unknown command, please try again" red c

unfoldable pub help : List ℕ → Console → Console
help args c =
    if head_or_zero args == 0
    then scrl (help_rows command_table c)
    else scrl (help_topic args (help_command_header args c))
