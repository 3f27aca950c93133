-- ===== src/Shell/Echo.antt =====
-- `echo` of src/kernel/kernel.c, and `parse_color` of src/kernel/helper/helpers.c.
use my_dos.Base.{
  ℕ, ◌||◌, Bool, List, [], ◌∷◌, String, Option, none, some, codes, drop, ◌==◌, if◌then◌else◌,
}
use my_dos.Base.Int.{ℤ, pos}
use my_dos.Kernel.{
  black, blue, green, cyan, red, magenta, brown, light_grey, dark_grey, light_blue, light_green,
  light_cyan, light_red, light_magenta, yellow, white,
}
use my_dos.CString.{equals, strncmp, head_or_zero}
use my_dos.Console.{Console, write, write_text, scrl}

unfoldable pub parse_color : List ℕ → ℕ
parse_color name =
    if equals name "black"
    then black
    else if equals name "red"
    then red
    else if equals name "green"
    then green
    else if equals name "blue"
    then blue
    else if equals name "cyan"
    then cyan
    else if equals name "magenta"
    then magenta
    else if equals name "brown"
    then brown
    else if equals name "light_grey"
    then light_grey
    else if equals name "dark_grey"
    then dark_grey
    else if equals name "light_blue"
    then light_blue
    else if equals name "light_green"
    then light_green
    else if equals name "light_cyan"
    then light_cyan
    else if equals name "light_red"
    then light_red
    else if equals name "light_magenta"
    then light_magenta
    else if equals name "yellow"
    then yellow
    else if equals name "white"
    then white
    else 0xFF

-- The loops that split a text at its first space: what stands before it, and what stands behind it.
unfoldable pub split_space : List ℕ → List ℕ × List ℕ
split_space [] = ([], [])
split_space (c ∷ s) =
    let rest = split_space s in
    if c == 0 then ([], []) else if c == b' ' then ([], s) else (c ∷ rest.0, rest.1)

-- strncmp(s, prefix, n) == 0
unfoldable pub starts : List ℕ → String → ℕ → Bool
starts s prefix n = elim (strncmp s (codes prefix) n) [ pos k ↦ k == 0 | ℤ.negsuc k ↦ Bool.false ]

-- The pointer `color_arg`; `none` is a null pointer.
unfoldable pub color_argument : List ℕ → Option (List ℕ)
color_argument args =
    if starts args "-c " 3 || starts args "-c:" 3
    then some (drop 3 args)
    else if starts args "--color " 8 || starts args "--color:" 8
    then some (drop 8 args)
    else none

unfoldable pub say_text : List ℕ → ℕ → Console → Console
say_text s color c =
    if head_or_zero s == 0
    then scrl (write_text "trml: echo: echo requires text" red 0 c)
    else scrl (write s color 0 c)

-- The colour's name is split off; an unknown one is reported and replaced.
unfoldable pub echo_colored : List ℕ → Console → Console
echo_colored arg c =
    let (name, s) = split_space arg in
    let color = parse_color name in
    if color == 0xFF
    then say_text s white (
        scrl (
          write_text "echo: unknown color, defaulting to default color. run 'help echo' for list"
            red 0 c))
    else say_text s color c

unfoldable pub echo : List ℕ → Console → Console
echo args c =
    if head_or_zero args == 0
    then scrl (write_text "echo: echo requires some text" red 0 c)
    else elim (color_argument args) [ none ↦ say_text args white c | some arg ↦ echo_colored arg c ]
