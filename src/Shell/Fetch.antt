-- ===== src/Shell/Fetch.antt =====
-- `fetch` of src/kernel/kernel.c: the logo with a table of the system beside it.
use my_dos.Base.{ℕ, zero, suc, ◌+◌, ◌-◌, List, [], ◌∷◌, String, codes, ltb, if◌then◌else◌}
use my_dos.Kernel.{
  vga_height, blue, brown, cyan, dark_grey, green, light_blue, light_cyan, light_green, light_grey,
  light_magenta, light_red, magenta, red, white, yellow,
}
use my_dos.CString.{strlen}
use my_dos.Vga.{print, scroll_screen}
use my_dos.Vga.Logo.{print_logo_at}
use my_dos.Console.{Console, scrl}

abbrev pub kernel_version : String
kernel_version = "v0.3.1-ex"

abbrev pub shell_version : String
shell_version = "v0.3-stable"

-- Two full blocks.
abbrev pub block : List ℕ
block = 0xDB ∷ 0xDB ∷ []

-- A text, its colour, its column, and its row below the cursor's.
abbrev pub Item : Type 0
Item = List ℕ × ℕ × ℕ × ℕ

-- print(text, color, x, cursor_y + dy), one after the other.
unfoldable pub put_items : List Item → Console → Console
put_items [] c = c
put_items ((text, color, x, dy) ∷ items) c =
    put_items items (record c { words = print text color x (c.cursor_y + dy) c.theme c.words })

-- while (cursor_y + 13 > VGA_HEIGHT) { ... }: each round takes the cursor up by one, so the row of
-- the cursor is fuel enough.
unfoldable pub make_room : ℕ → Console → Console
make_room zero c = c
make_room (suc n) c =
    let rest = make_room n (record c {
      words = (scroll_screen vga_height c.theme c.words).1;
      cursor_y = c.cursor_y - 1;
    }) in
    if ltb vga_height (c.cursor_y + 13) then rest else c

abbrev pub table_items : List ℕ → List ℕ → List ℕ → List Item
table_items vendor ram uptime =
    (codes "+--KEYS---------+--VALUES----------+", blue, 40, 0)
    ∷ (codes "| User          | root             |", red, 40, 1)
    ∷ (codes "| Host          | MyDOS            |", green, 40, 2)
    ∷ (codes "| Kernel        | ", blue, 40, 3)
    ∷ (codes kernel_version, white, 58, 3)
    ∷ (codes "|", blue, 75, 3)
    ∷ (codes "| Shell         | ", yellow, 40, 4)
    ∷ (codes shell_version, white, 58, 4)
    ∷ (codes "|", yellow, 75, 4)
    ∷ (codes "| Uptime        | ", light_magenta, 40, 5)
    ∷ (uptime, white, 58, 5)
    ∷ (codes "|", light_magenta, 75, 5)
    ∷ (codes "| Processor     | ", magenta, 40, 6)
    ∷ (vendor, white, 58, 6)
    ∷ (codes "|", magenta, 75, 6)
    ∷ (codes "| Total RAM     | ", light_blue, 40, 7)
    ∷ (ram, white, 58, 7)
    ∷ (codes " MB", white, 58 + strlen ram, 7)
    ∷ (codes "|", light_blue, 75, 7)
    ∷ (codes "+----------------+-----------------+", blue, 40, 8)
    ∷ []

abbrev pub color_items : List Item
color_items =
    (codes "+-COLORS---------+", blue, 40, 9)
    ∷ (codes "| ", blue, 40, 10)
    ∷ (block, blue, 42, 10)
    ∷ (block, green, 44, 10)
    ∷ (block, cyan, 46, 10)
    ∷ (block, red, 48, 10)
    ∷ (block, magenta, 50, 10)
    ∷ (block, brown, 52, 10)
    ∷ (block, light_grey, 54, 10)
    ∷ (codes "|", blue, 57, 10)
    ∷ (codes "| ", blue, 40, 11)
    ∷ (block, dark_grey, 42, 11)
    ∷ (block, light_blue, 44, 11)
    ∷ (block, light_green, 46, 11)
    ∷ (block, light_cyan, 48, 11)
    ∷ (block, light_red, 50, 11)
    ∷ (block, light_magenta, 52, 11)
    ∷ (block, yellow, 54, 11)
    ∷ (codes "|", blue, 57, 11)
    ∷ (codes "+----------------+", blue, 40, 12)
    ∷ []

unfoldable pub fetch : List ℕ → List ℕ → List ℕ → Console → Console
fetch vendor ram uptime c =
    let c1 = make_room c.cursor_y c in
    let c2 = record c1 { words = print_logo_at 0 c1.cursor_y c1.theme c1.words } in
    let c3 = put_items color_items (put_items (table_items vendor ram uptime) c2) in
    scrl (record c3 { cursor_y = c3.cursor_y + 12 })
