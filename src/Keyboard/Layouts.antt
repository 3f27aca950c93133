-- ===== src/Keyboard/Layouts.antt =====
-- The choice of a layout: `keyboard_load_layout` and `apply_layout` of src/kernel/drivers/keyboard.c.
use my_dos.Base.{
  ℕ, ◌≡◌, ◌≢◌, inl, inr, refl, arith, Bool, true, false, List, String, codes, Bool-cases,
}
use my_dos.CString.{equals, strcmp}
use my_dos.CString.Compare.{text, equals_lem}
use my_dos.Keyboard.{Keyboard, load_layout, apply_layout, reset_layouts, assign, empty_table}
use my_dos.Keyboard.Tables.{
  ascii_default, shift_default, altgr_de, ascii_de, shift_de, ascii_fr, shift_fr,
}

-- The names that the kernel knows.
pub data Layout : Type 0 where
  us default de fr : Layout

abbrev pub name_of : Layout → String
name_of us = "us"
name_of default = "default"
name_of de = "de"
name_of fr = "fr"

-- The layout that is active afterwards.
abbrev pub shown_as : Layout → String
shown_as us = "us"
shown_as default = "de"
shown_as de = "de"
shown_as fr = "fr"

-- The keyboard with a layout's tables; only the state of the keys is kept.
abbrev pub configured : Layout → Bool → Bool → Bool → Keyboard
configured layout shift altgr extended = record {
  scancode_ascii = elim layout [
    | us ↦ assign ascii_default empty_table
    | default ↦ assign ascii_de (assign ascii_default empty_table)
    | de ↦ assign ascii_de (assign ascii_default empty_table)
    | fr ↦ assign ascii_fr (assign ascii_default empty_table)
  ];
  scancode_ascii_shift = elim layout [
    | us ↦ assign shift_default empty_table
    | default ↦ assign shift_de (assign shift_default empty_table)
    | de ↦ assign shift_de (assign shift_default empty_table)
    | fr ↦ assign shift_fr (assign shift_default empty_table)
  ];
  scancode_ascii_altgr = elim layout [
    | us ↦ empty_table
    | default ↦ assign altgr_de empty_table
    | de ↦ assign altgr_de empty_table
    | fr ↦ empty_table
  ];
  active_layout = shown_as layout;
  layout_initialized = true;
  shift_pressed = shift;
  altgr_pressed = altgr;
  extended_scancode = extended;
}

load_layout-configured_at :
    (layout : Layout) (b : Bool) (kb : Keyboard)
    → load_layout (codes (name_of layout)) (record kb { layout_initialized = b })
      ≡ (true, configured layout kb.shift_pressed kb.altgr_pressed kb.extended_scancode)
unfolding load_layout apply_layout reset_layouts equals strcmp
load_layout-configured_at us true kb = refl
load_layout-configured_at us false kb = refl
load_layout-configured_at default true kb = refl
load_layout-configured_at default false kb = refl
load_layout-configured_at de true kb = refl
load_layout-configured_at de false kb = refl
load_layout-configured_at fr true kb = refl
load_layout-configured_at fr false kb = refl

-- Loading a known layout succeeds from every state and gives the layout's tables, with nothing of
-- the old ones left and the key states kept.
pub load_layout-configured :
    (layout : Layout) (kb : Keyboard)
    → load_layout (codes (name_of layout)) kb
      ≡ (true, configured layout kb.shift_pressed kb.altgr_pressed kb.extended_scancode)
load_layout-configured layout kb = load_layout-configured_at layout kb.layout_initialized kb

-- Once the tables are filled, a name whose text is none of the known ones is refused and changes
-- nothing.
pub load_layout-unknown :
    (name : List ℕ) (kb : Keyboard)
    → ((layout : Layout) → text name ≢ text (codes (name_of layout)))
    → kb.layout_initialized ≡ true
    → load_layout name kb ≡ (false, kb)
unfolding load_layout
load_layout-unknown name kb unknown ready =
    let not_named : (layout : Layout) → equals name (name_of layout) ≡ false = λ layout.
      elim (Bool-cases (equals name (name_of layout))) [
        | inl h ↦ absurd (unknown layout ((equals_lem name (name_of layout)).0 h))
        | inr h ↦ h
      ] in
    ground (arith, not_named us, not_named default, not_named de, not_named fr, ready)
