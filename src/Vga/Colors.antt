-- ===== src/Vga/Colors.antt =====
-- The colour byte of src/vga_buffer.rs's `ColorCode`, and strings of coloured cells.
use leaf_os.Common.{
  ℕ, ◌+◌, ◌*◌, ◌%◌, ◌/◌, ◌<◌, ◌≡◌, refl, sym, ap, ◌∙◌, true, bit_or, List, [], ◌∷◌, ◌++◌, map, ◌==◌,
  ==_iff, get_or, append_assoc, append-nil, arith,
}
use leaf_os.Common.Tables.{pass_below, pass_below-entry}
use leaf_os.Vga.{
  Color, black, blue, green, cyan, red, magenta, brown, light_gray, dark_gray, light_blue,
  light_green, light_cyan, light_red, pink, yellow, white, color_u8, color_code_new, screen_char,
  ColoredString, push_char, push_bytes, from_string, colored_string_new,
}

color_u8-lt : (c : Color) → color_u8 c < 16
unfolding color_u8
color_u8-lt c = ground arith

color_at : ℕ → Color
color_at n =
    get_or
      (black ∷ blue ∷ green ∷ cyan ∷ red ∷ magenta ∷ brown ∷ light_gray ∷ dark_gray ∷ light_blue
        ∷ light_green ∷ light_cyan ∷ light_red ∷ pink ∷ yellow ∷ white ∷ [])
      n black

color_at-color_u8 : (c : Color) → color_at (color_u8 c) ≡ c
unfolding color_u8 color_at
color_at-color_u8 black = refl
color_at-color_u8 _ = refl

nibbles_table :
    pass_below 16 (λ bg. pass_below 16 (λ fg. bit_or (bg * 16 % 256) fg == bg * 16 + fg)) ≡ true
unfolding pass_below
nibbles_table = refl

nibbles : (bg fg : ℕ) → bg < 16 → fg < 16 → bit_or (bg * 16 % 256) fg ≡ bg * 16 + fg
nibbles bg fg hb hf = (==_iff _ _).0 (
    pass_below-entry 16 (λ y. bit_or (bg * 16 % 256) y == bg * 16 + y) fg
      (pass_below-entry 16 (λ x. pass_below 16 (λ y. bit_or (x * 16 % 256) y == x * 16 + y)) bg
        nibbles_table hb)
      hf)

color_code_new-nibbles :
    (fg bg : Color)
    → (color_code_new fg bg / 16 ≡ color_u8 bg) × (color_code_new fg bg % 16 ≡ color_u8 fg)
unfolding color_code_new
color_code_new-nibbles fg bg =
    omega
      (arith, nibbles (color_u8 bg) (color_u8 fg) (color_u8-lt bg) (color_u8-lt fg), color_u8-lt fg)

-- A `ColorCode` fits its byte and determines its two colours: no two pairs of colours share one.
pub color_code_new_inj :
    (fg bg fg' bg' : Color)
    → (color_code_new fg bg < 256)
      × (color_code_new fg bg ≡ color_code_new fg' bg' → (fg ≡ fg') × (bg ≡ bg'))
color_code_new_inj fg bg fg' bg' =
    let n = color_code_new-nibbles fg bg in
    let n' = color_code_new-nibbles fg' bg' in
    let fits : color_u8 bg < 16 = color_u8-lt bg in
    (
      omega (arith, n.0, fits),
      λ e. (
        sym (color_at-color_u8 fg)
            ∙ ap color_at (sym n.1 ∙ ap (λ (k : ℕ). k % 16) e ∙ n'.1)
            ∙ color_at-color_u8 fg',
        sym (color_at-color_u8 bg)
            ∙ ap color_at (sym n.0 ∙ ap (λ (k : ℕ). k / 16) e ∙ n'.0)
            ∙ color_at-color_u8 bg',
      ),
    )

push_bytes-map :
    (s : ColoredString) (str : List ℕ)
    → (push_bytes s str).chars ≡ s.chars ++ map (λ char. screen_char char s.curr_color) str
unfolding push_bytes push_char
push_bytes-map s [] = sym (append-nil s.chars)
push_bytes-map s (char ∷ rest) =
    push_bytes-map (push_char s char) rest
    ∙ append_assoc s.chars (screen_char char s.curr_color ∷ []) _

-- `ColoredString::from_string` has one cell for each byte, in order, each white on black.
pub from_string-map :
    (str : List ℕ)
    → (from_string str).chars ≡ map (λ char. screen_char char (color_code_new white black)) str
unfolding from_string colored_string_new
from_string-map str = push_bytes-map colored_string_new str
