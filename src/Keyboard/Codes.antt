-- ===== src/Keyboard/Codes.antt =====
-- scancodes.h and keycodes.h, as far as keyboard.c uses them: the codes of single keys, the table from
-- scancodes to characters, and the characters that shift and caps lock choose.
use ece391_mp.Base.{ℕ, ◌-◌, Bool, not, ◌&&◌, ◌||◌, List, [], ◌∷◌, leb, ◌==◌, if◌then◌else◌, get_or}

abbrev pub backspace : ℕ
backspace = 14

abbrev pub left_ctrl : ℕ
left_ctrl = 29

abbrev pub key_l : ℕ
key_l = 38

abbrev pub left_shift : ℕ
left_shift = 42

abbrev pub right_shift : ℕ
right_shift = 54

abbrev pub left_alt : ℕ
left_alt = 56

abbrev pub caps_lock : ℕ
caps_lock = 58

abbrev pub pressed_f12 : ℕ
pressed_f12 = 0x58

abbrev pub release_offset : ℕ
release_offset = 0x80

abbrev pub released_caps_lock : ℕ
released_caps_lock = 0xBA

abbrev pub released_f12 : ℕ
released_f12 = 0xD8

abbrev pub multibyte : ℕ
multibyte = 0xE0

abbrev key_table : List ℕ
key_table =
    0 ∷ 0 ∷ b'1' ∷ b'2' ∷ b'3' ∷ b'4' ∷ b'5' ∷ b'6' ∷ b'7' ∷ b'8' ∷ b'9' ∷ b'0' ∷ b'-' ∷ b'=' ∷ 10
    ∷ 32 ∷ b'q' ∷ b'w' ∷ b'e' ∷ b'r' ∷ b't' ∷ b'y' ∷ b'u' ∷ b'i' ∷ b'o' ∷ b'p' ∷ b'[' ∷ b']' ∷ 10
    ∷ 0 ∷ b'a' ∷ b's' ∷ b'd' ∷ b'f' ∷ b'g' ∷ b'h' ∷ b'j' ∷ b'k' ∷ b'l' ∷ b';' ∷ 39 ∷ 96 ∷ 0 ∷ 92
    ∷ b'z' ∷ b'x' ∷ b'c' ∷ b'v' ∷ b'b' ∷ b'n' ∷ b'm' ∷ b',' ∷ b'.' ∷ b'/' ∷ 0 ∷ b'*' ∷ 0 ∷ 32 ∷ []

-- `keycodes`: the entries behind the table's last are 0.
unfoldable pub keycodes : ℕ → ℕ
keycodes code = get_or key_table code 0

-- The `switch` of `handle_disp`.
unfoldable pub shifted_symbol : ℕ → ℕ
shifted_symbol c =
    if c == b'1'
    then b'!'
    else if c == b'2'
    then b'@'
    else if c == b'3'
    then b'#'
    else if c == b'4'
    then b'$'
    else if c == b'5'
    then b'%'
    else if c == b'6'
    then b'^'
    else if c == b'7'
    then b'&'
    else if c == b'8'
    then b'*'
    else if c == b'9'
    then b'('
    else if c == b'0'
    then b')'
    else if c == 96
    then b'~'
    else if c == b'-'
    then b'_'
    else if c == b'='
    then b'+'
    else if c == b';'
    then b':'
    else if c == 39
    then 34
    else if c == b','
    then b'<'
    else if c == b'.'
    then b'>'
    else if c == b'/'
    then b'?'
    else if c == b'['
    then b'{'
    else if c == b']'
    then b'}'
    else if c == 92
    then b'|'
    else c

abbrev pub is_lower : ℕ → Bool
is_lower c = leb b'a' c && leb c b'z'

-- `handle_disp` as a function of its two tests.
unfoldable pub shifted : Bool → Bool → ℕ → ℕ
unfolding shifted_symbol
shifted shift caps disp =
    if shift || caps && is_lower disp
    then if is_lower disp && not (caps && shift) then disp - 0x20 else shifted_symbol disp
    else disp
