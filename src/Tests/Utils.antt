-- ===== src/Tests/Utils.antt =====
-- Examples for utils.c.
use ipk_project.Prelude.{◌≡◌, refl, arith, [], ◌∷◌}
use ipk_project.Memory.{read, read_cell}
use ipk_project.Utils.{
  break_u16_int_to_bytes, convert_2bytes_to_u16_int, find_blank_char_in_string, is_blank, scan,
}
use ipk_project.Utils.Bytes.{convert-break}
use ipk_project.Utils.Scan.{Found, find_blank_char_in_string-Found}
use ipk_project.Tests.Data.{text_at}

convert-break_example :
    let (high, low) = break_u16_int_to_bytes 200 in convert_2bytes_to_u16_int low high ≡ 65480
unfolding break_u16_int_to_bytes convert_2bytes_to_u16_int
convert-break_example = convert-break 200 (omega arith)

find_blank_char_in_string-Found_example : Found is_blank (text_at (b'h' ∷ b'i' ∷ b' ' ∷ [])) 0 3 2
unfolding find_blank_char_in_string scan is_blank read read_cell
find_blank_char_in_string-Found_example =
    find_blank_char_in_string-Found (text_at (b'h' ∷ b'i' ∷ b' ' ∷ [])) 2 refl
