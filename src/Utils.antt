-- ===== src/Utils.antt =====
-- src/libs/utils.h and src/libs/utils.c: the shared enums, the search for characters in a string,
-- and the conversions between bytes and numbers. A `char` is its byte, below 256; where its sign
-- matters the code that reads it says so. A `long` that is assigned to a size_t is its 64-bit
-- pattern, so -1 is `minus_one`.
pub mod Types
pub mod Scan
pub mod Bytes
use ipk_project.Prelude.{
  ℕ, zero, suc, ◌+◌, ◌-◌, ◌*◌, ◌/◌, ◌%◌, ◌^◌, Bool, true, false, ◌&&◌, ◌||◌, not, Option, none,
  some, ltb, leb, ◌==◌, if◌then◌else◌, List, [], ◌∷◌,
}
use ipk_project.Outcome.{Outcome, ok, error, ErrorCode, ◌>>=◌}
use ipk_project.Memory.{CharPtr, read, read_cell, advance, sub_size, minus_one, Object, store}
use Types.{CommandType}

-- struct BytesBlock; `none` is the NULL pointer
pub record BytesBlock : Type 0 where
  pub start : Option CharPtr
  pub len : ℕ

unfoldable pub is_blank : ℕ → Bool
is_blank c = c == b' ' || c == 9 || c == 0 || c == 10 || c == 13

unfoldable pub is_line_end : ℕ → Bool
is_line_end c = c == 0 || c == 10 || c == 13

-- The index from `i` on, within the given number of rounds, of the first character that `stop`
-- accepts; -1 if there is none.
unfoldable pub scan : (ℕ → Bool) → CharPtr → ℕ → ℕ → Outcome ℕ
scan stop p zero i = ok minus_one
scan stop p (suc rounds) i = do
  c ← read p i
  let rest = scan stop p rounds (i + 1)
  if stop c then ok i else rest

-- The loop runs while `index <= len`, which is `len + 1` rounds.
unfoldable pub find_blank_char_in_string : CharPtr → ℕ → Outcome ℕ
unfolding scan is_blank
find_blank_char_in_string p len = scan is_blank p (len + 1) 0

unfoldable pub find_new_line_in_string : CharPtr → ℕ → Outcome ℕ
unfolding scan is_line_end
find_new_line_in_string p len = scan is_line_end p (len + 1) 0

unfoldable pub skip_loop : CharPtr → ℕ → ℕ → Outcome ℕ
skip_loop p zero i = ok minus_one
skip_loop p (suc rounds) i = do
  c ← read p i
  let rest = skip_loop p rounds (i + 1)
  if not (c == b' ' || c == 9) then ok i else if c == 0 || c == 10 then ok minus_one else rest

unfoldable pub skip_blank_chars_in_string : CharPtr → ℕ → Outcome ℕ
unfolding skip_loop
skip_blank_chars_in_string p len = skip_loop p len 0

unfoldable pub zero_loop : CharPtr → ℕ → ℕ → Outcome ℕ
zero_loop p zero i = ok i
zero_loop p (suc rounds) i = do
  c ← read p i
  let rest = zero_loop p rounds (i + 1)
  if c == 0 then ok i else rest

unfoldable pub find_zero_in_string : CharPtr → ℕ → Outcome ℕ
unfolding zero_loop
find_zero_in_string p len = do
  index ← zero_loop p len 0
  if index == 0 then error ErrorCode.internal_bad_arg else ok index

-- getWord() on a block whose length is `old_len`; the block is returned beside the result.
unfoldable pub get_word : ℕ → CharPtr → ℕ → Outcome (BytesBlock × Bool)
unfolding find_blank_char_in_string skip_blank_chars_in_string
get_word old_len start_of_last_word buffer_size = elim (buffer_size == 0) [
  | true ↦ ok (record { start = none; len = old_len }, false)
  | false ↦ do
    index ← skip_blank_chars_in_string start_of_last_word buffer_size
    let start = advance start_of_last_word index
    len ← find_blank_char_in_string start (sub_size buffer_size old_len)
    ok (record { start = some start; len = len }, not (len == 0))
]

-- 0 for the characters that end the input: EOF, which is the char -1, a newline, 3 and 4.
unfoldable pub is_ending_character : ℕ → Bool
is_ending_character c = if c == 0xff || c == 10 || c == 3 || c == 4 then false else true

-- `dst[pos + i] = src[from + i]` for each round i
unfoldable pub copy_loop : Object → ℕ → CharPtr → ℕ → ℕ → Outcome Object
copy_loop dst pos src from zero = ok dst
copy_loop dst pos src from (suc rounds) = do
  c ← read_cell src from
  dst' ← store dst pos c
  copy_loop dst' (pos + 1) src (from + 1) rounds

-- stringReplace() into a block that is not NULL, at position `pos`
unfoldable pub string_replace : Object → ℕ → Option CharPtr → ℕ → Outcome Object
unfolding copy_loop
string_replace dst pos none len = ok dst
string_replace dst pos (some src) len = copy_loop dst pos src 0 len

unfoldable pub uchar2_command_type : ℕ → CommandType
unfolding Types.command_of
uchar2_command_type input =
    if leb 0 input && leb input 9 then Types.command_of input else CommandType.conversion_err

-- the high byte and the low byte of a 16-bit number
unfoldable pub break_u16_int_to_bytes : ℕ → ℕ × ℕ
break_u16_int_to_bytes msg_counter = ((msg_counter / 2 ^ 8) % 256, msg_counter % 256)

-- A char converted to a 16-bit pattern carries its sign into the high byte.
abbrev sign_extend : ℕ → ℕ
sign_extend c = if ltb c 128 then c else c + 0xff00

-- low + (high << 8), as a uint16_t
unfoldable pub convert_2bytes_to_u16_int : ℕ → ℕ → ℕ
convert_2bytes_to_u16_int low high = (sign_extend low + sign_extend high * 2 ^ 8) % 2 ^ 16

unfoldable pub is_lowercase : ℕ → Bool
is_lowercase c = leb b'a' c && leb c b'z'

unfoldable pub is_uppercase : ℕ → Bool
is_uppercase c = leb b'A' c && leb c b'Z'

-- whether two characters pass one round of the loop of strcmpCaseIns()
unfoldable pub same_letter : ℕ → ℕ → Bool
unfolding is_lowercase is_uppercase
same_letter a b =
    if a == b
    then true
    else if is_lowercase a && is_uppercase b
    then b + 32 == a
    else if is_uppercase a && is_lowercase b
    then a + 32 == b
    else false

unfoldable pub compare_loop : CharPtr → CharPtr → ℕ → ℕ → Outcome Bool
compare_loop p q i zero = ok true
compare_loop p q i (suc rounds) = do
  a ← read p i
  b ← read q i
  let rest = compare_loop p q (i + 1) rounds
  if same_letter a b then rest else ok false

unfoldable pub strcmp_case_ins : CharPtr → CharPtr → ℕ → Outcome Bool
unfolding compare_loop same_letter
strcmp_case_ins str1 str2 len = compare_loop str1 str2 0 len
