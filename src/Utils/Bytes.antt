-- ===== src/Utils/Bytes.antt =====
-- The message IDs of utils.c: splitting a counter into bytes and joining them again.
use ipk_project.Prelude.{ℕ, ◌+◌, ◌-◌, ◌%◌, ◌^◌, ◌<◌, ◌≡◌, arith, ltb, if◌then◌else◌}
use ipk_project.Utils.{break_u16_int_to_bytes, convert_2bytes_to_u16_int}

-- Splitting a 16-bit counter and joining the bytes gives the counter back where its low byte is
-- below 128, and the counter minus 256 (modulo 2 ^ 16) where it is not.
pub convert-break :
    (n : ℕ)
    → n < 2 ^ 16
    → let (high, low) = break_u16_int_to_bytes n in
      convert_2bytes_to_u16_int low high
      ≡ (if ltb (n % 256) 128 then n else (n + 2 ^ 16 - 256) % 2 ^ 16)
unfolding break_u16_int_to_bytes convert_2bytes_to_u16_int
convert-break n h = ground arith

-- Two pairs of bytes give the same message ID only if they are the same bytes.
pub convert_injective :
    (a b c d : ℕ)
    → a < 256
    → b < 256
    → c < 256
    → d < 256
    → convert_2bytes_to_u16_int a b ≡ convert_2bytes_to_u16_int c d
    → (a ≡ c) × (b ≡ d)
unfolding convert_2bytes_to_u16_int
convert_injective a b c d ha hb hc hd e = ground arith
