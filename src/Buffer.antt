-- ===== src/Buffer.antt =====
-- src/libs/buffer.h and src/libs/buffer.c: growing byte arrays and the reading of the standard
-- input. realloc() is taken to succeed, so the branch for failed memory is left out. New cells of a
-- grown array are unwritten.
pub mod Laws
pub mod Loading
use ipk_project.Prelude.{
  ℕ, ◌+◌, ◌-◌, ◌*◌, ◌%◌, ◌^◌, ◌≤◌, ◌≡◌, Bool, true, false, Option, none, some, List, [], ◌∷◌, ◌++◌,
  ltb, leb, ◌==◌, if◌then◌else◌, length, take, replicate, ◌||◌,
}
use ipk_project.Outcome.{Outcome, ok, fault, ◌>>=◌}
use ipk_project.Memory.{Object, CharPtr, or_fault, store, sub_size}
use ipk_project.Utils.{copy_loop, is_ending_character}

-- `bytes` is the field `data`; `none` is NULL
pub record Buffer : Type 0 where
  pub bytes : Option Object
  pub allocated : ℕ
  pub used : ℕ

abbrev pub initial_buffer_size : ℕ
initial_buffer_size = 256

abbrev pub buffer_init : Buffer
buffer_init = record { bytes = none; allocated = 0; used = 0 }

-- realloc(): the old contents, up to the smaller of the two sizes, in a block of the new size
abbrev pub realloc : Option Object → ℕ → Object
realloc none n = replicate n none
realloc (some m) n = take n m ++ replicate (n - length m) none

unfoldable pub buffer_resize : Buffer → ℕ → Buffer
buffer_resize b new_size =
    if leb new_size b.allocated
    then b
    else record b { bytes = some (realloc b.bytes new_size); allocated = new_size }

-- The bytes `0 .. used` of `src` over those of `dst`. With nothing to copy no pointer is read.
unfoldable pub copy_used : Option Object → Option Object → ℕ → Outcome (Option Object)
copy_used dst src used = if used == 0 then ok dst else do
  d ← or_fault dst
  s ← or_fault src
  d' ← copy_loop d 0 (record { object = s; offset = 0 }) 0 used
  ok (some d')

unfoldable pub buffer_copy : Buffer → Buffer → Outcome Buffer
unfolding buffer_resize copy_used
buffer_copy dst src = do
  let dst' = if ltb dst.allocated src.used then buffer_resize dst src.used else dst
  bytes ← copy_used dst'.bytes src.bytes src.used
  ok (record dst' { bytes = bytes; used = src.used })

-- room for index `i`, as loadBufferFromStdin() makes it
unfoldable pub grow : Buffer → ℕ → Buffer
unfolding buffer_resize
grow b i = elim b.bytes [
  | none ↦ buffer_resize b initial_buffer_size
  | some m ↦
      if leb b.allocated 0
      then buffer_resize b initial_buffer_size
      else if ltb (sub_size b.allocated 1) i
      then buffer_resize b ((b.allocated * 2) % 2 ^ 64)
      else b
]

-- `buffer->data[i] = c`
unfoldable pub put_byte : Buffer → ℕ → ℕ → Outcome Buffer
put_byte b i c = do m ← or_fault b.bytes; m' ← store m i (some c); ok (record b { bytes = some m' })

-- The rest of the input from the character `c` on. At the end of the input getc() gives EOF, the
-- char 0xff. The results are the buffer, the number of characters and the ending character.
unfoldable pub load_loop : Buffer → ℕ → List ℕ → Outcome (Buffer × ℕ × ℕ × List ℕ)
unfolding grow put_byte
load_loop b i [] = ok (b, i, 0xff, [])
load_loop b i (c ∷ rest) = elim (is_ending_character c) [
  | false ↦ ok (b, i, c, rest)
  | true ↦ do b' ← put_byte (grow b i) i c; load_loop b' (i + 1) rest
]

-- The results are the buffer, the returned length, `*eofDetected` and the input that is left.
unfoldable pub load_buffer_from_stdin :
    Buffer → Bool → List ℕ → Outcome (Buffer × ℕ × Bool × List ℕ)
unfolding load_loop put_byte
load_buffer_from_stdin buffer eof_detected input = do
  (b, i, c, rest) ← load_loop buffer 0 input
  b' ← put_byte b i 0
  ok (b', i, (if c == 0xff then true else eof_detected), rest)
