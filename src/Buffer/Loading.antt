-- ===== src/Buffer/Loading.antt =====
-- loadBufferFromStdin() of src/libs/buffer.c, on a line that fits the block it finds.
use ipk_project.Prelude.{
  ℕ, suc, ◌+◌, ◌≡◌, ◌<◌, ◌≤◌, ◌^◌, refl, ap, ap₂, ◌∙◌, ◌-◌, ◌%◌, Bool, true, false, arith,
  if◌then◌else◌, List, [], ◌∷◌, ◌++◌, length, map, All, Option, some, ltb, leb, ◌==◌, set,
  length-set,
}
use ipk_project.Outcome.{ok, fault}
use ipk_project.Memory.{Object, sub_size}
use ipk_project.Memory.Writes.{overwrite, length-overwrite, store-ok, store-fault}
use ipk_project.Utils.{is_ending_character}
use ipk_project.Buffer.{Buffer, load_loop, load_buffer_from_stdin, grow, put_byte}

grow-room :
    (b : Buffer) (m : Object) (i : ℕ)
    → b.bytes ≡ some m
    → i < b.allocated
    → b.allocated < 2 ^ 63
    → grow b i ≡ b
unfolding grow
grow-room b m i e h small =
    let some_room : leb b.allocated 0 ≡ false = ground arith in
    let last : sub_size b.allocated 1 ≡ (b.allocated + 2 ^ 64 - 1) % 2 ^ 64 = refl in
    let inside : i ≤ sub_size b.allocated 1 = omega arith in
    let reached : ltb (sub_size b.allocated 1) i ≡ false =
      not_lt (sub_size b.allocated 1) i inside in
    rw (e, some_room, reached) refl
  where
    not_lt : (x y : ℕ) → y ≤ x → ltb x y ≡ false
    not_lt x y h = ground arith

pub put_byte-ok :
    (b : Buffer) (m : Object) (i c : ℕ)
    → b.bytes ≡ some m
    → i < length m
    → put_byte b i c ≡ ok (record b { bytes = some (set m i (some c)) })
unfolding put_byte
put_byte-ok b m i c e h = ground (arith, store-ok m i (some c))

put_byte-fault :
    (b : Buffer) (m : Object) (i c : ℕ) → b.bytes ≡ some m → length m ≤ i → put_byte b i c ≡ fault
unfolding put_byte
put_byte-fault b m i c e h = ground (arith, store-fault m i (some c))

load_loop-line :
    (b : Buffer) (m : Object) (i : ℕ) (line : List ℕ) (c : ℕ) (rest : List ℕ)
    → b.bytes ≡ some m
    → b.allocated ≡ length m
    → length m < 2 ^ 63
    → i + length line ≤ length m
    → All (λ x. is_ending_character x ≡ true) line
    → is_ending_character c ≡ false
    → load_loop b i (line ++ c ∷ rest)
      ≡ ok (record b { bytes = some (overwrite m i (map some line)) }, i + length line, c, rest)
unfolding load_loop overwrite
load_loop-line b m i [] c rest e a s room l f =
    rw (load_loop, f)
      (ap₂ (λ (o : Option Object) (k : ℕ). ok (record b { bytes = o }, k, c, rest)) e zero_more)
  where
    zero_more : i ≡ i + 0
    zero_more = omega arith
load_loop-line b m i (x ∷ line) c rest e a s room l f =
    let grown = grow-room b m i e (omega arith) (omega arith) in
    let put = put_byte-ok b m i x e (omega arith) in
    rw (load_loop, l.0, grown, put)
      (load_loop-line (record b { bytes = some (set m i (some x)) }) (set m i (some x)) (i + 1) line
          c rest refl (omega (arith, length-set m i (some x)))
          (omega (arith, length-set m i (some x))) (omega (arith, length-set m i (some x))) l.1 f
        ∙ ap
            (λ k. ok (
              record b { bytes = some (overwrite (set m i (some x)) (i + 1) (map some line)) },
              k,
              c,
              rest,
            ))
            shift)
  where
    shift : i + 1 + length line ≡ i + suc (length line)
    shift = omega arith

-- A line that is shorter than the block of the buffer, which counts its cells, is read into it with
-- a zero byte behind it, and the rest of the input is left.
pub load_buffer_from_stdin-line :
    (b : Buffer) (m : Object) (line : List ℕ) (c : ℕ) (rest : List ℕ) (eof : Bool)
    → b.bytes ≡ some m
    → b.allocated ≡ length m
    → length m < 2 ^ 63
    → length line < length m
    → All (λ x. is_ending_character x ≡ true) line
    → is_ending_character c ≡ false
    → load_buffer_from_stdin b eof (line ++ c ∷ rest)
      ≡ ok (
        record b { bytes = some (set (overwrite m 0 (map some line)) (length line) (some 0)) },
        length line,
        (if c == 0xff then true else eof),
        rest,
      )
unfolding load_buffer_from_stdin
load_buffer_from_stdin-line b m line c rest eof e a s room l f =
    let lengths = length-overwrite m 0 (map some line) in
    rw (load_loop-line b m 0 line c rest e a s (omega arith) l f) (
      rw
        (put_byte-ok (record b { bytes = some (overwrite m 0 (map some line)) })
          (overwrite m 0 (map some line)) (0 + length line) 0 refl (omega (arith, lengths)))
        (ap
          (λ (k : ℕ). ok (
            record b { bytes = some (set (overwrite m 0 (map some line)) k (some 0)) },
            k,
            (if c == 0xff then true else eof),
            rest,
          ))
          zeros))
  where
    zeros : 0 + length line ≡ length line
    zeros = omega arith

-- A line exactly as long as the block is read into it, and its zero byte is written out of bounds.
pub load_buffer_from_stdin-full :
    (b : Buffer) (m : Object) (line : List ℕ) (c : ℕ) (rest : List ℕ) (eof : Bool)
    → b.bytes ≡ some m
    → b.allocated ≡ length m
    → length m < 2 ^ 63
    → length line ≡ length m
    → All (λ x. is_ending_character x ≡ true) line
    → is_ending_character c ≡ false
    → load_buffer_from_stdin b eof (line ++ c ∷ rest) ≡ fault
unfolding load_buffer_from_stdin
load_buffer_from_stdin-full b m line c rest eof e a s full l f =
    rw (load_loop-line b m 0 line c rest e a s (omega arith) l f) (
      rw
        (put_byte-fault (record b { bytes = some (overwrite m 0 (map some line)) })
          (overwrite m 0 (map some line)) (0 + length line) 0 refl
          (omega (arith, length-overwrite m 0 (map some line))))
        refl)
