-- ===== src/Protocol/Assemble/Writing.antt =====
-- What the macros that add a part to a message leave in its buffer.
use ipk_project.Prelude.{
  ℕ, suc, ◌+◌, ◌^◌, ◌<◌, ◌≤◌, ◌≡◌, refl, sym, ap, ap₂, ◌∙◌, List, [], ◌∷◌, ◌++◌, map, some, arith,
  length, length-append, length-map, get_elem?, take, list_ext, length-take_of_le, get_elem?-take,
  get_elem?-append_left, set,
}
use ipk_project.Outcome.{ok}
use ipk_project.Memory.{Object, Cell, CharPtr, add_size}
use ipk_project.Memory.Writes.{
  overwrite, write_all-ok, length-overwrite, get_elem?-overwrite, Holds, Holds-cells, store-ok,
}
use ipk_project.Utils.{BytesBlock, string_replace}
use ipk_project.Utils.Scan.{copy_loop-write_all}
use ipk_project.Buffer.{Buffer}
use ipk_project.Protocol.Blocks.{literal}
use ipk_project.Protocol.Assemble.{Writer, add_block, add_zero_byte, add_stored_info, add_string}

pub overwrite-append :
    (m : Object) (i : ℕ) (xs ys : List Cell)
    → overwrite (overwrite m i xs) (i + length xs) ys ≡ overwrite m i (xs ++ ys)
unfolding overwrite
overwrite-append m i [] ys = ap (λ k. overwrite m k ys) (zeros i)
  where
    zeros : (i : ℕ) → i + 0 ≡ i
    zeros i = omega arith
overwrite-append m i (x ∷ xs) ys =
    ap (λ k. overwrite (overwrite (set m i x) (i + 1) xs) k ys) shift
    ∙ overwrite-append (set m i x) (i + 1) xs ys
  where
    shift : i + suc (length xs) ≡ i + 1 + length xs
    shift = omega arith

-- A message in the making: from position `i` on the cells `cs` are written in the block `m`.
abbrev pub written : Object → ℕ → List Cell → Writer
written m i cs = (overwrite m i cs, i + length cs)

-- The room for `n` more cells.
abbrev pub Room : Object → ℕ → List Cell → ℕ → Type 0
Room m i cs n = (i + length cs + n ≤ length m) × (length m < 2 ^ 64)

replaced :
    (m : Object) (i : ℕ) (cs ds : List Cell) (p : CharPtr)
    → Holds p 0 ds
    → i + length cs + length ds ≤ length m
    → string_replace (overwrite m i cs) (i + length cs) (some p) (length ds)
      ≡ ok (overwrite m i (cs ++ ds))
unfolding string_replace
replaced m i cs ds p h room =
    copy_loop-write_all (overwrite m i cs) (i + length cs) p 0 ds h
    ∙ write_all-ok (overwrite m i cs) (i + length cs) ds (omega (arith, length-overwrite m i cs))
    ∙ ap ok (overwrite-append m i cs ds)

position :
    (m : Object) (i n : ℕ) (cs ds : List Cell)
    → length ds ≡ n
    → Room m i cs n
    → add_size (i + length cs) n ≡ i + length (cs ++ ds)
position m i n cs ds e room = omega (arith, length-append cs ds, e, room.0, room.1)

pub add_block-written :
    (m : Object) (i : ℕ) (cs ds : List Cell) (b : BytesBlock) (p : CharPtr)
    → b.start ≡ some p
    → b.len ≡ length ds
    → Holds p 0 ds
    → Room m i cs (length ds)
    → add_block (written m i cs) b ≡ ok (written m i (cs ++ ds))
unfolding add_block
add_block-written m i cs ds b p s l h room =
    rw (s, l, replaced m i cs ds p h room.0)
      (ap (λ k. ok (overwrite m i (cs ++ ds), k)) (position m i (length ds) cs ds refl room))

pub add_stored_info-written :
    (m : Object) (i : ℕ) (cs ds : List Cell) (b : Buffer) (o : Object)
    → b.bytes ≡ some o
    → b.used ≡ length ds
    → Holds (record { object = o; offset = 0 }) 0 ds
    → Room m i cs (length ds)
    → add_stored_info (written m i cs) b ≡ ok (written m i (cs ++ ds))
unfolding add_stored_info
add_stored_info-written m i cs ds b o s l h room =
    rw (s, l, replaced m i cs ds (record { object = o; offset = 0 }) h room.0)
      (ap (λ k. ok (overwrite m i (cs ++ ds), k)) (position m i (length ds) cs ds refl room))

pub literal-Holds : (text : List ℕ) → length text < 2 ^ 64 → Holds (literal text) 0 (map some text)
literal-Holds text h =
    Holds-cells (literal text) 0 (map some text) (omega (arith, length-map some text)) (λ j k.
      ap (get_elem? (literal text).object) (zeros j)
      ∙ get_elem?-append_left (map some text) (some 0 ∷ []) j k)
  where
    zeros : (j : ℕ) → 0 + 0 + j ≡ j
    zeros j = omega arith

pub add_string-written :
    (m : Object) (i : ℕ) (cs : List Cell) (text : List ℕ)
    → Room m i cs (length text)
    → add_string (written m i cs) text ≡ ok (written m i (cs ++ map some text))
unfolding add_string
add_string-written m i cs text room =
    let size : length (map some text) ≡ length text = length-map some text in
    let shown = literal-Holds text (omega (arith, room.0, room.1)) in
    let copied =
      replaced m i cs (map some text) (literal text) shown (omega (arith, size, room.0)) in
    rw
      (ap (string_replace (overwrite m i cs) (i + length cs) (some (literal text))) (sym size)
        ∙ copied)
      (ap (λ k. ok (overwrite m i (cs ++ map some text), k))
        (position m i (length text) cs (map some text) size room))

pub add_zero_byte-written :
    (m : Object) (i : ℕ) (cs : List Cell)
    → Room m i cs 1
    → add_zero_byte (written m i cs) ≡ ok (written m i (cs ++ some 0 ∷ []))
unfolding add_zero_byte overwrite
add_zero_byte-written m i cs room =
    rw
      (store-ok (overwrite m i cs) (i + length cs) (some 0)
        (omega (arith, length-overwrite m i cs, room.0)))
      (ap₂ (λ (x : Object) (k : ℕ). ok (x, k)) (overwrite-append m i cs (some 0 ∷ []))
        (position m i 1 cs (some 0 ∷ []) refl room))

-- What was written at the start of a block is there.
pub take-overwrite :
    (m : Object) (cs : List Cell) → length cs ≤ length m → take (length cs) (overwrite m 0 cs) ≡ cs
take-overwrite m cs h = list_ext (take (length cs) (overwrite m 0 cs)) cs size (λ j k.
    get_elem?-take (length cs) (overwrite m 0 cs) j (omega (arith, size))
    ∙ ap (get_elem? (overwrite m 0 cs)) (zeros j)
    ∙ get_elem?-overwrite m 0 cs j (omega arith) (omega (arith, size)))
  where
    size : length (take (length cs) (overwrite m 0 cs)) ≡ length cs
    size = length-take_of_le (length cs) (overwrite m 0 cs) (omega (arith, length-overwrite m 0 cs))

    zeros : (j : ℕ) → j ≡ 0 + j
    zeros j = omega arith
