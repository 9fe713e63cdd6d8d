-- ===== src/Buffer/Laws.antt =====
-- Resizing and copying of buffers.
use ipk_project.Prelude.{
  ℕ, ◌+◌, ◌-◌, ◌<◌, ◌≤◌, ◌^◌, ◌≡◌, refl, ap, ◌∙◌, sym, ◌≡⟨◌⟩◌, ◌∎, true, false, [], Option, none,
  some, arith, length, take, replicate, get_elem?, list_ext, length-append, length-take_of_le,
  length-replicate, take-all, get_elem?-append_left, get_elem?-take, leb, ltb, ◌==◌, leb→le, leb→gt,
  Bool-cases, inl, inr,
}
use ipk_project.Outcome.{ok}
use ipk_project.Memory.{Object, Cell, CharPtr}
use ipk_project.Memory.Writes.{
  write_all, overwrite, write_all-ok, length-overwrite, get_elem?-overwrite, Holds, Holds-cells,
}
use ipk_project.Utils.{copy_loop}
use ipk_project.Utils.Scan.{copy_loop-write_all}
use ipk_project.Buffer.{Buffer, buffer_init, buffer_resize, realloc, buffer_copy}

-- the cells of a buffer; a NULL buffer has none
abbrev pub cells : Buffer → Object
cells b = elim b.bytes [ none ↦ [] | some m ↦ m ]

-- `allocated` is the size of the block, which fits the address space, and `used` is within it.
pub record IsValid (b : Buffer) : Type 0 where
  pub counted : b.allocated ≡ length (cells b)
  pub within : b.used ≤ b.allocated
  pub small : b.allocated < 2 ^ 63

pub length-realloc : (o : Option Object) (n : ℕ) → length (realloc o n) ≡ n
length-realloc none n = length-replicate n none
length-realloc (some m) n = elim (Bool-cases (leb n (length m))) [
  | inl fits ↦ omega (
    arith,
    leb→le n (length m) fits,
    length-append (take n m) (replicate (n - length m) none),
    length-take_of_le n m (leb→le n (length m) fits),
    length-replicate {0} {A = Cell} (n - length m) none,
  )
  | inr more ↦ omega (
    arith,
    leb→gt n (length m) more,
    ap length (take-all n m (omega (arith, leb→gt n (length m) more))),
    length-append (take n m) (replicate (n - length m) none),
    length-replicate {0} {A = Cell} (n - length m) none,
  )
]

get_elem?-realloc :
    (m : Object) (n j : ℕ)
    → length m < n
    → j < length m
    → get_elem? (realloc (some m) n) j ≡ get_elem? m j
get_elem?-realloc m n j h k =
    rw (take-all n m (omega arith)) (get_elem?-append_left m (replicate (n - length m) none) j k)

-- A resized buffer that is not NULL: its block, and what is known of it.
pub record Resized (b b' : Buffer) (n : ℕ) (m : Object) : Type 0 where
  pub block : b'.bytes ≡ some m
  pub counted : b'.allocated ≡ length m
  pub fits : n ≤ length m
  pub kept_size : b.allocated ≤ length m
  pub same_used : b'.used ≡ b.used
  pub kept : (j : ℕ) → j < b.allocated → get_elem? m j ≡ get_elem? (cells b) j

resize_grows :
    (b : Buffer) (n : ℕ)
    → b.allocated ≡ length (cells b)
    → b.allocated < n
    → Resized b (record b { bytes = some (realloc b.bytes n); allocated = n }) n (realloc b.bytes n)
resize_grows b n h lt = record {
  block = refl;
  counted = sym (length-realloc b.bytes n);
  fits = omega (arith, length-realloc b.bytes n);
  kept_size = omega (arith, length-realloc b.bytes n);
  same_used = refl;
  kept = keeps b.bytes refl;
}
  where
    keeps :
        (o : Option Object)
        → b.bytes ≡ o
        → (j : ℕ) → j < b.allocated
        → get_elem? (realloc b.bytes n) j ≡ get_elem? (cells b) j
    keeps none e j k = absurd (ground arith)
    keeps (some m) e j k = rw e (get_elem?-realloc m n j (ground arith) (ground arith))

-- A buffer that counts its cells has, after a resize to a positive size, a block of at least that
-- size that begins with the old cells, and `used` is kept. So has a buffer without a block, for which
-- the comment of the function promises INITIAL_BUFFER_SIZE.
pub buffer_resize-Resized :
    (b : Buffer) (n : ℕ)
    → b.allocated ≡ length (cells b)
    → 0 < n
    → (m : Object) × Resized b (buffer_resize b n) n m
unfolding buffer_resize
buffer_resize-Resized b n h pos = elim (Bool-cases (leb n b.allocated)) [
  | inl fits ↦ rw fits (keeps b.bytes refl (ground arith))
  | inr grows ↦ rw grows (realloc b.bytes n, resize_grows b n h (ground arith))
]
  where
    keeps : (o : Option Object) → b.bytes ≡ o → n ≤ b.allocated → (m : Object) × Resized b b n m
    keeps none e le = absurd (ground arith)
    keeps (some m) e le = (
      m,
      record {
        block = e;
        counted = ground arith;
        fits = ground arith;
        kept_size = ground arith;
        same_used = refl;
        kept = λ j k. rw e refl;
      },
    )

-- Resizing a valid buffer to a size below 2 ^ 63 leaves a valid buffer.
pub buffer_resize-IsValid :
    (b : Buffer) (n : ℕ) → IsValid b → n < 2 ^ 63 → IsValid (buffer_resize b n)
unfolding buffer_resize
buffer_resize-IsValid b n v small = elim (Bool-cases (leb n b.allocated)) [
  | inl fits ↦ rw fits v
  | inr grows ↦
      rw grows
        (record { counted = sym (length-realloc b.bytes n); within = ground arith; small = small })
]

copy_whole :
    (d s : Object) (n : ℕ)
    → n ≤ length s
    → length d ≡ n
    → n < 2 ^ 63
    → copy_loop d 0 (record { object = s; offset = 0 }) 0 n ≡ ok (take n s)
copy_whole d s n h e small =
    copy_loop d 0 src 0 n
    ≡⟨ ap (copy_loop d 0 src 0) (sym size) ⟩ copy_loop d 0 src 0 (length (take n s))
    ≡⟨ copy_loop-write_all d 0 src 0 (take n s) shown ⟩ write_all d 0 (take n s)
    ≡⟨ write_all-ok d 0 (take n s) (omega (arith, size)) ⟩ ok (overwrite d 0 (take n s))
    ≡⟨ ap ok whole ⟩ ok (take n s) ∎
  where
    src : CharPtr
    src = record { object = s; offset = 0 }

    size : length (take n s) ≡ n
    size = length-take_of_le n s h

    zeros : (j : ℕ) → 0 + 0 + j ≡ j
    zeros j = omega arith

    zero_index : (j : ℕ) → j ≡ 0 + j
    zero_index j = omega arith

    shown : Holds src 0 (take n s)
    shown =
        Holds-cells src 0 (take n s) (omega (arith, size))
          (λ j k. ap (get_elem? s) (zeros j) ∙ sym (get_elem?-take n s j (omega (arith, size))))

    whole : overwrite d 0 (take n s) ≡ take n s
    whole =
        list_ext (overwrite d 0 (take n s)) (take n s)
          (omega (arith, size, length-overwrite d 0 (take n s)))
          (λ j k.
            ap (get_elem? (overwrite d 0 (take n s))) (zero_index j)
            ∙ get_elem?-overwrite d 0 (take n s) j (omega (arith, size))
                (omega (arith, size, length-overwrite d 0 (take n s))))

-- Copying a buffer, with a positive number of used cells that are in its block, into a fresh one
-- gives a block of exactly these cells.
pub buffer_copy-fresh :
    (src : Buffer) (s : Object)
    → src.bytes ≡ some s
    → src.used ≤ length s
    → 0 < src.used
    → src.used < 2 ^ 63
    → buffer_copy buffer_init src
      ≡ ok (record { bytes = some (take src.used s); allocated = src.used; used = src.used })
unfolding buffer_copy buffer_resize
buffer_copy-fresh src s e h pos small = rw (
  e,
  positive,
  nonzero,
  refused,
  copy_whole (replicate src.used none) s src.used h (length-replicate src.used none) small,
)
  where
    positive : ltb 0 src.used ≡ true
    positive = ground arith

    refused : leb src.used 0 ≡ false
    refused = ground arith

    nonzero : (src.used == 0) ≡ false
    nonzero = ground arith

-- A valid buffer with room is a block.
pub block-IsValid :
    (b : Buffer)
    → IsValid b
    → 0 < b.allocated
    → (m : Object) × (b.bytes ≡ some m) × (b.allocated ≡ length m)
block-IsValid b v h = go b.bytes refl
  where
    go :
        (o : Option Object)
        → b.bytes ≡ o
        → (m : Object) × (b.bytes ≡ some m) × (b.allocated ≡ length m)
    go none e =
        let empty : length (cells b) ≡ 0 = rw e refl in absurd (omega (arith, v.counted, empty))
    go (some m) e = (m, e, v.counted ∙ rw e refl)
