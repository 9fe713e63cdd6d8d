-- ===== src/Memory/Writes.antt =====
-- Runs of cells: what writing one after the other leaves, and when a pointer shows a run.
use ipk_project.Prelude.{
  ℕ, zero, suc, ◌+◌, ◌^◌, ◌<◌, ◌≤◌, ◌≡◌, ◌≢◌, refl, ap, ◌∙◌, List, [], ◌∷◌, ◌++◌, map, some, arith,
  length, set, length-set, get_elem?,
}
use ipk_project.Outcome.{Outcome, ok, fault, ◌>>=◌}
use ipk_project.Memory.{Object, Cell, CharPtr, add_size, store, read, read_cell}

-- the cells one after the other, from index `i` on
unfoldable pub write_all : Object → ℕ → List Cell → Outcome Object
write_all m i [] = ok m
write_all m i (c ∷ cs) = store m i c >>= λ m'. write_all m' (i + 1) cs

-- what they leave, where they fit
unfoldable pub overwrite : Object → ℕ → List Cell → Object
overwrite m i [] = m
overwrite m i (c ∷ cs) = overwrite (set m i c) (i + 1) cs

pub length-overwrite : (m : Object) (i : ℕ) (cs : List Cell) → length (overwrite m i cs) ≡ length m
unfolding overwrite
length-overwrite m i [] = refl
length-overwrite m i (c ∷ cs) = length-overwrite (set m i c) (i + 1) cs ∙ length-set m i c

pub store-ok : (m : Object) (i : ℕ) (c : Cell) → i < length m → store m i c ≡ ok (set m i c)
unfolding store
store-ok m i c h = ground arith

pub store-fault : (m : Object) (i : ℕ) (c : Cell) → length m ≤ i → store m i c ≡ fault
unfolding store
store-fault m i c h = ground arith

pub write_all-ok :
    (m : Object) (i : ℕ) (cs : List Cell)
    → i + length cs ≤ length m
    → write_all m i cs ≡ ok (overwrite m i cs)
unfolding write_all overwrite
write_all-ok m i [] h = refl
write_all-ok m i (c ∷ cs) h =
    rw (store-ok m i c (omega arith))
      (write_all-ok (set m i c) (i + 1) cs (omega (arith, length-set m i c)))

-- A run that does not fit is a write out of bounds.
pub write_all-fault :
    (m : Object) (i : ℕ) (cs : List Cell)
    → i ≤ length m
    → length m < i + length cs
    → write_all m i cs ≡ fault
unfolding write_all
write_all-fault m i [] h k = absurd (omega arith)
write_all-fault m i (c ∷ cs) h k = ground (
  arith,
  store-ok m i c,
  store-fault m i c,
  write_all-fault (set m i c) (i + 1) cs,
  length-set m i c,
)

pub write_all-append :
    (m : Object) (i : ℕ) (xs ys : List Cell)
    → write_all m i (xs ++ ys) ≡ (write_all m i xs >>= λ m'. write_all m' (i + length xs) ys)
unfolding write_all
write_all-append m i [] ys = ap (λ (k : ℕ). write_all m k ys) (omega arith)
write_all-append m i (x ∷ xs) ys = ground (
  arith,
  write_all-append (set m i x) (i + 1) xs ys,
  store-ok m i x,
  store-fault m i x,
  shift (i + 1) (length xs),
)
  where
    shift : (a b : ℕ) → i + suc (length xs) ≡ i + 1 + length xs
    shift a b = omega arith

pub get_elem?-set_self :
    (m : Object) (i : ℕ) (c : Cell) → i < length m → get_elem? (set m i c) i ≡ some c
get_elem?-set_self [] i c h = absurd (omega arith)
get_elem?-set_self (x ∷ m) zero c h = refl
get_elem?-set_self (x ∷ m) (suc i) c h = get_elem?-set_self m i c (omega arith)

pub get_elem?-set_ne :
    (m : Object) (i j : ℕ) (c : Cell) → i ≢ j → get_elem? (set m i c) j ≡ get_elem? m j
get_elem?-set_ne [] i j c h = refl
get_elem?-set_ne (x ∷ m) zero zero c h = absurd (h refl)
get_elem?-set_ne (x ∷ m) zero (suc j) c h = refl
get_elem?-set_ne (x ∷ m) (suc i) zero c h = refl
get_elem?-set_ne (x ∷ m) (suc i) (suc j) c h = get_elem?-set_ne m i j c (λ e. h (ap suc e))

pub get_elem?-overwrite_before :
    (m : Object) (i : ℕ) (cs : List Cell) (j : ℕ)
    → j < i
    → get_elem? (overwrite m i cs) j ≡ get_elem? m j
unfolding overwrite
get_elem?-overwrite_before m i [] j h = refl
get_elem?-overwrite_before m i (c ∷ cs) j h =
    get_elem?-overwrite_before (set m i c) (i + 1) cs j (omega arith)
    ∙ get_elem?-set_ne m i j c (omega arith)

pub get_elem?-overwrite :
    (m : Object) (i : ℕ) (cs : List Cell) (j : ℕ)
    → i + length cs ≤ length m
    → j < length cs
    → get_elem? (overwrite m i cs) (i + j) ≡ get_elem? cs j
unfolding overwrite
get_elem?-overwrite m i [] j h k = absurd (omega arith)
get_elem?-overwrite m i (c ∷ cs) zero h k =
    ap (get_elem? (overwrite (set m i c) (i + 1) cs)) (omega arith)
    ∙ get_elem?-overwrite_before (set m i c) (i + 1) cs i (omega arith)
    ∙ get_elem?-set_self m i c (omega arith)
get_elem?-overwrite m i (c ∷ cs) (suc j) h k =
    ap (get_elem? (overwrite (set m i c) (i + 1) cs)) (shift j)
    ∙ get_elem?-overwrite (set m i c) (i + 1) cs j (omega (arith, length-set m i c)) (omega arith)
  where
    shift : (j : ℕ) → i + suc j ≡ i + 1 + j
    shift j = omega arith

-- From index `i` on the pointer shows these cells.
abbrev pub Holds : CharPtr → ℕ → List Cell → Type 0
Holds p i [] = Unit
Holds p i (c ∷ cs) = (read_cell p i ≡ ok c) × Holds p (i + 1) cs

-- From index `i` on the pointer shows these characters.
abbrev pub Spells : CharPtr → ℕ → List ℕ → Type 0
Spells p i [] = Unit
Spells p i (c ∷ cs) = (read p i ≡ ok c) × Spells p (i + 1) cs

pub Holds-Spells : (p : CharPtr) (i : ℕ) (l : List ℕ) → Holds p i (map some l) → Spells p i l
unfolding read
Holds-Spells p i [] h = tt
Holds-Spells p i (c ∷ l) h = (rw h.0 refl, Holds-Spells p (i + 1) l h.1)

-- A pointer shows the cells that the object has behind its offset.
pub Holds-cells :
    (p : CharPtr) (i : ℕ) (cs : List Cell)
    → p.offset + i + length cs ≤ 2 ^ 64
    → ((j : ℕ) → j < length cs → get_elem? p.object (p.offset + i + j) ≡ get_elem? cs j)
    → Holds p i cs
unfolding read_cell
Holds-cells p i [] h at = tt
Holds-cells p i (c ∷ cs) h at = (
  rw (place, at 0 (omega arith)) refl,
  Holds-cells p (i + 1) cs (omega arith)
      (λ j k. ap (get_elem? p.object) (next j) ∙ at (suc j) (omega arith)),
)
  where
    place : add_size p.offset i ≡ p.offset + i + 0
    place = omega arith

    next : (j : ℕ) → p.offset + (i + 1) + j ≡ p.offset + i + suc j
    next j = omega arith
