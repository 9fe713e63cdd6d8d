-- ===== src/Memory/Spelling.antt =====
-- Strings that a pointer spells: parts of them, and pointers into them.
use ipk_project.Prelude.{
  ℕ, suc, ◌+◌, ◌^◌, ◌<◌, ◌≡◌, sym, ap, subst, ◌∙◌, List, [], ◌∷◌, ◌++◌, map, some, arith, length,
  length-map, get_elem?, take, get_elem?-take,
}
use ipk_project.Memory.{Object, CharPtr, add_size, read, read_cell, advance}
use ipk_project.Memory.Writes.{Spells, Holds-Spells, Holds-cells}

module _ (p : CharPtr) where
  pub Spells-first : (i : ℕ) (xs ys : List ℕ) → Spells p i (xs ++ ys) → Spells p i xs
  Spells-first i [] ys s = tt
  Spells-first i (x ∷ xs) ys s = (s.0, Spells-first (i + 1) xs ys s.1)

  pub Spells-rest : (i : ℕ) (xs ys : List ℕ) → Spells p i (xs ++ ys) → Spells p (i + length xs) ys
  Spells-rest i [] ys s = subst (λ k. Spells p k ys) (zero_more i) s
    where
      zero_more : (i : ℕ) → i ≡ i + 0
      zero_more i = omega arith
  Spells-rest i (x ∷ xs) ys s = subst (λ k. Spells p k ys) shift (Spells-rest (i + 1) xs ys s.1)
    where
      shift : i + 1 + length xs ≡ i + suc (length xs)
      shift = omega arith

  -- Seen from `&p[k]` the characters stand `k` places earlier.
  pub Spells-advance :
      (k i : ℕ) (l : List ℕ)
      → p.offset + k + i + length l < 2 ^ 64
      → Spells p (k + i) l
      → Spells (advance p k) i l
  unfolding read read_cell
  Spells-advance k i [] h s = tt
  Spells-advance k i (c ∷ l) h s =
      let same : add_size (add_size p.offset k) i ≡ add_size p.offset (k + i) = omega arith in
      let next : k + i + 1 ≡ k + (i + 1) = omega arith in
      (rw same s.0, Spells-advance k (i + 1) l (omega arith) (subst (λ j. Spells p j l) next s.1))

-- What stands behind a part of the characters.
pub Spells-after :
    (p : CharPtr) (k : ℕ) (xs ys : List ℕ)
    → k ≡ length xs
    → p.offset + k + length ys < 2 ^ 64
    → Spells p 0 (xs ++ ys)
    → Spells (advance p k) 0 ys
Spells-after p k xs ys e h s =
    Spells-advance p k 0 ys (omega arith)
      (subst (λ j. Spells p j ys) index (Spells-rest p 0 xs ys s))
  where
    index : 0 + length xs ≡ k + 0
    index = omega arith

-- The first cells of an object are what a pointer to it spells.
pub Spells-take :
    (o : Object) (l : List ℕ)
    → length l < 2 ^ 63
    → take (length l) o ≡ map some l
    → Spells (record { object = o; offset = 0 }) 0 l
Spells-take o l h e =
    Holds-Spells (record { object = o; offset = 0 }) 0 l
      (Holds-cells (record { object = o; offset = 0 }) 0 (map some l) (omega (arith, size))
        (λ j k.
          ap (get_elem? o) (zeros j)
          ∙ sym (get_elem?-take (length l) o j (omega (arith, size, k)))
          ∙ ap (λ cs. get_elem? cs j) e))
  where
    size : length (map some l) ≡ length l
    size = length-map some l

    zeros : (j : ℕ) → 0 + 0 + j ≡ j
    zeros j = omega arith
