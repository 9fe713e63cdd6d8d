-- ===== src/Lifetime/Owns.antt =====
-- The blocks of memory of src/libs/cleanUpMaster.c, src/libs/msgQueue.c and src/libs/buffer.c,
-- counted: an allocation adds one, and what is freed is taken away.
use ipk_project.Prelude.{
  ◌≡◌, refl, ap, ◌∙◌, ℕ, ◌+◌, ◌≤◌, ◌==◌, Bool, if◌then◌else◌, Bool-cases, inl, inr, List, [], ◌∷◌,
  ◌++◌, Option, none, some, arith,
}
use ipk_project.Outcome.{Outcome, ok, fault, ◌>>=◌}
use ipk_project.Lifetime.{Allocator, Block, malloc, removed, free_block, free}

unfoldable pub one_if : Bool → ℕ
one_if b = if b then 1 else 0

-- how often an address is in a list
abbrev pub count : Block → List Block → ℕ
count a [] = 0
count a (b ∷ bs) = one_if (a == b) + count a bs

pub count-append : (a : Block) (xs ys : List Block) → count a (xs ++ ys) ≡ count a xs + count a ys
count-append a [] ys = omega arith
count-append a (x ∷ xs) ys = omega (arith, count-append a xs ys)

-- The live blocks are those of the list.
abbrev pub Owns : List Block → Allocator → Type 0
Owns xs s = (a : Block) → count a s.live ≡ count a xs

pub Owns-count :
    (xs ys : List Block) (s : Allocator)
    → Owns xs s
    → ((a : Block) → count a xs ≡ count a ys)
    → Owns ys s
Owns-count xs ys s h e a = h a ∙ e a

-- `run` returns, and has then freed the blocks `xs` and nothing else.
pub record Frees (run : Allocator → Outcome Allocator) (xs : List Block) : Type 0 where
  pub frees :
      (rest : List Block) (s : Allocator)
      → Owns (xs ++ rest) s
      → (s' : Allocator) × (run s ≡ ok s') × Owns rest s'

pub one_if_self : (a : Block) → one_if (a == a) ≡ 1
unfolding one_if
one_if_self a = ground arith

removed-found :
    (a : Block) (bs : List Block)
    → 1 ≤ count a bs
    → (cs : List Block) × (removed a bs ≡ some cs)
      × ((x : Block) → count x bs ≡ one_if (x == a) + count x cs)
unfolding one_if
removed-found a [] h = absurd (omega arith)
removed-found a (b ∷ bs) h = elim (Bool-cases (a == b)) [
  | inl e ↦ (bs, rw e refl, λ x. ground arith)
  | inr e ↦
      let (cs, f, k) = removed-found a bs (ground arith) in
      (b ∷ cs, rw (e, f) refl, λ x. omega (arith, k x))
]

pub Frees-free_block : (a : Block) → Frees (free_block a) (a ∷ [])
Frees-free_block a = record { frees = freed }
  where
    freed :
        (rest : List Block) (s : Allocator)
        → Owns ((a ∷ []) ++ rest) s
        → (s' : Allocator) × (free_block a s ≡ ok s') × Owns rest s'
    freed rest s h =
        let (cs, f, k) = removed-found a s.live (omega (arith, h a, one_if_self a)) in
        (
          record s { live = cs },
          ap (λ o. elim o [ some l ↦ ok (record s { live = l }) | none ↦ fault ]) f,
          λ x. omega (arith, k x, h x),
        )

pub Frees-then :
    (f g : Allocator → Outcome Allocator) (xs ys : List Block)
    → Frees f xs
    → Frees g ys
    → Frees (λ s. f s >>= g) (xs ++ ys)
Frees-then f g xs ys hf hg = record { frees = freed }
  where
    freed :
        (rest : List Block) (s : Allocator)
        → Owns ((xs ++ ys) ++ rest) s
        → (s' : Allocator) × (f s >>= g ≡ ok s') × Owns rest s'
    freed rest s h =
        let (s1, e1, h1) = hf.frees (ys ++ rest) s (λ a. omega (
          arith,
          h a,
          count-append a (xs ++ ys) rest,
          count-append a xs ys,
          count-append a xs (ys ++ rest),
          count-append a ys rest,
        )) in
        let (s2, e2, h2) = hg.frees rest s1 h1 in (s2, rw (e1, e2) refl, h2)

abbrev pub optional : Option Block → List Block
optional none = []
optional (some a) = a ∷ []

pub Frees-free : (o : Option Block) → Frees (free o) (optional o)
Frees-free none = record { frees = λ rest s h. (s, refl, h) }
Frees-free (some a) = Frees-free_block a

-- An allocation adds its block.
pub Owns-malloc :
    (rest : List Block) (s : Allocator) → Owns rest s → Owns (s.next ∷ rest) (malloc s).1
Owns-malloc rest s h a = ap (λ n. one_if (a == s.next) + n) (h a)
