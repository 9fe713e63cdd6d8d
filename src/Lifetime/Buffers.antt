-- ===== src/Lifetime/Buffers.antt =====
-- The blocks of the buffers: what resizing and copying do with them (src/libs/buffer.c).
use ipk_project.Prelude.{◌≡◌, refl, ℕ, some, Bool-cases, inl, inr, leb, ltb, List, ◌++◌}
use ipk_project.Outcome.{Outcome, ok}
use ipk_project.Lifetime.{Allocator, Block, malloc, DataBlock, data_resize, data_copy}
use ipk_project.Lifetime.Owns.{Owns, Owns-malloc, Frees-free, optional}

-- `run` returns, and owns the blocks of its value where those of `xs` were.
abbrev pub Trades {ℓ} :
    {A : Type ℓ} → Outcome (A × Allocator) → (A → List Block) → List Block → Allocator → Type ℓ
Trades {A} run blocks rest s =
    (x : A) × (s' : Allocator) × (run ≡ ok (x, s')) × Owns (blocks x ++ rest) s'

pub data_resize-Owns :
    (b : DataBlock) (n : ℕ) (rest : List Block) (s : Allocator)
    → Owns (optional b.data_at ++ rest) s
    → Trades (data_resize b n s) (λ b. optional b.data_at) rest s
unfolding data_resize
data_resize-Owns b n rest s h = elim (Bool-cases (leb n b.allocated)) [
  | inl e ↦ (b, s, rw e refl, h)
  | inr e ↦
      let (s1, e1, h1) = (Frees-free b.data_at).frees rest s h in
      (
        record { data_at = some s1.next; allocated = n },
        (malloc s1).1,
        rw (e, e1) refl,
        Owns-malloc rest s1 h1,
      )
]

pub data_copy-Owns :
    (b : DataBlock) (used : ℕ) (rest : List Block) (s : Allocator)
    → Owns (optional b.data_at ++ rest) s
    → Trades (data_copy b used s) (λ b. optional b.data_at) rest s
unfolding data_copy
data_copy-Owns b used rest s h = elim (Bool-cases (ltb b.allocated used)) [
  | inl e ↦ let (b', s', r, o) = data_resize-Owns b used rest s h in (b', s', rw (e, r) refl, o)
  | inr e ↦ (b, s, rw e refl, h)
]
