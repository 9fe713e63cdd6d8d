-- ===== src/Queue/Linked/Chain.antt =====
-- Chains of nodes: which messages a linked queue holds.
use ipk_project.Prelude.{
  ◌≡◌, ◌≢◌, ◌<◌, ◌≤◌, refl, ◌∙◌, Option, none, some, List, [], ◌∷◌, map, arith, length, All,
}
use ipk_project.Queue.{Message}
use ipk_project.Queue.Linked.{Address, Node, Heap, Linked, write}

-- the address and the message of each node, in order
abbrev pub Cells : Type 0
Cells = List (Address × Message)

abbrev pub messages_of : Cells → List Message
messages_of cs = map (λ c. c.1) cs

abbrev pub head_address : Cells → Option Address
head_address [] = none
head_address ((a, m) ∷ cs) = some a

abbrev pub last_address : Cells → Option Address
last_address [] = none
last_address ((a, m) ∷ []) = some a
last_address (c ∷ d ∷ cs) = last_address (d ∷ cs)

-- `a` is the address of no cell.
abbrev pub Apart : Address → Cells → Type 0
Apart a cs = All (λ (c : Address × Message). c.0 ≢ a) cs

-- The nodes lead from one to the next, end in NULL, and are all different and below `next`.
abbrev pub Chain : Heap → Cells → Type 0
Chain h [] = Unit
Chain h ((a, m) ∷ cs) =
    (h.cell a ≡ some (record { message = m; behind_me = some (head_address cs) }))
    × (a < h.next)
    × Apart a cs
    × Chain h cs

-- A queue in a heap holds these cells.
pub record IsQueue (l : Linked) (cs : Cells) : Type 0 where
  pub chain : Chain l.0 cs
  pub first : l.1.first ≡ head_address cs
  pub last : l.1.last ≡ last_address cs
  pub len : l.1.len ≡ length cs

-- A chain survives a change of other cells.
pub Chain-frame :
    (h h' : Heap) (cs : Cells)
    → Chain h cs
    → h.next ≤ h'.next
    → All (λ (c : Address × Message). h'.cell c.0 ≡ h.cell c.0) cs
    → Chain h' cs
Chain-frame h h' [] c n s = tt
Chain-frame h h' ((a, m) ∷ cs) c n s =
    (s.0 ∙ c.0, omega (arith, c.1), c.2, Chain-frame h h' cs c.3 n s.1)

pub same-write :
    (h : Heap) (a : Address) (n : Option Node) (cs : Cells)
    → Apart a cs
    → All (λ (c : Address × Message). (write h a n).cell c.0 ≡ h.cell c.0) cs
same-write h a n [] p = tt
same-write h a n ((b, m) ∷ cs) p = (ground (arith, p.0), same-write h a n cs p.1)

-- The next address is that of no cell of a chain.
pub Apart-next : (h : Heap) (cs : Cells) → Chain h cs → Apart h.next cs
Apart-next h [] c = tt
Apart-next h ((a, m) ∷ cs) c = ((λ e. absurd (omega (arith, c.1, e))), Apart-next h cs c.3)

pub last_of_cons :
    (c : Address × Message) (cs : Cells) → (b : Address) × (last_address (c ∷ cs) ≡ some b)
last_of_cons (b, x) [] = (b, refl)
last_of_cons c (d ∷ cs) = last_of_cons d cs

pub last-ne : (a l : Address) (cs : Cells) → last_address cs ≡ some l → Apart a cs → l ≢ a
last-ne a l [] e p = absurd cc
last-ne a l ((b, m) ∷ []) e p = λ k. p.0 cc
last-ne a l ((b, m) ∷ d ∷ cs) e p = last-ne a l (d ∷ cs) e p.1
