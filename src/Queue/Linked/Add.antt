-- ===== src/Queue/Linked/Add.antt =====
-- Adding a message to a linked queue, at its end and at its start.
use ipk_project.Prelude.{
  suc, ◌+◌, ◌≡◌, ◌≢◌, ◌<◌, refl, sym, ap, subst, ◌∙◌, Option, none, some, [], ◌∷◌, ◌++◌,
  if◌then◌else◌, arith, length-append, All,
}
use ipk_project.Outcome.{ok}
use ipk_project.Memory.{is_null}
use ipk_project.Queue.{Message}
use ipk_project.Queue.Linked.{
  Address, Node, Heap, Linked, write, allocate, set_behind, linked_add_message,
  linked_add_message_priority,
}
use ipk_project.Queue.Linked.Chain.{
  Cells, Chain, IsQueue, Apart, last_address, last-ne, last_of_cons, Chain-frame, Apart-next,
}

abbrev node : Message → Option Address → Node
node m p = record { message = m; behind_me = some p }

-- as malloc() leaves it
abbrev unset : Message → Node
unset m = record { message = m; behind_me = none }

last-lt : (h : Heap) (l : Address) (cs : Cells) → last_address cs ≡ some l → Chain h cs → l < h.next
last-lt h l [] e c = absurd cc
last-lt h l ((b, m) ∷ []) e c = let same : b ≡ l = cc in omega (arith, c.1, same)
last-lt h l ((b, m) ∷ d ∷ cs) e c = last-lt h l (d ∷ cs) e c.3

last-cell :
    (h : Heap) (l : Address) (cs : Cells)
    → last_address cs ≡ some l
    → Chain h cs
    → (m : Message) × (h.cell l ≡ some (node m none))
last-cell h l [] e c = absurd cc
last-cell h l ((b, m) ∷ []) e c =
    let same : b ≡ l = cc in (m, subst (λ x. h.cell x ≡ some (node m none)) same c.0)
last-cell h l ((b, m) ∷ d ∷ cs) e c = last-cell h l (d ∷ cs) e c.3

last-snoc : (cs : Cells) (a : Address) (m : Message) → last_address (cs ++ (a, m) ∷ []) ≡ some a
last-snoc [] a m = refl
last-snoc (c ∷ []) a m = refl
last-snoc (c ∷ d ∷ cs) a m = last-snoc (d ∷ cs) a m

Apart-snoc :
    (x : Address) (cs : Cells) (a : Address) (m : Message)
    → a ≢ x
    → Apart x cs
    → Apart x (cs ++ (a, m) ∷ [])
Apart-snoc x [] a m n p = (n, tt)
Apart-snoc x (c ∷ cs) a m n p = (p.0, Apart-snoc x cs a m n p.1)

-- What the heap is after a node was linked behind the last one.
record LinkedBehind (h h' : Heap) (l : Address) (m : Message) : Type 0 where
  next : h'.next ≡ suc h.next
  new : h'.cell h.next ≡ some (node m none)
  linked : (x : Message) → h.cell l ≡ some (node x none) → h'.cell l ≡ some (node x (some h.next))
  kept : (a : Address) → a ≢ h.next → a ≢ l → h'.cell a ≡ h.cell a

Chain-snoc :
    (h h' : Heap) (l : Address) (m : Message) (cs : Cells)
    → LinkedBehind h h' l m
    → last_address cs ≡ some l
    → Chain h cs
    → Chain h' (cs ++ (h.next, m) ∷ [])
Chain-snoc h h' l m [] b e c = absurd cc
Chain-snoc h h' l m ((a, x) ∷ []) b e c =
    let same : a ≡ l = cc in
    (
      rw same (b.linked x (rw (← same) c.0)),
      omega (arith, c.1, b.next),
      ((λ k. absurd (omega (arith, c.1, k))), tt),
      (b.new, omega (arith, b.next), tt, tt),
    )
Chain-snoc h h' l m ((a, x) ∷ (d, y) ∷ cs) b e c = (
  b.kept a (λ k. absurd (omega (arith, c.1, k))) (λ k. last-ne a l ((d, y) ∷ cs) e c.2 (sym k))
      ∙ c.0,
  omega (arith, c.1, b.next),
  Apart-snoc a ((d, y) ∷ cs) h.next m (λ k. absurd (omega (arith, c.1, k))) c.2,
  Chain-snoc h h' l m ((d, y) ∷ cs) b e c.3,
)

set_behind-ok :
    (h : Heap) (a : Address) (m : Message) (p : Option (Option Address)) (q : Option Address)
    → h.cell a ≡ some (record { message = m; behind_me = p })
    → set_behind h a q ≡ ok (write h a (some (node m q)))
unfolding set_behind
set_behind-ok h a m p q e = rw e refl

cell-allocate : (h : Heap) (m : Message) → (allocate h m).1.cell h.next ≡ some (unset m)
cell-allocate h m = ground arith

cell-write_ne :
    (h : Heap) (a b : Address) (n : Option Node) → a ≢ b → (write h a n).cell b ≡ h.cell b
cell-write_ne h a b n e = ground arith

cell-write_self : (h : Heap) (a : Address) (n : Option Node) → (write h a n).cell a ≡ n
cell-write_self h a n = ground arith

-- A message that is added is the last of the queue.
pub linked_add_message-IsQueue :
    (l : Linked) (cs : Cells) (m : Message)
    → IsQueue l cs
    → (l' : Linked) × (linked_add_message l m ≡ ok l') × IsQueue l' (cs ++ (l.0.next, m) ∷ [])
unfolding linked_add_message
linked_add_message-IsQueue l [] m q =
    let h1 = (allocate l.0 m).1 in
    let h2 = write h1 l.0.next (some (node m none)) in
    (
      (h2, record { first = some l.0.next; last = some l.0.next; len = l.1.len + 1 }),
      rw (q.first, q.last, set_behind-ok h1 l.0.next m none none (cell-allocate l.0 m)) refl,
      record {
        chain = (cell-write_self h1 l.0.next (some (node m none)), omega arith, tt, tt);
        first = refl;
        last = refl;
        len = omega (arith, q.len);
      },
    )
linked_add_message-IsQueue l (c ∷ cs) m q =
    let (last, e) = last_of_cons c cs in
    let (x, old) = last-cell l.0 last (c ∷ cs) e q.chain in
    let below = last-lt l.0 last (c ∷ cs) e q.chain in
    let h1 = (allocate l.0 m).1 in
    let h2 = write h1 last (some (node x (some l.0.next))) in
    let h3 = write h2 l.0.next (some (node m none)) in
    let apart : l.0.next ≢ last = λ k. absurd (omega (arith, k, below)) in
    let apart' : last ≢ l.0.next = λ k. absurd (omega (arith, k, below)) in
    let old' =
      cell-write_ne (record l.0 { next = l.0.next + 1 }) l.0.next last (some (unset m)) apart
      ∙ old in
    let new' =
      cell-write_ne h1 last l.0.next (some (node x (some l.0.next))) apart' ∙ cell-allocate l.0 m in
    (
      (h3, record { first = some c.0; last = some l.0.next; len = l.1.len + 1 }),
      rw
          (
            q.first,
            q.last ∙ e,
            set_behind-ok h1 last x (some none) (some l.0.next) old',
            set_behind-ok h2 l.0.next m none none new',
          )
          refl,
      record {
        chain =
            Chain-snoc l.0 h3 last m (c ∷ cs)
              (record {
                next = omega arith;
                new = cell-write_self h2 l.0.next (some (node m none));
                linked = λ y k.
                    let same : x ≡ y = cc in
                    cell-write_ne h2 l.0.next last (some (node m none)) apart
                    ∙ cell-write_self h1 last (some (node x (some l.0.next)))
                    ∙ ap (λ (z : Message). some (node z (some l.0.next))) same;
                kept = λ a n n'. ground arith;
              })
              e q.chain;
        first = refl;
        last = sym (last-snoc (c ∷ cs) l.0.next m);
        len = omega (arith, q.len, length-append (c ∷ cs) ((l.0.next, m) ∷ []));
      },
    )

new_kept :
    (h : Heap) (n n' : Option Node) (cs : Cells)
    → Apart h.next cs
    → All
        (λ (c : Address × Message).
          (write (write (record h { next = h.next + 1 }) h.next n) h.next n').cell c.0 ≡ h.cell c.0)
        cs
new_kept h n n' [] p = tt
new_kept h n n' ((a, m) ∷ cs) p = (ground (arith, p.0), new_kept h n n' cs p.1)

last-cons :
    (p : Option Address) (cs : Cells) (a : Address) (m : Message)
    → p ≡ last_address cs
    → (if is_null p then some a else p) ≡ last_address ((a, m) ∷ cs)
last-cons p [] a m e = rw e refl
last-cons p (c ∷ cs) a m e = let (b, k) = last_of_cons c cs in rw (e, k) refl

-- A message that is added with priority is the first of the queue.
pub linked_add_message_priority-IsQueue :
    (l : Linked) (cs : Cells) (m : Message)
    → IsQueue l cs
    → (l' : Linked) × (linked_add_message_priority l m ≡ ok l') × IsQueue l' ((l.0.next, m) ∷ cs)
unfolding linked_add_message_priority
linked_add_message_priority-IsQueue l cs m q =
    let h1 = (allocate l.0 m).1 in
    let h2 = write h1 l.0.next (some (node m l.1.first)) in
    (
      (
        h2,
        record {
          first = some l.0.next;
          last = if is_null l.1.last then some l.0.next else l.1.last;
          len = l.1.len + 1;
        },
      ),
      rw (set_behind-ok h1 l.0.next m none l.1.first (cell-allocate l.0 m)) refl,
      record {
        chain = (
          cell-write_self h1 l.0.next (some (node m l.1.first)) ∙ ap (λ p. some (node m p)) q.first,
          omega arith,
          Apart-next l.0 cs q.chain,
          Chain-frame l.0 h2 cs q.chain (omega arith) (
              new_kept l.0 (some (unset m)) (some (node m l.1.first)) cs
                (Apart-next l.0 cs q.chain)),
        );
        first = refl;
        last = last-cons l.1.last cs l.0.next m q.last;
        len = omega (arith, q.len);
      },
    )
