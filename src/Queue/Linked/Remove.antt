-- ===== src/Queue/Linked/Remove.antt =====
-- Taking messages from a linked queue, and looking at it.
use ipk_project.Prelude.{
  ℕ, zero, suc, ◌-◌, ◌≡◌, ◌≢◌, ◌≤◌, refl, false, none, some, [], ◌∷◌, ◌==◌, if◌then◌else◌, arith,
  length, ◌&&◌, inl, inr, Bool-cases,
}
use ipk_project.Outcome.{ok}
use ipk_project.Queue.{Message, contains_id, char_eq_uchar}
use ipk_project.Queue.Linked.{
  Address, Heap, Linked, write, linked_pop_message, pop_all_loop, linked_pop_all_messages,
  contains_walk, same_address,
}
use ipk_project.Queue.Linked.Chain.{
  Cells, Chain, IsQueue, Apart, head_address, last_address, messages_of, last-ne, last_of_cons,
  Chain-frame, same-write,
}

abbrev pub rest_of : Cells → Cells
rest_of [] = []
rest_of (c ∷ cs) = cs

last-pop :
    (a : Address) (m : Message) (cs : Cells)
    → Apart a cs
    → (if same_address (some a) (last_address ((a, m) ∷ cs))
        then none
        else last_address ((a, m) ∷ cs))
      ≡ last_address cs
last-pop a m [] p = ground arith
last-pop a m (c ∷ cs) p =
    let (l, e) = last_of_cons c cs in rw e (other l (last-ne a l (c ∷ cs) e p))
  where
    other :
        (l : Address) → l ≢ a → (if same_address (some a) (some l) then none else some l) ≡ some l
    other l n = ground arith

-- Popping a message leaves the rest of the queue; an empty queue stays.
pub linked_pop_message-IsQueue :
    (l : Linked) (cs : Cells)
    → IsQueue l cs
    → (l' : Linked) × (linked_pop_message l ≡ ok l') × IsQueue l' (rest_of cs)
unfolding linked_pop_message
linked_pop_message-IsQueue l [] q = (l, rw q.len refl, q)
linked_pop_message-IsQueue l ((a, m) ∷ cs) q =
    let more : (l.1.len == 0) ≡ false = ground (arith, q.len) in
    let less : l.1.len - 1 ≡ length cs = omega (arith, q.len) in
    (
      (
        write l.0 a none,
        record { first = head_address cs; last = last_address cs; len = length cs },
      ),
      rw (more, less, q.first, q.chain.0, q.last, last-pop a m cs q.chain.2) refl,
      record {
        chain =
            Chain-frame l.0 (write l.0 a none) cs q.chain.3 (omega arith)
              (same-write l.0 a none cs q.chain.2);
        first = refl;
        last = refl;
        len = refl;
      },
    )

pop_all_loop-IsQueue :
    (rounds : ℕ) (l : Linked) (cs : Cells)
    → length cs ≤ rounds
    → IsQueue l cs
    → (l' : Linked) × (pop_all_loop rounds l ≡ ok l') × IsQueue l' []
unfolding pop_all_loop
pop_all_loop-IsQueue zero l [] h q = (l, rw q.len refl, q)
pop_all_loop-IsQueue zero l (c ∷ cs) h q = absurd (omega arith)
pop_all_loop-IsQueue (suc rounds) l [] h q = (l, rw q.len refl, q)
pop_all_loop-IsQueue (suc rounds) l (c ∷ cs) h q =
    let (l1, e1, q1) = linked_pop_message-IsQueue l (c ∷ cs) q in
    let (l2, e2, q2) = pop_all_loop-IsQueue rounds l1 cs (omega arith) q1 in
    let more : (l.1.len == 0) ≡ false = ground (arith, q.len) in
    (l2, rw (pop_all_loop, more, e1) e2, q2)

-- The loop that pops all messages ends, with the queue empty.
pub linked_pop_all_messages-IsQueue :
    (l : Linked) (cs : Cells)
    → IsQueue l cs
    → (l' : Linked) × (linked_pop_all_messages l ≡ ok l') × IsQueue l' []
unfolding linked_pop_all_messages
linked_pop_all_messages-IsQueue l cs q =
    let (l1, e1, q1) = pop_all_loop-IsQueue l.1.len l cs (omega (arith, q.len)) q in
    (
      (l1.0, record l1.1 { first = none; last = none }),
      rw e1 refl,
      record { chain = tt; first = refl; last = refl; len = q1.len },
    )

pub contains_walk-contains_id :
    (h : Heap) (cs : Cells) (rounds high low type : ℕ)
    → Chain h cs
    → length cs ≤ rounds
    → contains_walk rounds h (head_address cs) high low type
      ≡ ok (contains_id (messages_of cs) high low type)
unfolding contains_walk contains_id
contains_walk-contains_id h [] zero high low type c n = refl
contains_walk-contains_id h [] (suc rounds) high low type c n = refl
contains_walk-contains_id h ((a, m) ∷ cs) zero high low type c n = absurd (omega arith)
contains_walk-contains_id h ((a, m) ∷ cs) (suc rounds) high low type c n =
    let walk = contains_walk-contains_id h cs rounds high low type c.3 (omega arith) in
    elim (Bool-cases
      (char_eq_uchar high m.send_count && (char_eq_uchar low m.confirmed && type == m.type))) [
        | inl found ↦ rw (contains_walk, c.0, contains_id, found) refl
        | inr other ↦ rw (contains_walk, c.0, contains_id, other) walk
      ]
