-- ===== src/Lifetime/Queue.antt =====
-- The blocks of the queues: what adding and removing messages and destroying a queue do with them
-- (src/libs/msgQueue.c).
use ipk_project.Prelude.{◌≡◌, refl, ◌+◌, ℕ, suc, ◌≤◌, false, ltb, List, [], ◌∷◌, ◌++◌, arith}
use ipk_project.Outcome.{◌>>=◌}
use ipk_project.Lifetime.{
  Allocator, Block, malloc, free_block, data_block_init, data_destroy, Owner, OwnedQueue,
  create_owner, owned_add_message, owned_add_message_priority, owned_add_message_only_id,
  owner_destroy, owned_pop_message, owners_destroy, owned_pop_all_messages, owned_destroy,
}
use ipk_project.Lifetime.Owns.{
  Owns, Owns-malloc, Frees, Frees-then, Frees-free, Frees-free_block, optional, count, count-append,
}
use ipk_project.Lifetime.Buffers.{Trades, data_copy-Owns}

abbrev pub owner_blocks : Owner → List Block
owner_blocks (Owner.only_id message) = message ∷ []
owner_blocks (Owner.with_buffer message buffer b) = optional b.data_at ++ (buffer ∷ message ∷ [])

abbrev pub owners_blocks : List Owner → List Block
owners_blocks [] = []
owners_blocks (o ∷ os) = owner_blocks o ++ owners_blocks os

abbrev pub queue_blocks : OwnedQueue → List Block
queue_blocks q = owners_blocks q.owners ++ (q.queue_at ∷ [])

Frees-owner : (o : Owner) → Frees (owner_destroy o) (owner_blocks o)
Frees-owner (Owner.only_id message) = Frees-free_block message
Frees-owner (Owner.with_buffer message buffer b) =
    Frees-then (data_destroy b) (λ s. free_block buffer s >>= free_block message)
      (optional b.data_at) (buffer ∷ message ∷ []) (Frees-free b.data_at)
      (Frees-then (free_block buffer) (free_block message) (buffer ∷ []) (message ∷ [])
        (Frees-free_block buffer) (Frees-free_block message))

Frees-owners : (os : List Owner) → Frees (owners_destroy os) (owners_blocks os)
Frees-owners [] = record { frees = λ rest s h. (s, refl, h) }
Frees-owners (o ∷ os) =
    Frees-then (owner_destroy o) (owners_destroy os) (owner_blocks o) (owners_blocks os)
      (Frees-owner o) (Frees-owners os)

regroup :
    (q : OwnedQueue) (rest : List Block) (s : Allocator)
    → Owns (queue_blocks q ++ rest) s
    → Owns (owners_blocks q.owners ++ (q.queue_at ∷ rest)) s
regroup q rest s h a = omega (
  arith,
  h a,
  count-append a (queue_blocks q) rest,
  count-append a (owners_blocks q.owners) (q.queue_at ∷ []),
  count-append a (owners_blocks q.owners) (q.queue_at ∷ rest),
)

pub Frees-owned_destroy : (q : OwnedQueue) → Frees (owned_destroy q) (queue_blocks q)
Frees-owned_destroy q = record {
  frees = λ rest s h.
      let (s1, e1, h1) = (Frees-owners q.owners).frees (q.queue_at ∷ rest) s (regroup q rest s h) in
      let (s2, e2, h2) = (Frees-free_block q.queue_at).frees rest s1 h1 in
      (s2, rw (e1, e2) refl, h2);
}

create_owner-Owns :
    (used : ℕ) (rest : List Block) (s : Allocator)
    → Owns rest s
    → Trades (create_owner used s) owner_blocks rest s
unfolding create_owner
create_owner-Owns used rest s h =
    let m = s.next in
    let b = suc s.next in
    let h2 : Owns (b ∷ m ∷ rest) (malloc (malloc s).1).1 =
      Owns-malloc (m ∷ rest) (malloc s).1 (Owns-malloc rest s h) in
    let (d, s', e, o) =
      data_copy-Owns data_block_init used (b ∷ m ∷ rest) (malloc (malloc s).1).1 h2 in
    (
      Owner.with_buffer m b d,
      s',
      rw e refl,
      λ a. omega (
        arith,
        o a,
        count-append a (optional d.data_at) (b ∷ m ∷ rest),
        count-append a (optional d.data_at) (b ∷ m ∷ []),
        count-append a (optional d.data_at ++ (b ∷ m ∷ [])) rest,
      ),
    )

owners_blocks-append :
    (a : Block) (os ps : List Owner)
    → count a (owners_blocks (os ++ ps)) ≡ count a (owners_blocks os) + count a (owners_blocks ps)
owners_blocks-append a [] ps = omega arith
owners_blocks-append a (o ∷ os) ps = omega (
  arith,
  owners_blocks-append a os ps,
  count-append a (owner_blocks o) (owners_blocks (os ++ ps)),
  count-append a (owner_blocks o) (owners_blocks os),
)

-- where the messages of a queue have the blocks `xs` besides those of another, so has the queue
requeue :
    (q : OwnedQueue) (o : Owner) (os : List Owner) (rest : List Block) (s : Allocator)
    → ((a : Block)
        → count a (owners_blocks os) ≡ count a (owner_blocks o) + count a (owners_blocks q.owners))
    → Owns (owner_blocks o ++ (queue_blocks q ++ rest)) s
    → Owns (queue_blocks (record q { owners = os }) ++ rest) s
requeue q o os rest s more h a =
    let end = q.queue_at ∷ [] in
    omega (
      arith,
      h a,
      more a,
      count-append a (owner_blocks o) (queue_blocks q ++ rest),
      count-append a (queue_blocks q) rest,
      count-append a (owners_blocks q.owners) end,
      count-append a (owners_blocks os ++ end) rest,
      count-append a (owners_blocks os) end,
    )

pub owned_add_message-Owns :
    (q : OwnedQueue) (used : ℕ) (rest : List Block) (s : Allocator)
    → Owns (queue_blocks q ++ rest) s
    → Trades (owned_add_message q used s) queue_blocks rest s
unfolding owned_add_message
owned_add_message-Owns q used rest s h =
    let (o, s', e, k) = create_owner-Owns used (queue_blocks q ++ rest) s h in
    let os = q.owners ++ (o ∷ []) in
    (
      record q { owners = os },
      s',
      rw e refl,
      requeue q o os rest s'
          (λ a.
            omega
              (arith, owners_blocks-append a q.owners (o ∷ []), count-append a (owner_blocks o) []))
          k,
    )

pub owned_add_message_priority-Owns :
    (q : OwnedQueue) (used : ℕ) (rest : List Block) (s : Allocator)
    → Owns (queue_blocks q ++ rest) s
    → Trades (owned_add_message_priority q used s) queue_blocks rest s
unfolding owned_add_message_priority
owned_add_message_priority-Owns q used rest s h =
    let (o, s', e, k) = create_owner-Owns used (queue_blocks q ++ rest) s h in
    (
      record q { owners = o ∷ q.owners },
      s',
      rw e refl,
      requeue q o (o ∷ q.owners) rest s'
          (λ a. count-append a (owner_blocks o) (owners_blocks q.owners)) k,
    )

pub owned_add_message_only_id-Owns :
    (q : OwnedQueue) (used : ℕ) (rest : List Block) (s : Allocator)
    → 3 ≤ used
    → Owns (queue_blocks q ++ rest) s
    → Trades (owned_add_message_only_id q used s) queue_blocks rest s
unfolding owned_add_message_only_id
owned_add_message_only_id-Owns q used rest s long h =
    let enough : ltb used 3 ≡ false = ground arith in
    let o = Owner.only_id s.next in
    (
      record q { owners = o ∷ q.owners },
      (malloc s).1,
      rw enough refl,
      Owns-malloc (queue_blocks q ++ rest) s h,
    )

ungroup :
    (q : OwnedQueue) (o : Owner) (os : List Owner) (rest : List Block) (s : Allocator)
    → Owns (queue_blocks (record q { owners = o ∷ os }) ++ rest) s
    → Owns (owner_blocks o ++ (queue_blocks (record q { owners = os }) ++ rest)) s
ungroup q o os rest s h a =
    let end = q.queue_at ∷ [] in
    omega (
      arith,
      h a,
      count-append a (owner_blocks o) (queue_blocks (record q { owners = os }) ++ rest),
      count-append a (queue_blocks (record q { owners = os })) rest,
      count-append a (owners_blocks os) end,
      count-append a (queue_blocks (record q { owners = o ∷ os })) rest,
      count-append a (owners_blocks (o ∷ os)) end,
      count-append a (owner_blocks o) (owners_blocks os),
    )

pub owned_pop_message-Owns :
    (q : OwnedQueue) (rest : List Block) (s : Allocator)
    → Owns (queue_blocks q ++ rest) s
    → Trades (owned_pop_message q s) queue_blocks rest s
owned_pop_message-Owns q rest s h =
    elim q.owners
        as (λ os.
          Owns (queue_blocks (record q { owners = os }) ++ rest) s
          → Trades (owned_pop_message (record q { owners = os }) s) queue_blocks rest s) [
            | [] ↦ λ h. (record q { owners = [] }, s, refl, h)
            | o ∷ os ↦ λ h.
                let left = record q { owners = os } in
                let (s', e, k) =
                  (Frees-owner o).frees (queue_blocks left ++ rest) s (ungroup q o os rest s h) in
                (left, s', rw e refl, k)
          ]
      h

pub owned_pop_all_messages-Owns :
    (q : OwnedQueue) (rest : List Block) (s : Allocator)
    → Owns (queue_blocks q ++ rest) s
    → Trades (owned_pop_all_messages q s) queue_blocks rest s
owned_pop_all_messages-Owns q rest s h =
    let (s', e, k) = (Frees-owners q.owners).frees (q.queue_at ∷ rest) s (regroup q rest s h) in
    (record q { owners = [] }, s', rw e refl, k)
