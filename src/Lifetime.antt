-- ===== src/Lifetime.antt =====
-- queueDestroy() of src/libs/msgQueue.c, bufferDestroy() of src/libs/buffer.c and the allocations of
-- both: which blocks of memory they hold, and when they free them. A block is its address; NULL is
-- `none`. An allocation succeeds, and its address was not used before.
pub mod Owns
pub mod Buffers
pub mod Queue
pub mod Usage
pub mod Count
pub mod Interfaces
pub mod Destroy
use ipk_project.Prelude.{
  ℕ, suc, ◌==◌, leb, List, [], ◌∷◌, ◌++◌, Option, none, some, ltb, if◌then◌else◌,
}
use ipk_project.Outcome.{Outcome, ok, error, fault, ErrorCode, ◌>>=◌}

pub record Allocator : Type 0 where
  pub live : List ℕ
  pub next : ℕ

abbrev pub Block : Type 0
Block = ℕ

abbrev pub Allocating : Type 0 → Type 0
Allocating A = Outcome (A × Allocator)

abbrev pub malloc : Allocator → Block × Allocator
malloc s = (s.next, record { live = s.next ∷ s.live; next = suc s.next })

abbrev pub removed : Block → List Block → Option (List Block)
removed a [] = none
removed a (b ∷ bs) =
    let rest = removed a bs in
    if a == b then some bs else elim rest [ some cs ↦ some (b ∷ cs) | none ↦ none ]

-- free() of a block that is not live is undefined behaviour.
abbrev pub free_block : Block → Allocator → Outcome Allocator
free_block a s = elim (removed a s.live) [ some l ↦ ok (record s { live = l }) | none ↦ fault ]

-- free(), which does nothing with NULL
abbrev pub free : Option Block → Allocator → Outcome Allocator
free none s = ok s
free (some a) s = free_block a s

-- the fields of a Buffer that decide about its memory
pub record DataBlock : Type 0 where
  pub data_at : Option Block
  pub allocated : ℕ

abbrev pub data_block_init : DataBlock
data_block_init = record { data_at = none; allocated = 0 }

-- realloc(): the old block ends and a new one begins
abbrev pub realloc : Option Block → Allocator → Allocating Block
realloc old s = free old s >>= (λ s. ok (malloc s))

unfoldable pub data_resize : DataBlock → ℕ → Allocator → Allocating DataBlock
data_resize b new_size s =
    if leb new_size b.allocated
    then ok (b, s)
    else realloc b.data_at s
      >>= (λ r. ok (record { data_at = some r.0; allocated = new_size }, r.1))

-- bufferDestroy()
abbrev pub data_destroy : DataBlock → Allocator → Outcome Allocator
data_destroy b s = free b.data_at s

-- A Message with its block and, where it has one, its Buffer.
pub data Owner : Type 0 where
  only_id : Block → Owner
  with_buffer : Block → Block → DataBlock → Owner

-- a MessageQueue: its block and its messages
pub record OwnedQueue : Type 0 where
  pub queue_at : Block
  pub owners : List Owner

-- bufferCopy() from a buffer with `used` bytes
unfoldable pub data_copy : DataBlock → ℕ → Allocator → Allocating DataBlock
data_copy b used s = if ltb b.allocated used then data_resize b used s else ok (b, s)

-- createMessage() of a buffer with `used` bytes
unfoldable pub create_owner : ℕ → Allocator → Allocating Owner
create_owner used s =
    let (message, s1) = malloc s in
    let (buffer, s2) = malloc s1 in
    data_copy data_block_init used s2 >>= (λ r. ok (Owner.with_buffer message buffer r.0, r.1))

-- queueAddMessage()
unfoldable pub owned_add_message : OwnedQueue → ℕ → Allocator → Allocating OwnedQueue
owned_add_message queue used s =
    create_owner used s >>= (λ r. ok (record queue { owners = queue.owners ++ (r.0 ∷ []) }, r.1))

-- queueAddMessagePriority()
unfoldable pub owned_add_message_priority : OwnedQueue → ℕ → Allocator → Allocating OwnedQueue
owned_add_message_priority queue used s =
    create_owner used s >>= (λ r. ok (record queue { owners = r.0 ∷ queue.owners }, r.1))

-- queueAddMessageOnlyID()
unfoldable pub owned_add_message_only_id : OwnedQueue → ℕ → Allocator → Allocating OwnedQueue
owned_add_message_only_id queue used s =
    let (message, s1) = malloc s in
    if ltb used 3
    then error ErrorCode.internal_bad_arg
    else ok (record queue { owners = Owner.only_id message ∷ queue.owners }, s1)

abbrev pub owner_destroy : Owner → Allocator → Outcome Allocator
owner_destroy (Owner.only_id message) s = free_block message s
owner_destroy (Owner.with_buffer message buffer b) s =
    data_destroy b s >>= (λ s. free_block buffer s >>= free_block message)

-- queuePopMessage()
abbrev pub owned_pop_message : OwnedQueue → Allocator → Allocating OwnedQueue
owned_pop_message queue s = elim queue.owners [
  | [] ↦ ok (queue, s)
  | o ∷ os ↦ owner_destroy o s >>= (λ s. ok (record queue { owners = os }, s))
]

abbrev pub owners_destroy : List Owner → Allocator → Outcome Allocator
owners_destroy [] s = ok s
owners_destroy (o ∷ os) s = owner_destroy o s >>= (λ s. owners_destroy os s)

-- queuePopAllMessages()
abbrev pub owned_pop_all_messages : OwnedQueue → Allocator → Allocating OwnedQueue
owned_pop_all_messages queue s =
    owners_destroy queue.owners s >>= (λ s. ok (record queue { owners = [] }, s))

abbrev pub owned_destroy : OwnedQueue → Allocator → Outcome Allocator
owned_destroy queue s = owned_pop_all_messages queue s >>= (λ r. free_block r.0.queue_at r.1)
