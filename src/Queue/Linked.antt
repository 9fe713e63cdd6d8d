-- ===== src/Queue/Linked.antt =====
-- The linked list of src/libs/msgQueue.c with its nodes and pointers. A message lives in a node of
-- the heap; malloc() gives the next address that was never used, and free() empties one. What
-- createMessage() and queueAddMessageOnlyID() put into a node is the message of `Queue`.
pub mod Chain
pub mod Add
pub mod Remove
pub mod First
pub mod Refinement
use ipk_project.Prelude.{
  ℕ, zero, suc, ◌+◌, ◌-◌, ◌%◌, ◌^◌, not, Bool, true, false, ◌&&◌, Option, none, some, List, [], ◌∷◌,
  ◌==◌, if◌then◌else◌,
}
use ipk_project.Outcome.{Outcome, ok, blocked, ◌>>=◌}
use ipk_project.Memory.{or_fault, is_null}
use ipk_project.Utils.{convert_2bytes_to_u16_int}
use ipk_project.Queue.{Message, char_eq_uchar, write_id, buffer_at}
use ipk_project.Queue.Types.{MsgFlags, flags_eq, MsgType, uchar2msg_type}

-- a Message* that is not NULL
abbrev pub Address : Type 0
Address = ℕ

-- a message and its `behindMe`, which malloc() leaves unset (`none`)
pub record Node : Type 0 where
  pub message : Message
  pub behind_me : Option (Option Address)

pub record Heap : Type 0 where
  pub next : Address
  pub cell : Address → Option Node

abbrev pub empty_heap : Heap
empty_heap = record { next = 0; cell = λ a. none }

abbrev pub write : Heap → Address → Option Node → Heap
write h a n = record h { cell = λ x. if a == x then n else h.cell x }

-- struct MessageQueue, without its lock
pub record LinkedQueue : Type 0 where
  pub first : Option Address
  pub last : Option Address
  pub len : ℕ

abbrev pub linked_queue_init : LinkedQueue
linked_queue_init = record { first = none; last = none; len = 0 }

-- a queue and the heap with its nodes
abbrev pub Linked : Type 0
Linked = Heap × LinkedQueue

-- malloc() of a node, filled with a message; nothing is written to its `behindMe`.
abbrev pub allocate : Heap → Message → Address × Heap
allocate h m = (
  h.next,
  write (record h { next = h.next + 1 }) h.next (some (record { message = m; behind_me = none })),
)

-- `p->behindMe = q`
unfoldable pub set_behind : Heap → Address → Option Address → Outcome Heap
set_behind h a q = do
  n ← or_fault (h.cell a)
  ok (write h a (some (record n { behind_me = some q })))

unfoldable pub linked_add_message : Linked → Message → Outcome Linked
linked_add_message (h, q) m = do
  let (new, h) = allocate h m
  let first = if is_null q.first then some new else q.first
  h ← elim q.last [ none ↦ ok h | some last ↦ set_behind h last (some new) ]
  h ← set_behind h new none
  ok (h, record { first = first; last = some new; len = q.len + 1 })

-- queueAddMessagePriority(), and the end of queueAddMessageOnlyID(), which is the same
unfoldable pub linked_add_message_priority : Linked → Message → Outcome Linked
linked_add_message_priority (h, q) m = do
  let (new, h) = allocate h m
  let last = if is_null q.last then some new else q.last
  h ← set_behind h new q.first
  ok (h, record { first = some new; last = last; len = q.len + 1 })

abbrev pub same_address : Option Address → Option Address → Bool
same_address none none = true
same_address (some a) (some b) = a == b
same_address _ _ = false

unfoldable pub linked_pop_message : Linked → Outcome Linked
linked_pop_message (h, q) = if q.len == 0 then ok (h, q) else do
  old_first ← or_fault q.first
  n ← or_fault (h.cell old_first)
  first ← or_fault n.behind_me
  let last = if same_address (some old_first) q.last then none else q.last
  ok (write h old_first none, record { first = first; last = last; len = q.len - 1 })

-- The loop of queuePopAllMessages(), with as many rounds as messages; one that goes on is blocked.
unfoldable pub pop_all_loop : ℕ → Linked → Outcome Linked
pop_all_loop zero (h, q) = if q.len == 0 then ok (h, q) else blocked
pop_all_loop (suc rounds) (h, q) = elim (q.len == 0) [
  | true ↦ ok (h, q)
  | false ↦ linked_pop_message (h, q) >>= λ l. pop_all_loop rounds l
]

unfoldable pub linked_pop_all_messages : Linked → Outcome Linked
unfolding pop_all_loop
linked_pop_all_messages (h, q) = do
  (h, q) ← pop_all_loop q.len (h, q)
  ok (h, record q { first = none; last = none })

unfoldable pub linked_get_message : Linked → Outcome (Option Message)
linked_get_message (h, q) = elim q.first [
  | none ↦ ok none
  | some a ↦ if q.len == 0 then ok none else (or_fault (h.cell a) >>= λ n. ok (some n.message))
]

-- The walk of queueContainsMessageId() from a node on; a walk that goes on is blocked.
unfoldable pub contains_walk : ℕ → Heap → Option Address → ℕ → ℕ → ℕ → Outcome Bool
contains_walk rounds h none high low type = ok false
contains_walk zero h (some a) high low type = blocked
contains_walk (suc rounds) h (some a) high low type = do
  n ← or_fault (h.cell a)
  let m = n.message
  let found = char_eq_uchar high m.send_count && (char_eq_uchar low m.confirmed && type == m.type)
  let rest = or_fault n.behind_me >>= λ p. contains_walk rounds h p high low type
  if found then ok true else rest

unfoldable pub linked_contains : Linked → ℕ → ℕ → ℕ → Outcome Bool
unfolding contains_walk
linked_contains (h, q) high low type = contains_walk q.len h q.first high low type

-- the message that `queue->first` points to
unfoldable pub linked_first : Linked → Outcome Message
linked_first (h, q) = do a ← or_fault q.first; n ← or_fault (h.cell a); ok n.message

-- `queue->first` with its fields changed
unfoldable pub linked_update_first : Linked → (Message → Outcome Message) → Outcome Linked
linked_update_first (h, q) f = do
  a ← or_fault q.first
  n ← or_fault (h.cell a)
  m ← f n.message
  ok (write h a (some (record n { message = m })), q)

unfoldable pub linked_message_sended : Linked → Outcome Linked
linked_message_sended l =
    linked_update_first l λ m. ok (record m { send_count = (m.send_count + 1) % 2 ^ 8 })

unfoldable pub linked_get_sended_counter : Linked → Outcome ℕ
linked_get_sended_counter l = do m ← linked_first l; ok m.send_count

unfoldable pub linked_set_message_id : Linked → ℕ → Outcome Linked
linked_set_message_id l counter = elim l.1.first [
  | none ↦ ok l
  | some a ↦ do
    m ← linked_first l
    if not (flags_eq m.msg_flags MsgFlags.confirm) && not (flags_eq m.msg_flags MsgFlags.nok_reply)
        then linked_update_first l (write_id counter)
        else ok l
]

unfoldable pub linked_get_message_id : Linked → Outcome ℕ
linked_get_message_id l = elim l.1.first [
  | none ↦ ok 0
  | some a ↦ do
    m ← linked_first l
    b ← or_fault m.buffer
    low ← buffer_at b 1
    high ← buffer_at b 2
    ok (convert_2bytes_to_u16_int low high)
]

unfoldable pub linked_get_message_flags : Linked → Outcome MsgFlags
linked_get_message_flags l = do m ← linked_first l; ok m.msg_flags

unfoldable pub linked_set_message_flags : Linked → MsgFlags → Outcome Linked
linked_set_message_flags l new_flag = elim l.1.first [
  | none ↦ ok l
  | some a ↦ linked_update_first l λ m. ok (record m { msg_flags = new_flag })
]

unfoldable pub linked_get_message_msg_type : Linked → Outcome MsgType
linked_get_message_msg_type l = elim l.1.first [
  | none ↦ ok MsgType.unknown
  | some a ↦ do m ← linked_first l; ok (uchar2msg_type m.type)
]
