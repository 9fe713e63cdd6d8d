-- ===== src/Queue.antt =====
-- src/libs/msgQueue.h and src/libs/msgQueue.c, with the linked list read as the list of its
-- messages, first message first.
pub mod Types
pub mod Repeated
pub mod Order
pub mod Linked
use ipk_project.Prelude.{
  ℕ, ◌+◌, ◌%◌, ◌^◌, ◌≡◌, Bool, true, false, Option, none, some, List, [], ◌∷◌, ◌++◌, ltb, leb, ◌==◌,
  if◌then◌else◌, length, ◌&&◌, ◌||◌, not,
}
use ipk_project.Outcome.{Outcome, ok, error, fault, blocked, ErrorCode, ◌>>=◌}
use ipk_project.Memory.{Object, CharPtr, or_fault, store, read}
use ipk_project.Utils.{break_u16_int_to_bytes, convert_2bytes_to_u16_int}
use ipk_project.Buffer.{Buffer, buffer_init, buffer_copy, put_byte}
use Types.{MsgFlags, MsgType, flags_eq, uchar2msg_type}

-- struct Message. The first union is `send_count`, which is also highMsgId; the second is
-- `confirmed`, the byte of the bool, which is also lowMsgId.
pub record Message : Type 0 where
  pub buffer : Option Buffer
  pub send_count : ℕ
  pub confirmed : ℕ
  pub type : ℕ
  pub msg_flags : MsgFlags

-- struct MessageQueue. `lock` tells whether the mutex is held.
pub record MessageQueue : Type 0 where
  pub messages : List Message
  pub lock : Bool

abbrev pub queue_init : MessageQueue
queue_init = record { messages = []; lock = false }

-- The mutex is not recursive: a thread that takes it twice waits for ever.
unfoldable pub queue_lock : MessageQueue → Outcome MessageQueue
queue_lock q = if q.lock then blocked else ok (record q { lock = true })

unfoldable pub queue_unlock : MessageQueue → MessageQueue
queue_unlock q = record q { lock = false }

unfoldable pub queue_get_message : MessageQueue → Option Message
queue_get_message q = elim q.messages [ [] ↦ none | m ∷ rest ↦ some m ]

unfoldable pub create_message : Buffer → MsgFlags → ℕ → Outcome Message
create_message buffer flags type = do
  copy ← buffer_copy buffer_init buffer
  ok (record { buffer = some copy; send_count = 0; confirmed = 0; type = type; msg_flags = flags })

unfoldable pub queue_add_message : MessageQueue → Buffer → MsgFlags → ℕ → Outcome MessageQueue
queue_add_message q buffer flags type = do
  m ← create_message buffer flags type
  ok (record q { messages = q.messages ++ m ∷ [] })

unfoldable pub queue_add_message_priority :
    MessageQueue → Buffer → MsgFlags → ℕ → Outcome MessageQueue
queue_add_message_priority q buffer flags type = do
  m ← create_message buffer flags type
  ok (record q { messages = m ∷ q.messages })

-- `buffer->data[i]`
unfoldable pub buffer_at : Buffer → ℕ → Outcome ℕ
buffer_at b i = do m ← or_fault b.bytes; read (record { object = m; offset = 0 }) i

-- the message without a buffer that holds an ID
unfoldable pub id_message : Buffer → ℕ → Outcome Message
id_message buffer type = if ltb buffer.used 3 then error ErrorCode.internal_bad_arg else do
  high ← buffer_at buffer 2
  low ← buffer_at buffer 1
  ok (record {
    buffer = none;
    send_count = high;
    confirmed = low;
    type = type;
    msg_flags = MsgFlags.err_flag;
  })

unfoldable pub queue_add_message_only_id : MessageQueue → Buffer → ℕ → Outcome MessageQueue
unfolding id_message
queue_add_message_only_id q buffer type = do
  m ← id_message buffer type
  ok (record q { messages = m ∷ q.messages })

unfoldable pub queue_pop_message : MessageQueue → MessageQueue
queue_pop_message q = elim q.messages [ [] ↦ q | m ∷ rest ↦ record q { messages = rest } ]

-- The loop pops until the length is 0.
unfoldable pub queue_pop_all_messages : MessageQueue → MessageQueue
queue_pop_all_messages q = record q { messages = [] }

unfoldable pub queue_is_empty : MessageQueue → Bool
queue_is_empty q = if length q.messages == 0 then true else false

unfoldable pub queue_length : MessageQueue → ℕ
queue_length q = length q.messages

-- A char equals an unsigned char: both are promoted to int, so a negative char equals none.
abbrev pub char_eq_uchar : ℕ → ℕ → Bool
char_eq_uchar c u = ltb c 128 && c == u

unfoldable pub contains_id : List Message → ℕ → ℕ → ℕ → Bool
contains_id [] high low type = false
contains_id (m ∷ rest) high low type =
    if char_eq_uchar high m.send_count && (char_eq_uchar low m.confirmed && type == m.type)
    then true
    else contains_id rest high low type

-- The incoming message is given by its buffer and its type.
unfoldable pub queue_contains_message_id : MessageQueue → Buffer → ℕ → Outcome Bool
unfolding contains_id
queue_contains_message_id q incoming type = do
  high ← buffer_at incoming 2
  low ← buffer_at incoming 1
  ok (contains_id q.messages high low type)

-- `queue->first` with its fields changed; a NULL pointer is a fault
abbrev pub update_first : MessageQueue → (Message → Outcome Message) → Outcome MessageQueue
update_first q f = elim q.messages [
  | [] ↦ fault
  | m ∷ rest ↦ f m >>= λ m'. ok (record q { messages = m' ∷ rest })
]

unfoldable pub queue_message_sended : MessageQueue → Outcome MessageQueue
queue_message_sended q =
    update_first q λ m. ok (record m { send_count = (m.send_count + 1) % 2 ^ 8 })

unfoldable pub queue_get_sended_counter : MessageQueue → Outcome ℕ
queue_get_sended_counter q = do m ← or_fault (queue_get_message q); ok m.send_count

-- the ID bytes of a message, written into its buffer
unfoldable pub write_id : ℕ → Message → Outcome Message
write_id counter m = do
  b ← or_fault m.buffer
  let (high, low) = break_u16_int_to_bytes counter
  b' ← put_byte b 2 high
  b'' ← put_byte b' 1 low
  ok (record m { buffer = some b'' })

unfoldable pub queue_set_message_id : MessageQueue → ℕ → Outcome MessageQueue
unfolding write_id
queue_set_message_id q msg_counter = elim q.messages [
  | [] ↦ ok q
  | m ∷ rest ↦
      if not (flags_eq m.msg_flags MsgFlags.confirm)
        && not (flags_eq m.msg_flags MsgFlags.nok_reply)
      then update_first q (write_id msg_counter)
      else ok q
]

unfoldable pub queue_get_message_id : MessageQueue → Outcome ℕ
queue_get_message_id q = elim q.messages [
  | [] ↦ ok 0
  | m ∷ rest ↦ do
    b ← or_fault m.buffer
    low ← buffer_at b 1
    high ← buffer_at b 2
    ok (convert_2bytes_to_u16_int low high)
]

unfoldable pub queue_get_message_flags : MessageQueue → Outcome MsgFlags
queue_get_message_flags q = do m ← or_fault (queue_get_message q); ok m.msg_flags

unfoldable pub queue_set_message_flags : MessageQueue → MsgFlags → MessageQueue
queue_set_message_flags q new_flag = elim q.messages [
  | [] ↦ q
  | m ∷ rest ↦ record q { messages = record m { msg_flags = new_flag } ∷ rest }
]

unfoldable pub queue_get_message_msg_type : MessageQueue → MsgType
queue_get_message_msg_type q = elim q.messages [
  | [] ↦ MsgType.unknown
  | m ∷ rest ↦ uchar2msg_type m.type
]
