-- ===== src/Queue/Order.antt =====
-- The queue of src/libs/msgQueue.c as a queue: the first message and its ID.
use ipk_project.Prelude.{
  ℕ, ◌+◌, ◌-◌, ◌%◌, ◌^◌, ◌≡◌, ◌<◌, ◌≤◌, false, arith, ltb, List, [], ◌∷◌, length, some,
  if◌then◌else◌, ◌||◌,
}
use ipk_project.Outcome.{ok, ◌>>=◌}
use ipk_project.Buffer.{Buffer, put_byte}
use ipk_project.Utils.{break_u16_int_to_bytes, convert_2bytes_to_u16_int}
use ipk_project.Memory.{Object, store, read}
use ipk_project.Queue.{
  Message, MessageQueue, queue_set_message_id, queue_get_message_id, buffer_at, write_id,
}
use ipk_project.Queue.Types.{MsgFlags, flags_eq}

-- The ID that is set on a first message of at least three bytes, which is not flagged as a CONFIRM
-- or a negative reply, is read back where its low byte is below 128, and as the ID minus 256
-- (modulo 2 ^ 16) where it is not.
pub set-get_message_id :
    (q : MessageQueue) (m : Message) (ms : List Message) (b : Buffer) (bytes : Object) (n : ℕ)
    → q.messages ≡ m ∷ ms
    → m.buffer ≡ some b
    → b.bytes ≡ some bytes
    → 3 ≤ length bytes
    → n < 2 ^ 16
    → flags_eq m.msg_flags MsgFlags.confirm || flags_eq m.msg_flags MsgFlags.nok_reply ≡ false
    → (queue_set_message_id q n >>= queue_get_message_id)
      ≡ ok (if ltb (n % 256) 128 then n else (n + 2 ^ 16 - 256) % 2 ^ 16)
unfolding queue_set_message_id queue_get_message_id write_id put_byte buffer_at store read
    break_u16_int_to_bytes convert_2bytes_to_u16_int
set-get_message_id q m ms b [] n eq eb ed l h f = absurd (omega arith)
set-get_message_id q m ms b (c0 ∷ []) n eq eb ed l h f = absurd (omega arith)
set-get_message_id q m ms b (c0 ∷ c1 ∷ []) n eq eb ed l h f = absurd (omega arith)
set-get_message_id q m ms b (c0 ∷ c1 ∷ c2 ∷ cs) n eq eb ed l h f = ground arith
