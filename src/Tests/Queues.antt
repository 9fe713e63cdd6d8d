-- ===== src/Tests/Queues.antt =====
-- Examples for msgQueue.c.
use ipk_project.Prelude.{◌≡◌, refl, arith, [], ◌∷◌, some, true, false}
use ipk_project.Outcome.{ok, ◌>>=◌}
use ipk_project.Memory.{read, read_cell}
use ipk_project.Buffer.{Buffer}
use ipk_project.Queue.{
  Message, MessageQueue, queue_set_message_id, queue_get_message_id, queue_add_message_only_id,
  queue_contains_message_id, buffer_at,
}
use ipk_project.Queue.Types.{MsgFlags}
use ipk_project.Queue.Order.{set-get_message_id}
use ipk_project.Queue.Repeated.{contains-add_only_id, contains-high_byte}
use ipk_project.Tests.Data.{full, message_of, queue_of, value}

abbrev three : Buffer
three = full (4 ∷ 0 ∷ 0 ∷ [])

abbrev first : Message
first = message_of (4 ∷ 0 ∷ 0 ∷ []) MsgFlags.no_flag 4

set-get_message_id_example :
    (queue_set_message_id (queue_of (first ∷ [])) 200 >>= queue_get_message_id) ≡ ok 65480
set-get_message_id_example =
    set-get_message_id (queue_of (first ∷ [])) first [] three (some 4 ∷ some 0 ∷ some 0 ∷ []) 200
      refl refl refl (omega arith) (omega arith) refl

abbrev received : Buffer
received = full (4 ∷ 7 ∷ 1 ∷ [])

abbrev remembered : MessageQueue
unfolding queue_add_message_only_id buffer_at read read_cell
remembered = value (queue_of []) (queue_add_message_only_id (queue_of []) received 4)

contains-add_only_id_example : queue_contains_message_id remembered received 4 ≡ ok true
unfolding queue_add_message_only_id buffer_at read read_cell
contains-add_only_id_example =
    contains-add_only_id (queue_of []) remembered received 4 1 7 refl refl refl refl

contains-high_byte_example :
    queue_contains_message_id
      (queue_of (record first { send_count = 0; confirmed = 200 } ∷ []))
      (full (4 ∷ 200 ∷ 0 ∷ []))
      4
    ≡ ok false
unfolding buffer_at read read_cell
contains-high_byte_example =
    contains-high_byte (queue_of (record first { send_count = 0; confirmed = 200 } ∷ []))
      (full (4 ∷ 200 ∷ 0 ∷ [])) 4 0 200 refl refl refl
