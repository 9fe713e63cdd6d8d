-- ===== src/Queue/Repeated.antt =====
-- queueAddMessageOnlyID() and queueContainsMessageId() of src/libs/msgQueue.c: which confirmed
-- messages are found again.
use ipk_project.Prelude.{ℕ, ◌≡◌, refl, true, false, arith, ltb, ◌&&◌, List, [], ◌∷◌}
use ipk_project.Outcome.{ok}
use ipk_project.Buffer.{Buffer}
use ipk_project.Queue.{
  Message, MessageQueue, queue_add_message_only_id, queue_contains_message_id, contains_id,
  buffer_at,
}

-- A message whose ID was just added is found again where both bytes of its ID are below 128.
pub contains-add_only_id :
    (q q' : MessageQueue) (b : Buffer) (type high low : ℕ)
    → buffer_at b 2 ≡ ok high
    → buffer_at b 1 ≡ ok low
    → queue_add_message_only_id q b type ≡ ok q'
    → ltb high 128 && ltb low 128 ≡ true
    → queue_contains_message_id q' b type ≡ ok true
unfolding queue_add_message_only_id queue_contains_message_id
contains-add_only_id q q' b type high low hb lb h small = ground arith

never_found :
    (ms : List Message) (high low type : ℕ)
    → ltb high 128 && ltb low 128 ≡ false
    → contains_id ms high low type ≡ false
unfolding contains_id
never_found [] high low type h = refl
never_found (m ∷ ms) high low type h = grind (arith, never_found ms high low type h)

-- A message with a byte of its ID from 128 on is in no queue, whatever was added before.
pub contains-high_byte :
    (q : MessageQueue) (b : Buffer) (type high low : ℕ)
    → buffer_at b 2 ≡ ok high
    → buffer_at b 1 ≡ ok low
    → ltb high 128 && ltb low 128 ≡ false
    → queue_contains_message_id q b type ≡ ok false
unfolding queue_contains_message_id
contains-high_byte q b type high low hb lb large =
    grind (arith, never_found q.messages high low type large)
