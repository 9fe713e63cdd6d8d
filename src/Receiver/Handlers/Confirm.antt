-- ===== src/Receiver/Handlers/Confirm.antt =====
-- handleConfirmUDP() of src/protocolReceiver.c: what a CONFIRM does to the queue and the counter.
use ipk_project.Prelude.{ℕ, ◌+◌, ◌%◌, ◌^◌, ◌≡◌, ◌⊎◌, List, ◌∷◌, arith}
use ipk_project.Outcome.{ok}
use ipk_project.Queue.{Message, queue_lock, queue_unlock, queue_get_message, queue_get_message_id}
use ipk_project.Queue.Types.{MsgType, type_code}
use ipk_project.Program.{ProgramInterface}
use ipk_project.Receiver.Handlers.{handle_confirm_udp}
use ipk_project.Receiver.Handlers.Moves.{confirmed_state}

-- After a CONFIRM with this ID the messages, the counter and the state are as before, or the first
-- message is marked as confirmed, the counter is the ID plus 1, and the state is `confirmed_state`,
-- where the ID is that of the first message, or the first message is an AUTH.
abbrev pub Confirmed : ProgramInterface → ℕ → ProgramInterface → Type 0
Confirmed prog id p =
    ((p.sending_queue.messages ≡ prog.sending_queue.messages)
      × (p.msg_counter ≡ prog.msg_counter)
      × (p.fsm_state ≡ prog.fsm_state))
    ⊎ ((m : Message) × (ms : List Message) × (prog.sending_queue.messages ≡ m ∷ ms)
        × (p.sending_queue.messages ≡ record m { confirmed = 1 } ∷ ms)
        × (p.msg_counter ≡ (id + 1) % 2 ^ 16)
        × (p.fsm_state ≡ confirmed_state prog.fsm_state)
        × ((queue_get_message_id prog.sending_queue ≡ ok id) ⊎ (m.type ≡ type_code MsgType.auth)))

-- A handled CONFIRM changes nothing of the queue's messages, the counter and the state, or confirms
-- the first message, whose ID it has or which is an AUTH.
pub handle_confirm_udp-Confirmed :
    (prog : ProgramInterface) (id : ℕ) (p : ProgramInterface)
    → handle_confirm_udp prog id ≡ ok p
    → Confirmed prog id p
unfolding handle_confirm_udp queue_lock queue_unlock queue_get_message queue_get_message_id
handle_confirm_udp-Confirmed prog id p h = ground arith
