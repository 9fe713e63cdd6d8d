-- ===== src/Receiver/Handlers/Rejection.antt =====
-- handleReplyUDP() of src/protocolReceiver.c, on a negative reply that comes after its message was
-- confirmed and popped.
use ipk_project.Prelude.{ℕ, ◌≡◌, ◌≢◌, ◌⊎◌, some, [], arith, false}
use ipk_project.Outcome.{ok, fault}
use ipk_project.Memory.{CharPtr, read}
use ipk_project.Utils.Types.{Fsm}
use ipk_project.Queue.{queue_lock, queue_get_message, queue_get_message_flags}
use ipk_project.Program.{ProgramInterface}
use ipk_project.Protocol.Blocks.{ProtocolBlocks}
use ipk_project.Receiver.Handlers.{handle_reply_udp, reply_rejected}

rejected_empty :
    (prog : ProgramInterface) (blocks : ProtocolBlocks)
    → prog.sending_queue.lock ≡ false
    → prog.sending_queue.messages ≡ []
    → reply_rejected prog blocks ≡ fault
unfolding reply_rejected queue_lock queue_get_message queue_get_message_flags
rejected_empty prog blocks l e = ground arith

-- A reply whose result is not 1, in a state that waits for one, with the lock free and the sending
-- queue empty, reads the flags of a message that is not there.
pub handle_reply_udp-empty :
    (prog : ProgramInterface) (id : ℕ) (blocks : ProtocolBlocks) (p : CharPtr) (result : ℕ)
    → (prog.fsm_state ≡ Fsm.w84_reply) ⊎ (prog.fsm_state ≡ Fsm.join_atempt)
    → prog.sending_queue.lock ≡ false
    → prog.sending_queue.messages ≡ []
    → blocks.zeroth.start ≡ some p
    → read p 0 ≡ ok result
    → result ≢ 1
    → handle_reply_udp prog id blocks ≡ fault
unfolding handle_reply_udp
handle_reply_udp-empty prog id blocks p result s l e b r n = grind (arith, rejected_empty)
