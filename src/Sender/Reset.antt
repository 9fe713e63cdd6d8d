-- ===== src/Sender/Reset.antt =====
-- The reset of protocolSender() in src/protocolSender.c: a BYE that is never confirmed.
use ipk_project.Prelude.{◌<◌, ◌≡◌, refl, ap, true, false, Bool, ltb, [], ◌∷◌, arith}
use ipk_project.Outcome.{ok, blocked}
use ipk_project.Utils.Types.{Fsm, fsm_eq}
use ipk_project.Queue.{Message, queue_lock, queue_get_message, queue_pop_message}
use ipk_project.Queue.Types.{MsgFlags}
use ipk_project.Program.{ProgramInterface, Protocol, Condition, is_udp, signal}
use ipk_project.Receiver.Handlers.{locked_confirm}
use ipk_project.Sender.{Others, sender_round, filter_resent_messages, filter_loop}

-- what the last round of the sender leaves
abbrev pub reset_program : ProgramInterface → ProgramInterface
reset_program prog =
    signal
      (record prog {
        fsm_state = Fsm.end_state;
        sending_queue = record { messages = []; lock = true };
      })
      Condition.main_cond

resets :
    (prog : ProgramInterface) (m : Message)
    → prog.fsm_state ≡ Fsm.end_w84_conf
    → ltb prog.udp_max_retries m.send_count ≡ true
    → filter_resent_messages
        (record prog { sending_queue = record { messages = m ∷ []; lock = true } })
      ≡ ok (reset_program prog, true)
unfolding filter_resent_messages filter_loop queue_get_message queue_pop_message
resets prog m s late =
    let other : fsm_eq prog.fsm_state Fsm.err_w84_conf ≡ false =
      ap (λ f. fsm_eq f Fsm.err_w84_conf) s in
    let waits : fsm_eq prog.fsm_state Fsm.end_w84_conf ≡ true =
      ap (λ f. fsm_eq f Fsm.end_w84_conf) s in
    rw (filter_loop, late, other, waits) refl

-- Where a UDP client that holds no lock waits for the confirmation of its BYE, the only message of
-- the queue and sent more often than the retries allow, the round of the sender ends the program with
-- the lock of the queue held: the receiver, which confirms what arrives then, blocks, whatever the
-- flags of the CONFIRM are.
pub sender_round-reset :
    (prog : ProgramInterface) (m : Message) (delivered : Bool) (others : Others) (flags : MsgFlags)
    → prog.protocol ≡ Protocol.udp
    → prog.fsm_state ≡ Fsm.end_w84_conf
    → prog.sending_queue ≡ record { messages = m ∷ []; lock = false }
    → prog.udp_max_retries < m.send_count
    → (p : ProgramInterface) × (sender_round prog delivered others ≡ ok (p, others))
      × (p.fsm_state ≡ Fsm.end_state)
      × (p.sending_queue.lock ≡ true)
      × (locked_confirm p flags ≡ blocked)
unfolding sender_round queue_lock locked_confirm
sender_round-reset prog m delivered others flags u s q late =
    let udp : is_udp prog ≡ true = ap (λ x. elim x [ Protocol.udp ↦ true | _ ↦ false ]) u in
    let more : ltb prog.udp_max_retries m.send_count ≡ true = ground arith in
    let reset = resets prog m s more in
    (reset_program prog, rw (udp, q, reset) refl, refl, refl, refl)
