-- ===== src/Receiver/Frame.antt =====
-- What sendConfirm(), sendBye() and sendError() leave as it was: the state of the program and the
-- details of the communication; and the lock of the sending queue.
use ipk_project.Prelude.{ℕ, ◌≡◌, refl, ap, ◌∙◌, List, Bool, true, false, if◌then◌else◌, not}
use ipk_project.Outcome.{
  Outcome, ok, blocked, Ensures, Ensures-then, Ensures-bind, Ensures-if, returns, raises, faults,
  hangs, Ensures-ok,
}
use ipk_project.Utils.Types.{CommandType, command_code}
use ipk_project.Buffer.{Buffer}
use ipk_project.Queue.{
  MessageQueue, queue_lock, queue_unlock, queue_add_message, queue_add_message_priority,
}
use ipk_project.Queue.Types.{MsgFlags}
use ipk_project.Program.{ProgramInterface}
use ipk_project.Program.Accepted.{Logged, kept, success_printed}
use ipk_project.Protocol.Blocks.{ProtocolBlocks}
use ipk_project.Protocol.Assemble.{Assembled}
use ipk_project.Protocol.Assemble.Frame.{
  Keeps, assemble_protocol_udp-Keeps, assemble_protocol_tcp-Keeps,
}
use ipk_project.Receiver.Send.{send_confirm, send_bye, send_error, assemble}

-- The same state, names, counter and confirmed messages, as much success; the lock as given.
pub record Same (prog : ProgramInterface) (lock : Bool) (prog' : ProgramInterface) : Type 0 where
  pub state : prog'.fsm_state ≡ prog.fsm_state
  pub counter : prog'.msg_counter ≡ prog.msg_counter
  pub name : prog'.display_name ≡ prog.display_name
  pub protocol : prog'.protocol ≡ prog.protocol
  pub confirmed : prog'.confirmed_messages ≡ prog.confirmed_messages
  pub success : success_printed prog'.trace ≡ success_printed prog.trace
  pub locked : prog'.sending_queue.lock ≡ lock

add_priority-lock :
    (q : MessageQueue) (b : Buffer) (flags : MsgFlags) (type : ℕ)
    → Ensures (λ q'. q'.lock ≡ q.lock) (queue_add_message_priority q b flags type)
unfolding queue_add_message_priority
add_priority-lock q b flags type = Ensures-then _ _ λ m. returns refl

add-lock :
    (q : MessageQueue) (b : Buffer) (flags : MsgFlags) (type : ℕ)
    → Ensures (λ q'. q'.lock ≡ q.lock) (queue_add_message q b flags type)
unfolding queue_add_message
add-lock q b flags type = Ensures-then _ _ λ m. returns refl

lock-ok : (q : MessageQueue) → Ensures (λ q'. (q.lock ≡ false) × (q'.lock ≡ true)) (queue_lock q)
unfolding queue_lock
lock-ok q = go q.lock refl
  where
    go :
        (b : Bool)
        → q.lock ≡ b
        → Ensures
            (λ q'. (q.lock ≡ false) × (q'.lock ≡ true))
            (if b then blocked else ok (record q { lock = true }))
    go true e = hangs
    go false e = returns (e, refl)

-- A program that differs in its trace, its sending queue and its buffers for messages.
sending :
    {prog p : ProgramInterface} {lock : Bool}
    → Logged prog p
    → (q : MessageQueue) (r m : Buffer) → q.lock ≡ lock
    → Same prog lock (record p { sending_queue = q; sended_by_receiver = r; sended_by_main = m })
sending k q r m l = record {
  state = ap (λ (x : ProgramInterface). x.fsm_state) k.same;
  counter = ap (λ (x : ProgramInterface). x.msg_counter) k.same;
  name = ap (λ (x : ProgramInterface). x.display_name) k.same;
  protocol = ap (λ (x : ProgramInterface). x.protocol) k.same;
  confirmed = ap (λ (x : ProgramInterface). x.confirmed_messages) k.same;
  success = k.success;
  locked = l;
}

-- Where sendConfirm() returns, the state, the counter, the display name, the protocol, the confirmed
-- messages and the lock are as before.
pub send_confirm-Same :
    (prog : ProgramInterface) (flags : MsgFlags)
    → Ensures (Same prog prog.sending_queue.lock) (send_confirm prog flags)
unfolding send_confirm
send_confirm-Same prog flags = Ensures-then _ _ λ p.
    Ensures-bind (assemble_protocol_udp-Keeps _ prog _) λ a k. Ensures-if _ _ _ raises (
      Ensures-bind (add_priority-lock _ _ flags _) λ q l. returns (
        sending k q a.buffer a.program.sended_by_main
          (l ∙ ap (λ (x : ProgramInterface). x.sending_queue.lock) k.same)))

pub assemble-Keeps :
    (bs : ProtocolBlocks) (b : Buffer) (prog : ProgramInterface) (neither : Outcome Assembled)
    → Ensures (Keeps prog) neither
    → Ensures (Keeps prog) (assemble bs b prog neither)
assemble-Keeps bs b prog neither h =
    Ensures-if _ _ _ (assemble_protocol_udp-Keeps bs prog b)
      (Ensures-if _ _ _ (assemble_protocol_tcp-Keeps bs prog b) h)

bye_sent :
    (prog : ProgramInterface) (q : MessageQueue) (a : Assembled) (q' : MessageQueue)
    → Logged (record prog { sending_queue = q }) a.program
    → Same prog false
        (record a.program { sending_queue = queue_unlock q'; sended_by_main = a.buffer })
unfolding queue_unlock
bye_sent prog q a q' k =
    let s =
      sending {prog = record prog { sending_queue = q }} k (queue_unlock q')
        a.program.sended_by_receiver a.buffer refl in
    record {
      state = s.state;
      counter = s.counter;
      name = s.name;
      protocol = s.protocol;
      confirmed = s.confirmed;
      success = s.success;
      locked = refl;
    }

error_sent :
    (prog : ProgramInterface) (a : Assembled) (q : MessageQueue)
    → Logged prog a.program
    → Same prog false (record a.program { sending_queue = queue_unlock q })
unfolding queue_unlock
error_sent prog a q k =
    sending k (queue_unlock q) a.program.sended_by_receiver a.program.sended_by_main refl

-- Where sendBye() returns, the state, the counter, the display name, the protocol and the confirmed
-- messages are as before, and the lock is free.
pub send_bye-Same : (prog : ProgramInterface) → Ensures (Same prog false) (send_bye prog)
unfolding send_bye
send_bye-Same prog = Ensures-then _ _ λ q.
    Ensures-bind (assemble-Keeps _ _ _ _ (returns kept))
      λ a k. Ensures-then _ _ λ q'. returns (bye_sent prog q a q' k)

-- Where sendError() returns, the state, the counter, the display name, the protocol and the
-- confirmed messages are as before, and the lock is free.
pub send_error-Same :
    (b : Buffer) (prog : ProgramInterface) (message : List ℕ)
    → Ensures (λ r. Same prog false r.1) (send_error b prog message)
unfolding send_error
send_error-Same b prog message = Ensures-bind (assemble-Keeps _ _ prog _ faults) λ a k.
    Ensures-then (queue_lock a.program.sending_queue) _ λ q.
      Ensures-if (not a.can_be_sended) _ _ raises (
        Ensures-then (queue_add_message q a.buffer MsgFlags.err_flag (command_code CommandType.err))
          _ λ q'. returns (error_sent prog a q' k))

-- The same as implications, for use with the functions shut.
pub send_confirm-state :
    (prog : ProgramInterface) (flags : MsgFlags) (p : ProgramInterface)
    → send_confirm prog flags ≡ ok p
    → (p.fsm_state ≡ prog.fsm_state) × (p.sending_queue.lock ≡ prog.sending_queue.lock)
send_confirm-state prog flags p h =
    let s = Ensures-ok (send_confirm-Same prog flags) h in (s.state, s.locked)

pub send_bye-state :
    (prog p : ProgramInterface)
    → send_bye prog ≡ ok p
    → (p.fsm_state ≡ prog.fsm_state) × (p.sending_queue.lock ≡ false)
send_bye-state prog p h = let s = Ensures-ok (send_bye-Same prog) h in (s.state, s.locked)

pub send_error-state :
    (b : Buffer) (prog : ProgramInterface) (message : List ℕ) (r : Buffer × ProgramInterface)
    → send_error b prog message ≡ ok r
    → (r.1.fsm_state ≡ prog.fsm_state) × (r.1.sending_queue.lock ≡ false)
send_error-state b prog message r h =
    let s = Ensures-ok (send_error-Same b prog message) h in (s.state, s.locked)
