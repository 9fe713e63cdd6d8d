-- ===== src/System/Exchange.antt =====
-- A request of a UDP client, through src/protocolSender.c and src/protocolReceiver.c: it is sent,
-- its CONFIRM comes, and the filter of the sender deletes it.
use ipk_project.Prelude.{
  ℕ, suc, ◌+◌, ◌%◌, ◌/◌, ◌^◌, ◌≤◌, ◌≡◌, refl, sym, ◌∙◌, Bool, true, false, ◌==◌, ◌||◌, List, ◌∷◌,
  some, arith, length, set, length-set, ltb, take,
}
use ipk_project.Outcome.{ok}
use ipk_project.Memory.{Object, read, read_cell}
use ipk_project.Memory.Writes.{get_elem?-set_self, get_elem?-set_ne}
use ipk_project.Buffer.{Buffer}
use ipk_project.Utils.{convert_2bytes_to_u16_int}
use ipk_project.Utils.Types.{Fsm}
use ipk_project.Queue.{
  Message, MessageQueue, queue_lock, queue_unlock, queue_get_message, queue_get_message_id,
  queue_pop_message, buffer_at,
}
use ipk_project.Queue.Types.{MsgFlags, flags_eq}
use ipk_project.Program.{ProgramInterface, Protocol, Event, Condition, signal}
use ipk_project.Receiver.Handlers.{handle_confirm_udp}
use ipk_project.Sender.{send_first, filter_resent_messages, filter_loop, pop}
use ipk_project.Sender.Filtering.{filter_resent_messages-rounds}
use ipk_project.Sender.Sending.{Waiting, numbered, sent_message, after_udp, send_first-request}

-- the program with its queue locked or not
abbrev pub with_lock : Bool → ProgramInterface → ProgramInterface
with_lock l prog = record prog { sending_queue = record prog.sending_queue { lock = l } }

-- One round of the filter with such a message.
filter_loop-confirmed :
    (rounds : ℕ) (prog : ProgramInterface) (m : Message)
    → queue_get_message prog.sending_queue ≡ some m
    → ltb prog.udp_max_retries m.send_count ≡ false
    → flags_eq m.msg_flags MsgFlags.rejected ≡ false
    → flags_eq m.msg_flags MsgFlags.auth || m.confirmed == 0 ≡ false
    → filter_loop (suc rounds) prog false ≡ filter_loop rounds (pop prog) false
unfolding filter_loop
filter_loop-confirmed rounds prog m first late rejected kept =
    rw (filter_loop, first, late, rejected, kept) refl

-- A confirmed first message within the retry limit, no AUTH and not rejected, is deleted by the
-- filter.
pub filter-confirmed :
    (prog : ProgramInterface) (m : Message) (rest : List Message)
    → prog.sending_queue.messages ≡ m ∷ rest
    → ltb prog.udp_max_retries m.send_count ≡ false
    → flags_eq m.msg_flags MsgFlags.rejected ≡ false
    → flags_eq m.msg_flags MsgFlags.auth || m.confirmed == 0 ≡ false
    → filter_resent_messages prog ≡ filter_resent_messages (pop prog)
unfolding queue_get_message queue_pop_message
filter-confirmed prog m rest q late rejected kept =
    sym ((filter_resent_messages-rounds (suc (suc (length rest))) prog (rw q (omega arith))).0)
    ∙ filter_loop-confirmed (suc (length rest)) prog m (rw q refl) late rejected kept
    ∙ (filter_resent_messages-rounds (suc (length rest)) (pop prog) (rw q (omega arith))).0

-- the CONFIRM of the ID that is written into a request confirms it
numbered-id :
    (q : MessageQueue) (counter : ℕ) (m : Message) (b : Buffer) (o : Object)
    → 3 ≤ length o
    → (rest : List Message) → q.messages ≡ sent_message counter m b o ∷ rest
    → queue_get_message_id q
      ≡ ok (convert_2bytes_to_u16_int (counter % 256) ((counter / 2 ^ 8) % 256))
unfolding queue_get_message_id buffer_at read read_cell
numbered-id q counter m b o long rest e =
    let high = some ((counter / 2 ^ 8) % 256) in
    let low = some (counter % 256) in
    let o1 = set o 2 high in
    let at_low = get_elem?-set_self o1 1 low (omega (arith, length-set o 2 high)) in
    let at_high =
      get_elem?-set_ne o1 1 2 low (λ e. omega arith) ∙ get_elem?-set_self o 2 high (omega arith) in
    rw (e, at_low, at_high) refl

-- the request once it is confirmed
abbrev pub confirmed_message : ℕ → Message → Buffer → Object → Message
confirmed_message counter m b o = record (sent_message counter m b o) { confirmed = 1 }

-- what a CONFIRM leaves of a program in the state OPEN
abbrev pub after_confirm : ProgramInterface → ℕ → Message → List Message → ProgramInterface
after_confirm prog id m rest =
    signal
      (signal
        (record prog {
          sending_queue = record { messages = record m { confirmed = 1 } ∷ rest; lock = false };
          msg_counter = (id + 1) % 2 ^ 16;
        })
        Condition.main_cond)
      Condition.rec_to_sender

confirmed-open :
    (prog : ProgramInterface) (id : ℕ) (m : Message) (rest : List Message)
    → prog.fsm_state ≡ Fsm.open_state
    → prog.sending_queue ≡ record { messages = m ∷ rest; lock = false }
    → queue_get_message_id (record { messages = m ∷ rest; lock = true }) ≡ ok id
    → handle_confirm_udp prog id ≡ ok (after_confirm prog id m rest)
unfolding handle_confirm_udp queue_lock queue_unlock queue_get_message
confirmed-open prog id m rest s q i =
    let same : (id == id) ≡ true = ground arith in rw (q, i, same, s) refl

-- A request without flags of a UDP client in the state OPEN, first in the locked queue, whose counter
-- plus 1, as a byte, is within the retries, is sent with the bytes of the counter as its ID. A CONFIRM of the ID that these bytes are
-- joined to then confirms it and sets the counter to the ID plus 1, and the next run of the filter
-- goes on as with the messages behind the request.
pub send_first-confirm-filter :
    (prog : ProgramInterface) (m : Message) (rest : List Message) (b : Buffer) (o : Object)
    → prog.protocol ≡ Protocol.udp
    → prog.fsm_state ≡ Fsm.open_state
    → Waiting prog m rest b o
    → 3 ≤ length o
    → m.msg_flags ≡ MsgFlags.no_flag
    → (m.send_count + 1) % 2 ^ 8 ≤ prog.udp_max_retries
    → let id =
        convert_2bytes_to_u16_int (prog.msg_counter % 256) ((prog.msg_counter / 2 ^ 8) % 256) in
      (p : ProgramInterface) × (p' : ProgramInterface) × (send_first prog true ≡ ok p)
      × (p.trace ≡ Event.sent (take b.used (numbered prog.msg_counter o)) ∷ prog.trace)
      × (handle_confirm_udp (with_lock false p) id ≡ ok p')
      × (p'.msg_counter ≡ (id + 1) % 2 ^ 16)
      × (filter_resent_messages (with_lock true p')
          ≡ filter_resent_messages (pop (with_lock true p')))
      × ((pop (with_lock true p')).sending_queue.messages ≡ rest)
unfolding queue_pop_message
send_first-confirm-filter prog m rest b o u s w long flags within =
    let counter = prog.msg_counter in
    let id = convert_2bytes_to_u16_int (counter % 256) ((counter / 2 ^ 8) % 256) in
    let sent = sent_message counter m b o in
    let p = after_udp prog m rest b o in
    let p' = after_confirm (with_lock false p) id sent rest in
    let request = send_first-request prog m rest b o u w long (rw flags refl) in
    let i =
      numbered-id (record { messages = sent ∷ rest; lock = true }) counter m b o long rest refl in
    let confirmed = confirmed-open (with_lock false p) id sent rest s refl i in
    let late : ltb prog.udp_max_retries sent.send_count ≡ false = ground arith in
    let filtered =
      filter-confirmed (with_lock true p') (record sent { confirmed = 1 }) rest refl late
        (rw flags refl) (rw flags refl) in
    (p, p', request, refl, confirmed, refl, filtered, refl)
