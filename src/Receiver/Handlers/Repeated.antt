-- ===== src/Receiver/Handlers/Repeated.antt =====
-- receiverFSM() of src/protocolReceiver.c with the text messages of a UDP server: a message that
-- arrives again is confirmed again, and printed once.
use ipk_project.Prelude.{
  ℕ, ◌≤◌, ◌≡◌, refl, ap, ◌∙◌, true, false, ltb, List, ◌∷◌, ◌⊎◌, inl, inr, none, some, arith,
  get_elem?,
}
use ipk_project.Outcome.{ok}
use ipk_project.Memory.{Object, read, read_cell}
use ipk_project.Buffer.{Buffer}
use ipk_project.Buffer.Laws.{IsValid}
use ipk_project.Queue.{
  Message, queue_lock, queue_unlock, queue_contains_message_id, queue_add_message_only_id,
  buffer_at, contains_id, id_message,
}
use ipk_project.Queue.Types.{MsgFlags, MsgType, type_code, uchar2msg_type}
use ipk_project.Program.{ProgramInterface, Protocol, Event, Stream, log, is_udp}
use ipk_project.Protocol.Blocks.{ProtocolBlocks}
use ipk_project.Protocol.Words.{read_chars-Spells}
use ipk_project.Protocol.Disassemble.Line.{Reads}
use ipk_project.Receiver.Confirming.{confirmation, queued, send_confirm-queued}
use ipk_project.Receiver.Handlers.{
  on_reply, receiver_fsm, filter_repetitive, on_msg, locked_confirm, print_incoming_message,
  wake_sender, receive_by_type,
}

-- The client runs over UDP, holds no lock, and has received a message with an ID.
pub record Received (prog : ProgramInterface) (low high : ℕ) : Type 0 where
  pub udp : prog.protocol ≡ Protocol.udp
  pub free : prog.sending_queue.lock ≡ false
  pub free' : prog.confirmed_messages.lock ≡ false
  pub valid : IsValid prog.sended_by_receiver
  pub object : Object
  pub block : prog.server_response.bytes ≡ some object
  pub size : 3 ≤ prog.server_response.used
  pub low_byte : get_elem? object 1 ≡ some (some low)
  pub high_byte : get_elem? object 2 ≡ some (some high)

pub Received-after :
    (prog p : ProgramInterface) (low high : ℕ)
    → Received prog low high
    → p.protocol ≡ prog.protocol
    → p.server_response.bytes ≡ prog.server_response.bytes
    → p.server_response.used ≡ prog.server_response.used
    → p.sending_queue.lock ≡ prog.sending_queue.lock
    → p.confirmed_messages.lock ≡ prog.confirmed_messages.lock
    → IsValid p.sended_by_receiver
    → Received p low high
Received-after prog p low high r udp block size free free' valid = record {
  udp = udp ∙ r.udp;
  free = free ∙ r.free;
  free' = free' ∙ r.free';
  valid = valid;
  object = r.object;
  block = block ∙ r.block;
  size = omega (arith, size, r.size);
  low_byte = r.low_byte;
  high_byte = r.high_byte;
}

-- the ID of a message is added to the confirmed messages
abbrev pub remembered : ProgramInterface → ℕ → ℕ → ℕ → ProgramInterface
remembered prog low high type =
    let entry : Message = record {
      buffer = none;
      send_count = high;
      confirmed = low;
      type = type;
      msg_flags = MsgFlags.err_flag;
    } in
    record prog {
      confirmed_messages = record prog.confirmed_messages {
        messages = entry ∷ prog.confirmed_messages.messages;
      };
    }

module _ (prog : ProgramInterface) (low high : ℕ) (r : Received prog low high) where
  at_low : buffer_at prog.server_response 1 ≡ ok low
  unfolding buffer_at read read_cell
  at_low = rw (r.block, r.low_byte) refl

  at_high : buffer_at prog.server_response 2 ≡ ok high
  unfolding buffer_at read read_cell
  at_high = rw (r.block, r.high_byte) refl

  -- An ID that was confirmed before is found, and nothing changes.
  filter-found :
      (bs : ProtocolBlocks)
      → contains_id prog.confirmed_messages.messages high low bs.type ≡ true
      → filter_repetitive prog bs ≡ ok (prog, true)
  unfolding filter_repetitive queue_lock queue_unlock queue_contains_message_id
  filter-found bs found =
      rw (r.free, r.free', at_high, at_low, found) (ground (arith, r.free, r.free'))

  filter-new :
      (bs : ProtocolBlocks)
      → contains_id prog.confirmed_messages.messages high low bs.type ≡ false
      → filter_repetitive prog bs ≡ ok (remembered prog low high bs.type, false)
  unfolding filter_repetitive queue_lock queue_unlock queue_contains_message_id
      queue_add_message_only_id id_message
  filter-new bs new =
      let long : ltb prog.server_response.used 3 ≡ false = ground (arith, r.size) in
      rw (r.free, r.free', at_high, at_low, new, long) (ground (arith, r.free, r.free'))

  -- The CONFIRM is queued under the lock.
  locked_confirm-queued :
      (flags : MsgFlags)
      → (b : Buffer) × IsValid b
        × (locked_confirm prog flags ≡ ok (queued prog (confirmation low high flags) b))
  unfolding locked_confirm queue_lock queue_unlock
  locked_confirm-queued flags =
      let locked : ProgramInterface = record prog {
        sending_queue = record prog.sending_queue { lock = true };
      } in
      let (b, v, run) =
        send_confirm-queued locked flags r.object low high r.valid r.block r.low_byte r.high_byte in
      (b, v, rw (r.free, run) (ground (arith, r.free)))

pub udp_of : (prog : ProgramInterface) → prog.protocol ≡ Protocol.udp → is_udp prog ≡ true
udp_of prog u = ap (λ x. elim x [ Protocol.udp ↦ true | _ ↦ false ]) u

-- Where a UDP client that holds no lock has received a MSG or a REPLY whose ID is among the
-- confirmed ones, receiverFSM() returns, with a CONFIRM of the ID put before the other messages, and
-- but for the receiver's buffer nothing else is changed: nothing is printed and no state is left.
pub receiver_fsm-repeated :
    (prog : ProgramInterface) (id low high : ℕ) (bs : ProtocolBlocks)
    → Received prog low high
    → (bs.type ≡ type_code MsgType.msg) ⊎ (bs.type ≡ type_code MsgType.reply)
    → contains_id prog.confirmed_messages.messages high low bs.type ≡ true
    → (b : Buffer) × IsValid b
      × (receiver_fsm prog id bs ≡ ok (queued prog (confirmation low high MsgFlags.confirm) b))
unfolding receiver_fsm receive_by_type uchar2msg_type on_msg on_reply
receiver_fsm-repeated prog id low high bs r (inl type) found =
    let (b, v, run) = locked_confirm-queued prog low high r MsgFlags.confirm in
    (
      b,
      v,
      rw
          (
            udp_of prog r.udp,
            filter-found prog low high r bs found,
            ap uchar2msg_type type,
            udp_of prog r.udp,
            run,
          )
          refl,
    )
receiver_fsm-repeated prog id low high bs r (inr type) found =
    let (b, v, run) = locked_confirm-queued prog low high r MsgFlags.confirm in
    (
      b,
      v,
      rw
          (
            udp_of prog r.udp,
            filter-found prog low high r bs found,
            ap uchar2msg_type type,
            udp_of prog r.udp,
            run,
          )
          refl,
    )

printed :
    (prog : ProgramInterface) (bs : ProtocolBlocks) (name text : List ℕ)
    → bs.type ≡ type_code MsgType.msg
    → Reads bs.zeroth name
    → Reads bs.first text
    → print_incoming_message prog bs
      ≡ ok (log prog (Event.printed_message Stream.stdout "" name text))
unfolding print_incoming_message uchar2msg_type
printed prog bs name text type n t =
    rw
      (
        n.at,
        t.at,
        n.size,
        t.size,
        read_chars-Spells n.pointer 0 name n.spelled,
        read_chars-Spells t.pointer 0 text t.spelled,
        ap uchar2msg_type type,
      )
      refl

-- what handling a new text message leaves
abbrev pub shown : ProgramInterface → ℕ → ℕ → ℕ → Buffer → List ℕ → List ℕ → ProgramInterface
shown prog low high type b name text =
    log
      (wake_sender
        (queued (remembered prog low high type) (confirmation low high MsgFlags.confirm) b))
      (Event.printed_message Stream.stdout "" name text)

pub receiver_fsm-new :
    (prog : ProgramInterface) (id low high : ℕ) (bs : ProtocolBlocks) (name text : List ℕ)
    → Received prog low high
    → bs.type ≡ type_code MsgType.msg
    → Reads bs.zeroth name
    → Reads bs.first text
    → contains_id prog.confirmed_messages.messages high low bs.type ≡ false
    → (b : Buffer) × IsValid b
      × (receiver_fsm prog id bs ≡ ok (shown prog low high bs.type b name text))
unfolding receiver_fsm receive_by_type uchar2msg_type on_msg
receiver_fsm-new prog id low high bs name text r type n t new =
    let prog' = remembered prog low high bs.type in
    let r' : Received prog' low high =
      Received-after prog prog' low high r refl refl refl refl refl r.valid in
    let (b, v, run) = locked_confirm-queued prog' low high r' MsgFlags.confirm in
    let print =
      printed (wake_sender (queued prog' (confirmation low high MsgFlags.confirm) b)) bs name text
        type n t in
    (
      b,
      v,
      rw
          (
            udp_of prog r.udp,
            filter-new prog low high r bs new,
            ap uchar2msg_type type,
            udp_of prog r.udp,
            run,
            print,
          )
          refl,
    )
