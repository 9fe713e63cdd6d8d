-- ===== src/Receiver/Packets.antt =====
-- The loop of protocolReceiver() in src/protocolReceiver.c with the packet of a text message of a UDP
-- server, received any number of times.
use ipk_project.Prelude.{
  ℕ, ◌+◌, ◌^◌, ◌<◌, ◌≤◌, ◌≡◌, refl, ap, sym, ◌∙◌, subst, true, false, ◌&&◌, ltb, List, [], ◌∷◌,
  ◌++◌, map, some, zero, suc, replicate, inl, arith, length, length-map, length-append, take, drop,
  take-all, All, ◌==◌,
}
use ipk_project.Outcome.{Outcome, ok, ◌>>=◌}
use ipk_project.Memory.{Object}
use ipk_project.Memory.Writes.{Spells}
use ipk_project.Memory.Spelling.{Spells-take}
use ipk_project.Utils.{convert_2bytes_to_u16_int}
use ipk_project.Utils.Types.{Fsm, fsm_eq}
use ipk_project.Buffer.{Buffer}
use ipk_project.Buffer.Laws.{IsValid}
use ipk_project.Queue.{Message, contains_id}
use ipk_project.Queue.Types.{MsgFlags, MsgType, type_code}
use ipk_project.Program.{ProgramInterface, Protocol, Event, Stream, Condition}
use ipk_project.Protocol.Blocks.{ProtocolBlocks}
use ipk_project.Protocol.Disassemble.{disasseble_protocol_udp}
use ipk_project.Protocol.Disassemble.Line.{Reads}
use ipk_project.Protocol.Disassemble.Packet.{packet_of, disasseble_protocol_udp-packet}
use ipk_project.Receiver.{ReceiverLocals, receiver_round, receive_into, disasseble}
use ipk_project.Receiver.Confirming.{confirmation, queued}
use ipk_project.Receiver.Handlers.{receiver_fsm}
use ipk_project.Receiver.Handlers.Repeated.{
  Received, remembered, shown, udp_of, receiver_fsm-new, receiver_fsm-repeated,
}

-- The packet arrives `n` times.
unfoldable pub receive_packets :
    ℕ → ProgramInterface → ReceiverLocals → List ℕ → Outcome (ProgramInterface × ReceiverLocals)
receive_packets zero prog locals packet = ok (prog, locals)
receive_packets (suc n) prog locals packet =
    receiver_round prog locals packet >>= λ r. receive_packets n r.0 r.1 packet

-- A UDP client that holds no lock, is past START and has a block for what it receives.
pub record Listening (prog : ProgramInterface) (size : ℕ) : Type 0 where
  pub udp : prog.protocol ≡ Protocol.udp
  pub free : prog.sending_queue.lock ≡ false
  pub free' : prog.confirmed_messages.lock ≡ false
  pub valid : IsValid prog.sended_by_receiver
  pub started : fsm_eq prog.fsm_state Fsm.start ≡ false
  pub block : Object
  pub at : prog.server_response.bytes ≡ some block
  pub counted : prog.server_response.allocated ≡ length block
  pub fits : size ≤ length block
  pub small : length block < 2 ^ 62

-- the cells of a packet over those of the block
abbrev pub over : List ℕ → Object → Object
over packet m = map some packet ++ drop (length packet) m

abbrev pub arrived : ProgramInterface → Object → List ℕ → ProgramInterface
arrived prog m packet = record prog {
  server_response = record prog.server_response {
    bytes = some (over packet m);
    used = length packet;
  };
}

take-append {ℓ} : {A : Type ℓ} (xs ys : List A) → take (length xs) (xs ++ ys) ≡ xs
take-append [] ys = refl
take-append (x ∷ xs) ys = ap (◌∷◌ x) (take-append xs ys)

length-drop {ℓ} :
    {A : Type ℓ} (n : ℕ) (xs : List A) → n ≤ length xs → n + length (drop n xs) ≡ length xs
length-drop zero xs h = omega arith
length-drop (suc n) [] h = absurd (omega arith)
length-drop (suc n) (x ∷ xs) h = omega (arith, length-drop n xs (omega arith))

length-over :
    (packet : List ℕ) (m : Object) → length packet ≤ length m → length (over packet m) ≡ length m
length-over packet m h = omega (
  arith,
  length-append (map some packet) (drop (length packet) m),
  length-map some packet,
  length-drop (length packet) m h,
)

over-Spells :
    (packet : List ℕ) (m : Object)
    → length packet < 2 ^ 63
    → Spells (record { object = over packet m; offset = 0 }) 0 packet
over-Spells packet m h = Spells-take (over packet m) packet h (
    ap (λ n. take n (over packet m)) (sym (length-map some packet))
    ∙ take-append (map some packet) (drop (length packet) m))

-- The words of a packet are not empty and have no zero byte.
pub record IsText (l : List ℕ) : Type 0 where
  pub present : 0 < length l
  pub ended : All (λ c. (c == 0) ≡ false) l

disasseble-udp :
    (prog : ProgramInterface) (locals : ReceiverLocals) (bs : ProtocolBlocks) (id : ℕ)
    → prog.protocol ≡ Protocol.udp
    → disasseble_protocol_udp prog.server_response locals.blocks ≡ ok (bs, id)
    → disasseble prog locals ≡ ok (record { blocks = bs; msg_id = id })
unfolding disasseble
disasseble-udp prog locals bs id u read = rw (disasseble, udp_of prog u, read) refl

-- A round reads the packet and handles it.
round_handles :
    (prog : ProgramInterface) (locals : ReceiverLocals) (low high : ℕ) (name text : List ℕ)
    (k : Listening prog (length (packet_of low high name text)))
    → IsText name
    → IsText text
    → (bs : ProtocolBlocks) × (receiver_round prog locals (packet_of low high name text) ≡ (
        receiver_fsm
          (arrived prog k.block (packet_of low high name text))
          (convert_2bytes_to_u16_int low high)
          bs
        >>= λ p. ok (p, record { blocks = bs; msg_id = convert_2bytes_to_u16_int low high })))
      × (bs.type ≡ type_code MsgType.msg)
      × Reads bs.zeroth name
      × Reads bs.first text
unfolding receiver_round receive_into
round_handles prog locals low high name text k n t =
    let packet = packet_of low high name text in
    let size : length packet ≡ length name + length text + 5 =
      omega (arith, length-append name (0 ∷ (text ++ 0 ∷ [])), length-append text (0 ∷ [])) in
    let prog' = arrived prog k.block packet in
    let (bs, read, type, zeroth, first) =
      disasseble_protocol_udp-packet prog'.server_response (over packet k.block) locals.blocks low
        high name text refl (over-Spells packet k.block (omega (arith, k.fits, k.small))) size
        (omega (arith, k.fits, k.small)) n.ended t.ended n.present t.present in
    let got = take-all prog.server_response.allocated packet (omega (arith, k.counted, k.fits)) in
    let some_bytes : (length packet == 0) ≡ false = ground arith in
    let parsed = disasseble-udp prog' locals bs (convert_2bytes_to_u16_int low high) k.udp read in
    (bs, rw (k.at, got, some_bytes, parsed, k.started) refl, type, zeroth, first)

-- A program that differs in buffers and in CONFIRMs at the front of the queue.
record Answered (prog : ProgramInterface) (m : Message) (n : ℕ) (p : ProgramInterface)
    : Type 0 where
  trace : p.trace ≡ prog.trace
  state : p.fsm_state ≡ prog.fsm_state
  messages : p.sending_queue.messages ≡ replicate n m ++ prog.sending_queue.messages

replicate-snoc {ℓ} :
    {A : Type ℓ} (n : ℕ) (m : A) (ms : List A) → replicate n m ++ m ∷ ms ≡ m ∷ (replicate n m ++ ms)
replicate-snoc zero m ms = refl
replicate-snoc (suc n) m ms = ap (◌∷◌ m) (replicate-snoc n m ms)

-- What the program has received once the packet is in its block.
Listening-Received :
    (prog : ProgramInterface) (low high : ℕ) (name text : List ℕ)
    (k : Listening prog (length (packet_of low high name text)))
    → Received (arrived prog k.block (packet_of low high name text)) low high
Listening-Received prog low high name text k = record {
  udp = k.udp;
  free = k.free;
  free' = k.free';
  valid = k.valid;
  object = over (packet_of low high name text) k.block;
  block = refl;
  size = omega arith;
  low_byte = refl;
  high_byte = refl;
}

-- It listens again after a CONFIRM was queued.
Listening-queued :
    (prog p : ProgramInterface) (packet : List ℕ) (k : Listening prog (length packet))
    → p.protocol ≡ prog.protocol
    → p.sending_queue.lock ≡ prog.sending_queue.lock
    → p.confirmed_messages.lock ≡ prog.confirmed_messages.lock
    → p.fsm_state ≡ prog.fsm_state
    → p.server_response ≡ (arrived prog k.block packet).server_response
    → IsValid p.sended_by_receiver
    → Listening p (length packet)
Listening-queued prog p packet k udp free free' state response valid =
    let same = length-over packet k.block k.fits in
    record {
      udp = udp ∙ k.udp;
      free = free ∙ k.free;
      free' = free' ∙ k.free';
      valid = valid;
      started = ap (λ s. fsm_eq s Fsm.start) state ∙ k.started;
      block = over packet k.block;
      at = ap (λ (b : Buffer). b.bytes) response;
      counted = ap (λ (b : Buffer). b.allocated) response ∙ k.counted ∙ sym same;
      fits = omega (arith, same, k.fits);
      small = omega (arith, same, k.small);
    }

later_packets :
    (n : ℕ) (prog : ProgramInterface) (locals : ReceiverLocals) (low high : ℕ) (name text : List ℕ)
    → Listening prog (length (packet_of low high name text))
    → IsText name
    → IsText text
    → contains_id prog.confirmed_messages.messages high low (type_code MsgType.msg) ≡ true
    → (p : ProgramInterface) × (l : ReceiverLocals) × (receive_packets n prog locals
          (packet_of low high name text)
        ≡ ok (p, l))
      × Answered prog (confirmation low high MsgFlags.confirm) n p
unfolding receive_packets
later_packets zero prog locals low high name text k nm tx found =
    (prog, locals, refl, record { trace = refl; state = refl; messages = refl })
later_packets (suc n) prog locals low high name text k nm tx found =
    let m = confirmation low high MsgFlags.confirm in
    let packet = packet_of low high name text in
    let id = convert_2bytes_to_u16_int low high in
    let prog' = arrived prog k.block packet in
    let (bs, handled, type, zeroth, first) = round_handles prog locals low high name text k nm tx in
    let r = Listening-Received prog low high name text k in
    let known = ap (contains_id prog.confirmed_messages.messages high low) type ∙ found in
    let (b, v, run) = receiver_fsm-repeated prog' id low high bs r (inl type) known in
    let k' = Listening-queued prog (queued prog' m b) packet k refl refl refl refl refl v in
    let (p, l, runs, a) =
      later_packets n (queued prog' m b) (record { blocks = bs; msg_id = id }) low high name text k'
        nm tx found in
    (
      p,
      l,
      rw (handled, run, runs) refl,
      record {
        trace = a.trace;
        state = a.state;
        messages = a.messages ∙ replicate-snoc n m prog.sending_queue.messages;
      },
    )

-- The ID that was added is found, if both of its bytes are below 128.
now_found :
    (prog : ProgramInterface) (low high type : ℕ)
    → ltb high 128 && ltb low 128 ≡ true
    → contains_id (remembered prog low high type).confirmed_messages.messages high low type ≡ true
unfolding contains_id
now_found prog low high type small = ground arith

-- The packet of a text message, whose name and text are not empty and have no zero byte and whose ID
-- has both bytes below 128 and was not confirmed before, arrives any number of times at a UDP client
-- that is past START, holds no lock and has room for it. The rounds of the receiver return: each
-- puts a CONFIRM of the ID before the messages that wait, only the first prints the name and the
-- text, and the state is kept.
pub receive_packets-once :
    (n : ℕ) (prog : ProgramInterface) (locals : ReceiverLocals) (low high : ℕ) (name text : List ℕ)
    → Listening prog (length (packet_of low high name text))
    → IsText name
    → IsText text
    → contains_id prog.confirmed_messages.messages high low (type_code MsgType.msg) ≡ false
    → ltb high 128 && ltb low 128 ≡ true
    → (p : ProgramInterface) × (l : ReceiverLocals) × (receive_packets
          (suc n)
          prog
          locals
          (packet_of low high name text)
        ≡ ok (p, l))
      × (p.trace
          ≡ Event.printed_message Stream.stdout "" name text
            ∷ Event.signaled Condition.rec_to_sender
            ∷ Event.signaled Condition.sender_empty_queue
            ∷ prog.trace)
      × (p.fsm_state ≡ prog.fsm_state)
      × (p.sending_queue.messages
          ≡ replicate (suc n) (confirmation low high MsgFlags.confirm)
            ++ prog.sending_queue.messages)
unfolding receive_packets
receive_packets-once n prog locals low high name text k nm tx new small =
    let m = confirmation low high MsgFlags.confirm in
    let packet = packet_of low high name text in
    let id = convert_2bytes_to_u16_int low high in
    let prog' = arrived prog k.block packet in
    let (bs, handled, type, zeroth, first) = round_handles prog locals low high name text k nm tx in
    let r = Listening-Received prog low high name text k in
    let unknown = ap (contains_id prog.confirmed_messages.messages high low) type ∙ new in
    let (b, v, run) = receiver_fsm-new prog' id low high bs name text r type zeroth first unknown in
    let q = shown prog' low high bs.type b name text in
    let k' = Listening-queued prog q packet k refl refl refl refl refl v in
    let found =
      subst (λ t. contains_id q.confirmed_messages.messages high low t ≡ true) type
        (now_found prog' low high bs.type small) in
    let (p, l, runs, a) =
      later_packets n q (record { blocks = bs; msg_id = id }) low high name text k' nm tx found in
    (
      p,
      l,
      rw (handled, run, runs) refl,
      a.trace,
      a.state,
      a.messages ∙ replicate-snoc n m prog.sending_queue.messages,
    )
