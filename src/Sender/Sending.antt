-- ===== src/Sender/Sending.antt =====
-- The end of a round of protocolSender(), src/protocolSender.c: the first message of the queue is
-- sent.
use ipk_project.Prelude.{
  ℕ, ◌+◌, ◌%◌, ◌/◌, ◌^◌, ◌≤◌, ◌≡◌, refl, ap, ◌∙◌, true, false, ◌||◌, List, ◌∷◌, some, arith, length,
  length-set, set, take,
}
use ipk_project.Outcome.{ok}
use ipk_project.Memory.{Object}
use ipk_project.Buffer.{Buffer}
use ipk_project.Buffer.Loading.{put_byte-ok}
use ipk_project.Utils.{break_u16_int_to_bytes}
use ipk_project.Queue.{
  Message, queue_set_message_id, write_id, queue_get_message, queue_get_message_flags,
  queue_message_sended,
}
use ipk_project.Queue.Types.{MsgFlags, flags_eq}
use ipk_project.Program.{ProgramInterface, Protocol, Event, is_udp, is_tcp}
use ipk_project.Sender.{send_first, used_cells, udp_sent}

-- the ID bytes of a message, at positions 1 and 2
abbrev pub numbered : ℕ → Object → Object
numbered counter o = set (set o 2 (some ((counter / 2 ^ 8) % 256))) 1 (some (counter % 256))

-- The first message is `m`, with the used cells of `o`, and `rest` waits behind it.
pub record Waiting (prog : ProgramInterface) (m : Message) (rest : List Message) (b : Buffer)
    (o : Object) : Type 0 where
  pub queue : prog.sending_queue.messages ≡ m ∷ rest
  pub buffer : m.buffer ≡ some b
  pub block : b.bytes ≡ some o
  pub within : b.used ≤ length o

used_cells-take :
    (b : Buffer) (o : Object)
    → b.bytes ≡ some o
    → b.used ≤ length o
    → used_cells b ≡ ok (take b.used o)
unfolding used_cells
used_cells-take b o e h = ground arith

write_id-numbered :
    (counter : ℕ) (m : Message) (b : Buffer) (o : Object)
    → m.buffer ≡ some b
    → b.bytes ≡ some o
    → 3 ≤ length o
    → write_id counter m
      ≡ ok (record m { buffer = some (record b { bytes = some (numbered counter o) }) })
unfolding write_id break_u16_int_to_bytes
write_id-numbered counter m b o e k h =
    let o1 = set o 2 (some ((counter / 2 ^ 8) % 256)) in
    let b1 : Buffer = record b { bytes = some o1 } in
    rw
      (
        e,
        put_byte-ok b o 2 ((counter / 2 ^ 8) % 256) k (omega arith),
        put_byte-ok b1 o1 1 (counter % 256) refl
            (omega (arith, length-set o 2 (some ((counter / 2 ^ 8) % 256)))),
      )
      refl

-- the first message once it has been sent over UDP
abbrev pub sent_message : ℕ → Message → Buffer → Object → Message
sent_message counter m b o = record m {
  buffer = some (record b { bytes = some (numbered counter o) });
  send_count = (m.send_count + 1) % 2 ^ 8;
}

udp_of :
    (prog : ProgramInterface)
    → prog.protocol ≡ Protocol.udp
    → (is_udp prog ≡ true) × (is_tcp prog ≡ false)
udp_of prog u = (
  ap (λ x. elim x [ Protocol.udp ↦ true | _ ↦ false ]) u,
  ap (λ x. elim x [ Protocol.tcp ↦ true | _ ↦ false ]) u,
)

-- what is left of the program after its first message was sent over UDP, to be sent again
abbrev pub after_udp :
    ProgramInterface → Message → List Message → Buffer → Object → ProgramInterface
after_udp prog m rest b o = record prog {
  sending_queue = record prog.sending_queue {
    messages = sent_message prog.msg_counter m b o ∷ rest;
  };
  trace = Event.sent (take b.used (numbered prog.msg_counter o)) ∷ prog.trace;
}

-- In the UDP variant a request, which is no CONFIRM and may be sent again, is sent with the bytes of
-- the counter as its ID; it stays the first of the queue, sent once more.
pub send_first-request :
    (prog : ProgramInterface) (m : Message) (rest : List Message) (b : Buffer) (o : Object)
    → prog.protocol ≡ Protocol.udp
    → Waiting prog m rest b o
    → 3 ≤ length o
    → flags_eq m.msg_flags MsgFlags.do_not_resend
        || (flags_eq m.msg_flags MsgFlags.confirm || flags_eq m.msg_flags MsgFlags.nok_reply)
      ≡ false
    → send_first prog true ≡ ok (after_udp prog m rest b o)
unfolding send_first queue_set_message_id queue_get_message queue_get_message_flags
    queue_message_sended udp_sent
send_first-request prog m rest b o u w long request =
    let variant = udp_of prog u in
    let udp = variant.0 in
    let tcp = variant.1 in
    let id = write_id-numbered prog.msg_counter m b o w.buffer w.block long in
    let o' = numbered prog.msg_counter o in
    let size : length o' ≡ length o =
      length-set (set o 2 (some ((prog.msg_counter / 2 ^ 8) % 256))) 1
        (some (prog.msg_counter % 256))
      ∙ length-set o 2 (some ((prog.msg_counter / 2 ^ 8) % 256)) in
    let cells =
      used_cells-take (record b { bytes = some o' }) o' refl (omega (arith, size, w.within)) in
    let no_confirm : flags_eq m.msg_flags MsgFlags.confirm ≡ false = ground arith in
    let no_reply : flags_eq m.msg_flags MsgFlags.nok_reply ≡ false = ground arith in
    let again : flags_eq m.msg_flags MsgFlags.do_not_resend ≡ false = ground arith in
    rw (udp, w.queue, no_confirm, no_reply, id, cells, tcp, again, no_confirm, no_reply) refl
