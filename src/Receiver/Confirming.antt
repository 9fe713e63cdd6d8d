-- ===== src/Receiver/Confirming.antt =====
-- sendConfirm() of src/protocolReceiver.c: the CONFIRM that stands at the front of the queue after it.
use ipk_project.Prelude.{ℕ, ◌^◌, ◌<◌, ◌≤◌, ◌≡◌, refl, [], ◌∷◌, some, arith, length, get_elem?}
use ipk_project.Outcome.{ok}
use ipk_project.Memory.{Object, read, read_cell, add_size}
use ipk_project.Utils.{uchar2_command_type}
use ipk_project.Buffer.{Buffer, buffer_resize}
use ipk_project.Buffer.Loading.{put_byte-ok}
use ipk_project.Buffer.Laws.{
  IsValid, buffer_copy-fresh, buffer_resize-Resized, buffer_resize-IsValid,
}
use ipk_project.Queue.{Message, create_message, queue_add_message_priority}
use ipk_project.Queue.Types.{MsgFlags}
use ipk_project.Program.{ProgramInterface}
use ipk_project.Protocol.Assemble.{assemble_protocol_udp, udp_by_type}
use ipk_project.Receiver.Send.{send_confirm}

-- The message CONFIRM of an ID, as it waits in the queue.
abbrev pub confirmation : ℕ → ℕ → MsgFlags → Message
confirmation low high flags = record {
  buffer =
      some (record { bytes = some (some 0 ∷ some low ∷ some high ∷ []); allocated = 3; used = 3 });
  send_count = 0;
  confirmed = 0;
  type = 0;
  msg_flags = flags;
}

read-at :
    (o : Object) (i c : ℕ)
    → i < 2 ^ 63
    → get_elem? o i ≡ some (some c)
    → read (record { object = o; offset = i }) 0 ≡ ok c
unfolding read read_cell
read-at o i c h e = let same : add_size i 0 ≡ i = omega arith in rw (same, e) refl

-- A message is put before the others, and the receiver's buffer is another one.
abbrev pub queued : ProgramInterface → Message → Buffer → ProgramInterface
queued prog m b = record prog {
  sending_queue = record prog.sending_queue { messages = m ∷ prog.sending_queue.messages };
  sended_by_receiver = b;
}

pub send_confirm-queued :
    (prog : ProgramInterface) (flags : MsgFlags) (o : Object) (low high : ℕ)
    → IsValid prog.sended_by_receiver
    → prog.server_response.bytes ≡ some o
    → get_elem? o 1 ≡ some (some low)
    → get_elem? o 2 ≡ some (some high)
    → (b : Buffer) × IsValid b
      × (send_confirm prog flags ≡ ok (queued prog (confirmation low high flags) b))
unfolding send_confirm assemble_protocol_udp udp_by_type uchar2_command_type
    queue_add_message_priority create_message
send_confirm-queued prog flags o low high v e l h =
    let b = buffer_resize prog.sended_by_receiver 4 in
    let v1 = buffer_resize-IsValid prog.sended_by_receiver 4 v (omega arith) in
    let (m, r) = buffer_resize-Resized b 12 v1.counted (omega arith) in
    let v2 = buffer_resize-IsValid b 12 v1 (omega arith) in
    go m r.block (omega (arith, r.fits)) r.counted v2
  where
    go :
        (m : Object)
        → (buffer_resize (buffer_resize prog.sended_by_receiver 4) 12).bytes ≡ some m
        → 3 ≤ length m
        → (buffer_resize (buffer_resize prog.sended_by_receiver 4) 12).allocated ≡ length m
        → IsValid (buffer_resize (buffer_resize prog.sended_by_receiver 4) 12)
        → (b : Buffer) × IsValid b
          × (send_confirm prog flags ≡ ok (queued prog (confirmation low high flags) b))
    go [] k n a w = absurd (omega arith)
    go (c0 ∷ []) k n a w = absurd (omega arith)
    go (c0 ∷ c1 ∷ []) k n a w = absurd (omega arith)
    go (c0 ∷ c1 ∷ c2 ∷ cs) k n a w =
        let b = buffer_resize (buffer_resize prog.sended_by_receiver 4) 12 in
        let m1 : Object = some 0 ∷ c1 ∷ c2 ∷ cs in
        let m2 : Object = some 0 ∷ some low ∷ c2 ∷ cs in
        let m3 : Object = some 0 ∷ some low ∷ some high ∷ cs in
        let b1 : Buffer = record b { bytes = some m1 } in
        let b2 : Buffer = record b { bytes = some m2 } in
        let b3 : Buffer = record b { bytes = some m3; used = 3 } in
        (
          b3,
          record { counted = a; within = omega (arith, a, n); small = w.small },
          rw
              (
                e,
                put_byte-ok b (c0 ∷ c1 ∷ c2 ∷ cs) 0 0 k (omega arith),
                read-at o 1 low (omega arith) l,
                put_byte-ok b1 m1 1 low refl (omega arith),
                read-at o 2 high (omega arith) h,
                put_byte-ok b2 m2 2 high refl (omega arith),
                buffer_copy-fresh b3 m3 refl (omega arith) (omega arith) (omega arith),
              )
              refl,
        )

-- With the ID of the server's message at hand, sendConfirm() returns, and a CONFIRM of exactly this
-- ID, with the flags asked for, is the first message of the queue, before all others.
pub send_confirm-front :
    (prog : ProgramInterface) (flags : MsgFlags) (o : Object) (low high : ℕ)
    → IsValid prog.sended_by_receiver
    → prog.server_response.bytes ≡ some o
    → get_elem? o 1 ≡ some (some low)
    → get_elem? o 2 ≡ some (some high)
    → (p : ProgramInterface) × (send_confirm prog flags ≡ ok p)
      × (p.sending_queue.messages ≡ confirmation low high flags ∷ prog.sending_queue.messages)
send_confirm-front prog flags o low high v e l h =
    let (b, w, run) = send_confirm-queued prog flags o low high v e l h in
    (queued prog (confirmation low high flags) b, run, refl)
