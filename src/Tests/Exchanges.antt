-- ===== src/Tests/Exchanges.antt =====
-- Examples for requests, their confirmations, and messages of the server that come again.
use ipk_project.Prelude.{
  ◌≡◌, refl, ◌+◌, ◌%◌, ◌^◌, ◌++◌, [], ◌∷◌, map, some, none, inl, arith, false, true, replicate,
}
use ipk_project.Outcome.{ok, blocked}
use ipk_project.Utils.Types.{Fsm}
use ipk_project.Sender.Reset.{sender_round-reset}
use ipk_project.Utils.{convert_2bytes_to_u16_int}
use ipk_project.Buffer.{Buffer}
use ipk_project.Buffer.Laws.{IsValid}
use ipk_project.Queue.{Message, contains_id}
use ipk_project.Queue.Types.{MsgFlags}
use ipk_project.Program.{ProgramInterface, Event, Stream, Condition}
use ipk_project.Protocol.Blocks.{ProtocolBlocks, zero_blocks}
use ipk_project.Receiver.Confirming.{confirmation, queued}
use ipk_project.Receiver.Handlers.{receiver_fsm, handle_confirm_udp, locked_confirm}
use ipk_project.Receiver.Handlers.Repeated.{Received, receiver_fsm-repeated}
use ipk_project.Receiver.{ReceiverLocals}
use ipk_project.Receiver.Packets.{Listening, receive_packets, receive_packets-once}
use ipk_project.Protocol.Disassemble.Packet.{packet_of}
use ipk_project.Sender.{sender_round, send_first, filter_resent_messages, pop}
use ipk_project.System.Exchange.{with_lock, send_first-confirm-filter}
use ipk_project.Tests.Data.{udp_program, message_of, queue_of, full, text_at}

-- a MSG of the server with the ID 263, and a message that waits to be sent
abbrev received_program : ProgramInterface
received_program = record udp_program {
  server_response = full (4 ∷ 7 ∷ 1 ∷ b'A' ∷ 0 ∷ b'h' ∷ b'i' ∷ 0 ∷ []);
  sending_queue = queue_of (message_of (4 ∷ 0 ∷ 0 ∷ 0 ∷ []) MsgFlags.no_flag 4 ∷ []);
}

abbrev text_blocks : ProtocolBlocks
text_blocks = record zero_blocks {
  type = 4;
  zeroth = record { start = some (text_at (b'A' ∷ [])); len = 1 };
  first = record { start = some (text_at (b'h' ∷ b'i' ∷ [])); len = 2 };
}

listening : Listening received_program 8
listening = record {
  udp = refl;
  free = refl;
  free' = refl;
  valid = record { counted = refl; within = omega arith; small = omega arith };
  started = refl;
  block = map some (4 ∷ 7 ∷ 1 ∷ b'A' ∷ 0 ∷ b'h' ∷ b'i' ∷ 0 ∷ []);
  at = refl;
  counted = refl;
  fits = omega arith;
  small = omega arith;
}

abbrev locals : ReceiverLocals
locals = record { blocks = zero_blocks; msg_id = 0 }

receive_packets-once_example :
    (p : ProgramInterface) × (l : ReceiverLocals) × (receive_packets 3 received_program locals
        (packet_of 7 1 (b'A' ∷ []) (b'h' ∷ b'i' ∷ []))
      ≡ ok (p, l))
    × (p.trace
        ≡ Event.printed_message Stream.stdout "" (b'A' ∷ []) (b'h' ∷ b'i' ∷ [])
          ∷ Event.signaled Condition.rec_to_sender
          ∷ Event.signaled Condition.sender_empty_queue
          ∷ [])
    × (p.fsm_state ≡ received_program.fsm_state)
    × (p.sending_queue.messages
        ≡ replicate 3 (confirmation 7 1 MsgFlags.confirm)
          ++ received_program.sending_queue.messages)
unfolding contains_id
receive_packets-once_example =
    receive_packets-once 2 received_program locals 7 1 (b'A' ∷ []) (b'h' ∷ b'i' ∷ []) listening
      (record { present = omega arith; ended = (refl, tt) })
      (record { present = omega arith; ended = (refl, (refl, tt)) }) refl refl

-- the same program once it has confirmed this message
abbrev confirmed_program : ProgramInterface
confirmed_program = record received_program {
  confirmed_messages = queue_of (
      record {
        buffer = none;
        send_count = 1;
        confirmed = 7;
        type = 4;
        msg_flags = MsgFlags.err_flag;
      }
      ∷ []);
}

confirmed_program-Received : Received confirmed_program 7 1
confirmed_program-Received = record {
  udp = refl;
  free = refl;
  free' = refl;
  valid = record { counted = refl; within = omega arith; small = omega arith };
  object = map some (4 ∷ 7 ∷ 1 ∷ b'A' ∷ 0 ∷ b'h' ∷ b'i' ∷ 0 ∷ []);
  block = refl;
  size = omega arith;
  low_byte = refl;
  high_byte = refl;
}

receiver_fsm-repeated_example :
    (b : Buffer) × IsValid b
    × (receiver_fsm confirmed_program 0 text_blocks
        ≡ ok (queued confirmed_program (confirmation 7 1 MsgFlags.confirm) b))
unfolding contains_id
receiver_fsm-repeated_example =
    receiver_fsm-repeated confirmed_program 0 7 1 text_blocks confirmed_program-Received (inl refl)
      refl

-- a request that was sent once, first in the locked queue, with the counter at 300
abbrev request : Message
request = record (message_of (4 ∷ 0 ∷ 0 ∷ b'h' ∷ 0 ∷ []) MsgFlags.no_flag 4) { send_count = 1 }

abbrev behind : Message
behind = message_of (4 ∷ 0 ∷ 0 ∷ b'y' ∷ 0 ∷ []) MsgFlags.no_flag 4

abbrev sending_program : ProgramInterface
sending_program = record udp_program {
  msg_counter = 300;
  sending_queue = record { messages = request ∷ behind ∷ []; lock = true };
}

abbrev request_buffer : Buffer
request_buffer = full (4 ∷ 0 ∷ 0 ∷ b'h' ∷ 0 ∷ [])

send_first-confirm-filter_example :
    (p : ProgramInterface) × (p' : ProgramInterface) × (send_first sending_program true ≡ ok p)
    × (p.trace ≡ Event.sent (map some (4 ∷ 44 ∷ 1 ∷ b'h' ∷ 0 ∷ [])) ∷ [])
    × (handle_confirm_udp (with_lock false p) (convert_2bytes_to_u16_int 44 1) ≡ ok p')
    × (p'.msg_counter ≡ (convert_2bytes_to_u16_int 44 1 + 1) % 2 ^ 16)
    × (filter_resent_messages (with_lock true p')
        ≡ filter_resent_messages (pop (with_lock true p')))
    × ((pop (with_lock true p')).sending_queue.messages ≡ behind ∷ [])
send_first-confirm-filter_example =
    send_first-confirm-filter sending_program request (behind ∷ []) request_buffer
      (map some (4 ∷ 0 ∷ 0 ∷ b'h' ∷ 0 ∷ [])) refl refl
      (record { queue = refl; buffer = refl; block = refl; within = omega arith }) (omega arith)
      refl (omega arith)

-- a BYE that was sent four times and never confirmed
abbrev last_bye : Message
last_bye = record (message_of (255 ∷ 0 ∷ 0 ∷ []) MsgFlags.bye 255) { send_count = 4 }

abbrev ending_program : ProgramInterface
ending_program = record udp_program {
  fsm_state = Fsm.end_w84_conf;
  sending_queue = queue_of (last_bye ∷ []);
}

sender_round-reset_example :
    (p : ProgramInterface) × (sender_round ending_program true [] ≡ ok (p, []))
    × (p.fsm_state ≡ Fsm.end_state)
    × (p.sending_queue.lock ≡ true)
    × (locked_confirm p MsgFlags.confirm ≡ blocked)
sender_round-reset_example =
    sender_round-reset ending_program last_bye true [] MsgFlags.confirm refl refl refl (omega arith)
