-- ===== src/Tests/Receiving.antt =====
-- Examples for protocolReceiver.c.
use ipk_project.Prelude.{◌≡◌, refl, [], ◌∷◌, false, inr, some, arith}
use ipk_project.Outcome.{fault}
use ipk_project.Memory.{read, read_cell, store}
use ipk_project.Utils.{copy_loop, string_replace, convert_2bytes_to_u16_int, uchar2_command_type}
use ipk_project.Utils.Types.{Fsm}
use ipk_project.Buffer.{buffer_copy, buffer_resize, put_byte}
use ipk_project.Queue.{
  queue_lock, queue_unlock, queue_get_message, queue_get_message_id, buffer_at, create_message,
  queue_add_message_priority, queue_add_message_only_id, queue_contains_message_id,
}
use ipk_project.Queue.Types.{MsgFlags, uchar2msg_type}
use ipk_project.Program.{ProgramInterface}
use ipk_project.Protocol.Assemble.{assemble_protocol_udp, udp_by_type}
use ipk_project.Buffer.Laws.{IsValid}
use ipk_project.Receiver.Send.{send_confirm}
use ipk_project.Receiver.Handlers.{
  receiver_fsm, filter_repetitive, receive_by_type, on_bye, locked_confirm, handle_confirm_udp,
  confirm_top, confirm_first, handle_reply_udp,
}
use ipk_project.Receiver.Handlers.Confirm.{Confirmed, handle_confirm_udp-Confirmed}
use ipk_project.Protocol.Blocks.{ProtocolBlocks}
use ipk_project.Receiver.Handlers.Rejection.{handle_reply_udp-empty}
use ipk_project.Receiver.Step.{receiver_fsm-UdpMove, receiver_fsm-TcpMove}
use ipk_project.Tests.Data.{
  value, udp_program, tcp_program, bye_blocks, message_of, queue_of, text_at,
}

unfoldable after_bye : ProgramInterface
after_bye = value udp_program (receiver_fsm udp_program 263 bye_blocks)

receiver_fsm-UdpMove_example :
    (after_bye.fsm_state ≡ Fsm.end_state) × (after_bye.sending_queue.lock ≡ false)
unfolding after_bye receiver_fsm filter_repetitive receive_by_type on_bye locked_confirm
    send_confirm queue_lock queue_unlock buffer_at read read_cell store copy_loop string_replace
    buffer_copy buffer_resize put_byte create_message queue_add_message_priority
    queue_add_message_only_id queue_contains_message_id uchar2msg_type uchar2_command_type
    assemble_protocol_udp udp_by_type
receiver_fsm-UdpMove_example = receiver_fsm-UdpMove udp_program 263 bye_blocks after_bye refl refl

unfoldable after_tcp_bye : ProgramInterface
after_tcp_bye = value tcp_program (receiver_fsm tcp_program 0 bye_blocks)

receiver_fsm-TcpMove_example :
    (after_tcp_bye.fsm_state ≡ Fsm.end_state) × (after_tcp_bye.sending_queue.lock ≡ false)
unfolding after_tcp_bye receiver_fsm receive_by_type on_bye uchar2msg_type
receiver_fsm-TcpMove_example =
    receiver_fsm-TcpMove tcp_program 0 bye_blocks after_tcp_bye refl refl refl

abbrev waiting : ProgramInterface
waiting = record udp_program {
  sending_queue = queue_of (message_of (4 ∷ 7 ∷ 1 ∷ 0 ∷ []) MsgFlags.no_flag 4 ∷ []);
}

unfoldable after_confirm : ProgramInterface
after_confirm = value waiting (handle_confirm_udp waiting 263)

handle_confirm_udp-Confirmed_example : Confirmed waiting 263 after_confirm
unfolding after_confirm handle_confirm_udp confirm_top confirm_first queue_lock queue_unlock
    queue_get_message queue_get_message_id buffer_at read read_cell convert_2bytes_to_u16_int
handle_confirm_udp-Confirmed_example = handle_confirm_udp-Confirmed waiting 263 after_confirm refl

abbrev joining : ProgramInterface
joining = record udp_program { fsm_state = Fsm.join_atempt }

abbrev negative : ProtocolBlocks
negative = record bye_blocks {
  type = 1;
  zeroth = record { start = some (text_at (0 ∷ [])); len = 1 };
}

handle_reply_udp-empty_example : handle_reply_udp joining 263 negative ≡ fault
unfolding read read_cell
handle_reply_udp-empty_example =
    handle_reply_udp-empty joining 263 negative (text_at (0 ∷ [])) 0 (inr refl) refl refl refl refl
      (λ e. ground arith)

no_block-IsValid : IsValid udp_program.sended_by_receiver
no_block-IsValid = record { counted = refl; within = omega arith; small = omega arith }
