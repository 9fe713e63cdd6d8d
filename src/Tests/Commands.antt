-- ===== src/Tests/Commands.antt =====
-- Examples for main.c and cleanUpMaster.c.
use ipk_project.Prelude.{◌≡◌, refl, [], ◌∷◌, true, false, some}
use ipk_project.Memory.{store, read_cell}
use ipk_project.Utils.{copy_loop, uchar2_command_type}
use ipk_project.Utils.Types.{Fsm, CommandType}
use ipk_project.Buffer.{buffer_copy, buffer_resize, put_byte}
use ipk_project.Queue.{
  queue_lock, queue_unlock, queue_pop_all_messages, create_message, queue_add_message,
}
use ipk_project.Queue.Types.{MsgFlags}
use ipk_project.Program.{ProgramInterface}
use ipk_project.Protocol.Blocks.{ProtocolBlocks, zero_blocks}
use ipk_project.Protocol.Assemble.{assemble_protocol_udp, udp_by_type}
use ipk_project.Receiver.Send.{send_bye}
use ipk_project.Main.{
  filter_commands_by_fsm, MainLoop, user_command_round, user_command_test, eof_round,
  sigint_handler,
}
use ipk_project.Main.Filter.{Allowed, filter_commands_by_fsm-Allowed}
use ipk_project.Main.Options.{user_command_round-eof}
use ipk_project.Main.Ends.{sigint_handler-state}
use ipk_project.Sender.{Others}
use ipk_project.Tests.Data.{value, udp_program, text_at}

abbrev message_blocks : ProtocolBlocks
message_blocks = record zero_blocks {
  type = 5;
  zeroth = record { start = some (text_at (b'h' ∷ [])); len = 1 };
}

filter_commands_by_fsm-Allowed_example : Allowed CommandType.msg true Fsm.open_state Fsm.open_state
unfolding filter_commands_by_fsm uchar2_command_type
filter_commands_by_fsm-Allowed_example =
    filter_commands_by_fsm-Allowed message_blocks udp_program MsgFlags.no_flag
      (record { can_be_sended = true; program = udp_program; flags = MsgFlags.no_flag }) refl

abbrev at_end : MainLoop
at_end = record { program = udp_program; input = []; eof_detected = true; blocks = zero_blocks }

unfoldable after_end : MainLoop × Others
after_end = value (at_end, []) (user_command_round at_end [])

user_command_round-eof_example :
    (after_end.0.program.fsm_state ≡ Fsm.empty_q_bye)
    × (after_end.0.program.sending_queue.lock ≡ false)
    × (user_command_test after_end.0.program ≡ false)
unfolding after_end user_command_round eof_round send_bye queue_lock queue_unlock create_message
    queue_add_message buffer_copy buffer_resize copy_loop store read_cell put_byte
    assemble_protocol_udp udp_by_type uchar2_command_type
user_command_round-eof_example = user_command_round-eof at_end [] after_end refl refl

unfoldable interrupted : ProgramInterface × Others
interrupted = value (udp_program, []) (sigint_handler udp_program ((λ p. p) ∷ []))

sigint_handler-state_example :
    (interrupted.0.fsm_state ≡ Fsm.sigint_bye) × (interrupted.0.sending_queue.lock ≡ false)
unfolding interrupted sigint_handler send_bye queue_lock queue_unlock queue_pop_all_messages
    create_message queue_add_message buffer_copy buffer_resize copy_loop store read_cell put_byte
    assemble_protocol_udp udp_by_type uchar2_command_type
sigint_handler-state_example = sigint_handler-state udp_program [] interrupted refl
