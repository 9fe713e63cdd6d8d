-- ===== src/Tests/Together.antt =====
-- Examples for the threads together.
use ipk_project.Prelude.{◌≡◌, refl, List, [], ◌∷◌, true, false, ◌++◌, inl, inr}
use ipk_project.Buffer.{buffer_copy, load_buffer_from_stdin}
use ipk_project.Main.{
  CliOption, MainLoop, filter_commands_by_fsm, user_command_round, user_command_test,
  process_arguments, check_arguments,
}
use ipk_project.Memory.{read, store}
use ipk_project.Outcome.{ok}
use ipk_project.Program.{ProgramInterface, Protocol, program_interface_init}
use ipk_project.Program.Accepted.{connected}
use ipk_project.Protocol.Assemble.{
  add_block, add_string, tcp_overhead, tcp_by_type, assemble_protocol_tcp,
}
use ipk_project.Protocol.Blocks.{ProtocolBlocks, zero_blocks, codes, strncmp_equal}
use ipk_project.Protocol.Disassemble.{disasseble_protocol_tcp}
use ipk_project.Protocol.Input.{allowed, check_loop, control_word, user_input_to_cmds}
use ipk_project.Queue.{
  queue_lock, queue_unlock, queue_get_message, create_message, queue_add_message, queue_is_empty,
  queue_get_message_flags, queue_get_message_msg_type,
}
use ipk_project.Queue.Types.{uchar2msg_type}
use ipk_project.Receiver.{ReceiverLocals, receive_into, receiver_start, receiver_round}
use ipk_project.Receiver.Handlers.{
  string_of, handle_reply_tcp, on_reply, receive_by_type, receiver_fsm,
}
use ipk_project.Receiver.Handlers.Security.{PositiveReply}
use ipk_project.Utils.Types.{Fsm}
use ipk_project.Sender.{Others, logic_fsm, sender_round}
use ipk_project.System.{Move, Run, Turns, Reachable, thread_test, main_start}
use ipk_project.System.Reaching.{Reachable-Unanswered, UnansweredMove}
use ipk_project.Utils.{get_word, is_ending_character, string_replace, uchar2_command_type}
use ipk_project.Tests.Data.{value}

abbrev options : List CliOption
options = CliOption.transport (codes "tcp") ∷ CliOption.server_address (codes "h") ∷ []

unfoldable started : ProgramInterface
started = value program_interface_init (main_start options)

abbrev nothing_else : Others
nothing_else = (λ p. p) ∷ []

abbrev authenticating : MainLoop
authenticating = record {
  program = started;
  input = codes "/auth u s D\n";
  eof_detected = false;
  blocks = zero_blocks;
}

unfoldable entered : MainLoop × Others
entered = value (authenticating, []) (user_command_round authenticating nothing_else)

unfoldable sent : ProgramInterface × Others
sent = value (started, []) (sender_round entered.0.program true nothing_else)

abbrev locals : ReceiverLocals
locals = record { blocks = zero_blocks; msg_id = 0 }

unfoldable answered : ProgramInterface × ReceiverLocals
answered =
    value (started, locals)
      (receiver_round (receiver_start sent.0) locals (codes "REPLY NOK IS x" ++ 13 ∷ 10 ∷ 0 ∷ []))

started_lem : main_start options ≡ ok started
unfolding started process_arguments check_arguments load_buffer_from_stdin main_start read store
    string_replace
started_lem = refl

entered_lem : user_command_round authenticating nothing_else ≡ ok entered
unfolding started entered filter_commands_by_fsm user_command_round process_arguments
    check_arguments buffer_copy load_buffer_from_stdin main_start read store queue_lock
    create_message queue_add_message get_word is_ending_character string_replace uchar2_command_type
    strncmp_equal add_block add_string tcp_overhead tcp_by_type assemble_protocol_tcp allowed
    check_loop control_word user_input_to_cmds
entered_lem = refl

going_on : user_command_test authenticating.program ≡ true
unfolding started user_command_test process_arguments check_arguments load_buffer_from_stdin
    main_start read store string_replace
going_on = refl

sent_lem : sender_round entered.0.program true nothing_else ≡ ok sent
unfolding started entered sent filter_commands_by_fsm user_command_round process_arguments
    check_arguments logic_fsm sender_round buffer_copy load_buffer_from_stdin main_start read store
    queue_lock queue_unlock queue_get_message create_message queue_add_message queue_is_empty
    queue_get_message_flags queue_get_message_msg_type get_word is_ending_character string_replace
    uchar2_command_type uchar2msg_type strncmp_equal add_block add_string tcp_overhead tcp_by_type
    assemble_protocol_tcp allowed check_loop control_word user_input_to_cmds
sent_lem = refl

awake : thread_test entered.0.program ≡ true
unfolding started entered filter_commands_by_fsm user_command_round process_arguments
    check_arguments buffer_copy load_buffer_from_stdin thread_test main_start read store queue_lock
    create_message queue_add_message queue_is_empty get_word is_ending_character string_replace
    uchar2_command_type strncmp_equal add_block add_string tcp_overhead tcp_by_type
    assemble_protocol_tcp allowed check_loop control_word user_input_to_cmds
awake = refl

answered_lem :
    receiver_round (receiver_start sent.0) locals (codes "REPLY NOK IS x" ++ 13 ∷ 10 ∷ 0 ∷ [])
    ≡ ok answered
unfolding started entered sent answered filter_commands_by_fsm user_command_round process_arguments
    check_arguments logic_fsm sender_round receive_into receiver_start receiver_round buffer_copy
    load_buffer_from_stdin main_start read store queue_lock queue_unlock queue_get_message
    create_message queue_add_message queue_is_empty queue_get_message_flags
    queue_get_message_msg_type get_word is_ending_character string_replace uchar2_command_type
    uchar2msg_type strncmp_equal disasseble_protocol_tcp add_block add_string tcp_overhead
    tcp_by_type assemble_protocol_tcp allowed check_loop control_word user_input_to_cmds string_of
    handle_reply_tcp on_reply receive_by_type receiver_fsm
answered_lem = refl

listening : thread_test (receiver_start sent.0) ≡ true
unfolding started entered sent filter_commands_by_fsm user_command_round process_arguments
    check_arguments logic_fsm sender_round receiver_start buffer_copy load_buffer_from_stdin
    thread_test main_start read store queue_lock queue_unlock queue_get_message create_message
    queue_add_message queue_is_empty queue_get_message_flags queue_get_message_msg_type get_word
    is_ending_character string_replace uchar2_command_type uchar2msg_type strncmp_equal add_block
    add_string tcp_overhead tcp_by_type assemble_protocol_tcp allowed check_loop control_word
    user_input_to_cmds
listening = refl

still_tcp : (receiver_start sent.0).protocol ≡ Protocol.tcp
unfolding started entered sent answered filter_commands_by_fsm user_command_round process_arguments
    check_arguments logic_fsm sender_round receive_into receiver_start receiver_round buffer_copy
    load_buffer_from_stdin main_start read store queue_lock queue_unlock queue_get_message
    create_message queue_add_message queue_is_empty queue_get_message_flags
    queue_get_message_msg_type get_word is_ending_character string_replace uchar2_command_type
    uchar2msg_type strncmp_equal disasseble_protocol_tcp add_block add_string tcp_overhead
    tcp_by_type assemble_protocol_tcp allowed check_loop control_word user_input_to_cmds string_of
    handle_reply_tcp on_reply receive_by_type receiver_fsm
still_tcp = refl

answered_no : answered.1.blocks.reply_result_bool ≡ false
unfolding started entered sent answered filter_commands_by_fsm user_command_round process_arguments
    check_arguments logic_fsm sender_round receive_into receiver_start receiver_round buffer_copy
    load_buffer_from_stdin main_start read store queue_lock queue_unlock queue_get_message
    create_message queue_add_message queue_is_empty queue_get_message_flags
    queue_get_message_msg_type get_word is_ending_character string_replace uchar2_command_type
    uchar2msg_type strncmp_equal disasseble_protocol_tcp add_block add_string tcp_overhead
    tcp_by_type assemble_protocol_tcp allowed check_loop control_word user_input_to_cmds string_of
    handle_reply_tcp on_reply receive_by_type receiver_fsm
answered_no = refl

no_positive :
    (bs : ProtocolBlocks) (s : Fsm) (protocol : Protocol)
    → protocol ≡ Protocol.tcp
    → bs.reply_result_bool ≡ false
    → ¬ PositiveReply protocol s bs
no_positive bs s protocol t n (type, inl (u, a, p)) = cc
no_positive bs s protocol t n (type, inr (u, a, p)) = cc

-- A client that a TCP server refused: the user's /auth, its sending, and the reply, with a zero
-- byte behind it.
refused_client : Reachable answered.0
refused_client = record {
  options = options;
  started = started;
  processed = started_lem;
  run =
      Run.move
        (Run.move
          (Run.move
            (Run.move Run.stay (
              Move.command authenticating nothing_else entered going_on
                (Turns.turn (λ q. Run.stay) Turns.no_more) entered_lem))
            (Move.send true nothing_else sent awake (Turns.turn (λ q. Run.stay) Turns.no_more)
              sent_lem))
          Move.receiver_starts)
        (Move.receive locals (codes "REPLY NOK IS x" ++ 13 ∷ 10 ∷ 0 ∷ []) answered listening
          answered_lem);
}

Reachable-Unanswered_example : connected answered.0.fsm_state ≡ false
unfolding UnansweredMove refused_client
Reachable-Unanswered_example = Reachable-Unanswered answered.0 refused_client (
  (((tt, ((λ q. tt), tt)), ((λ q. tt), tt)), tt),
  λ w.
      no_positive answered.1.blocks (receiver_start sent.0).fsm_state
        (receiver_start sent.0).protocol still_tcp answered_no w.1,
)
