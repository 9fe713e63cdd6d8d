-- ===== src/Main.antt =====
-- src/main.c and the signal handler of src/libs/cleanUpMaster.c: the command line, the filter for
-- the user's commands, the loop of the main thread, and the ends of the program by an error or by
-- SIGINT. getopt() and atoi() are not modelled: an option comes with its number already read.
pub mod Ends
pub mod Options
pub mod Filter
pub mod Security
pub mod Typed
use Prim.Native.String.{String}
use ipk_project.Prelude.{
  ℕ, ◌+◌, ◌-◌, ◌%◌, ◌^◌, Bool, true, false, ◌&&◌, ◌||◌, not, List, [], ◌∷◌, ◌++◌, Option, none,
  some, map, ◌==◌, ltb, leb, if◌then◌else◌, length,
}
use ipk_project.Outcome.{Outcome, ok, error, ErrorCode, ◌>>=◌}
use ipk_project.Memory.{or_fault, store}
use ipk_project.Utils.{BytesBlock, string_replace, uchar2_command_type, copy_loop}
use ipk_project.Utils.Types.{Fsm, fsm_code, fsm_eq, CommandType, command_code}
use ipk_project.Buffer.{Buffer, buffer_resize, put_byte, load_buffer_from_stdin}
use ipk_project.Queue.{
  queue_lock, queue_unlock, queue_is_empty, queue_add_message, queue_pop_all_messages,
}
use ipk_project.Queue.Types.{MsgFlags, MsgType, type_code}
use ipk_project.Program.{
  ProgramInterface, Protocol, Condition, Event, Stream, signal, print_stderr, print_user_help_menu,
  set_program_state,
}
use ipk_project.Protocol.Blocks.{ProtocolBlocks, codes, literal}
use ipk_project.Protocol.Assemble.{Assembled}
use ipk_project.Protocol.Input.{user_input_to_cmds}
use ipk_project.Receiver.Send.{assemble, send_bye}
use ipk_project.Sender.{Others, wait}

-- A stored name is replaced by the word of a command: resize, copy, length, zero byte.
store_name : Buffer → BytesBlock → Outcome Buffer
store_name name word = do
  let b = buffer_resize name ((word.len + 1) % 2 ^ 64)
  m ← or_fault b.bytes
  m' ← string_replace m 0 word.start word.len
  put_byte (record b { bytes = some m'; used = word.len }) word.len 0

-- What the filter leaves: whether to send, the program and the flags.
pub record Filtered : Type 0 where
  pub can_be_sended : Bool
  pub program : ProgramInterface
  pub flags : MsgFlags

abbrev filtered : Bool → ProgramInterface → MsgFlags → Filtered
filtered can prog flags = record { can_be_sended = can; program = prog; flags = flags }

-- the end of the function, for a command that the state does not allow
not_connected : ProgramInterface → MsgFlags → Filtered
not_connected prog flags =
    filtered false
      (print_stderr prog
        "ERR: You are not connected to server! Use /auth to connect to server or /help for more information.\n")
      flags

filter_auth : ProtocolBlocks → ProgramInterface → MsgFlags → Outcome Filtered
unfolding store_name not_connected
filter_auth blocks prog flags = do
  name ← store_name prog.display_name blocks.third
  let named : ProgramInterface = record prog { display_name = name }
  ok (
      if fsm_eq named.fsm_state Fsm.start
      then filtered true (set_program_state named Fsm.auth_w82_be_sended) MsgFlags.auth
      else not_connected named flags)

filter_join : ProtocolBlocks → ProgramInterface → MsgFlags → Outcome Filtered
unfolding store_name not_connected
filter_join blocks prog flags = elim (fsm_eq prog.fsm_state Fsm.open_state) [
  | true ↦ do
    channel ← store_name prog.channel_id blocks.first
    ok (filtered true (record prog { channel_id = channel }) flags)
  | false ↦ ok (not_connected prog flags)
]

filter_rename : ProtocolBlocks → ProgramInterface → MsgFlags → Outcome Filtered
unfolding store_name not_connected
filter_rename blocks prog flags = elim (fsm_eq prog.fsm_state Fsm.open_state) [
  | true ↦ do
    name ← store_name prog.display_name blocks.first
    ok (filtered false (record prog { display_name = name }) flags)
  | false ↦ ok (not_connected prog flags)
]

unfoldable pub filter_commands_by_fsm :
    ProtocolBlocks → ProgramInterface → MsgFlags → Outcome Filtered
unfolding filter_auth filter_join filter_rename not_connected
filter_commands_by_fsm blocks prog flags = elim (uchar2_command_type blocks.type) [
  | CommandType.none_entered ↦ ok (filtered false prog flags)
  | CommandType.auth ↦ filter_auth blocks prog flags
  | CommandType.help ↦ ok (filtered false (print_user_help_menu prog) flags)
  | CommandType.join ↦ filter_join blocks prog flags
  | CommandType.rename ↦ filter_rename blocks prog flags
  | CommandType.msg ↦ ok (
      if fsm_eq prog.fsm_state Fsm.open_state
      then filtered true prog flags
      else not_connected prog flags)
  | CommandType.exit ↦ ok (filtered true prog flags)
  | CommandType.missing ↦ ok (
      filtered false (print_stderr prog "ERR: Bad command argument / not enough arguments.\n")
        flags)
  | _ ↦ ok (not_connected prog flags)
]

-- The state of the main loop: the program, the input that is left, `eofDetected` and the blocks.
pub record MainLoop : Type 0 where
  pub program : ProgramInterface
  pub input : List ℕ
  pub eof_detected : Bool
  pub blocks : ProtocolBlocks

-- the message is added to the queue, and the sender is woken if it may be waiting
unfoldable pub enqueue : ProgramInterface → Assembled → MsgFlags → Outcome ProgramInterface
enqueue prog a flags = do
  q ← queue_lock prog.sending_queue
  let signal_sender = queue_is_empty q
  q' ← queue_add_message q a.buffer flags a.blocks.type
  let added : ProgramInterface = record prog { sending_queue = q' }
  let wanted =
      signal_sender
      || (a.blocks.type == type_code MsgType.auth || a.blocks.type == command_code CommandType.auth)
  let signaled = if wanted then signal added Condition.sender_empty_queue else added
  ok (record signaled { sending_queue = queue_unlock signaled.sending_queue })

-- the last part of the loop, for an assembled message
unfoldable pub after_assembly :
    MainLoop → Assembled → MsgFlags → Others → Outcome (MainLoop × Others)
unfolding enqueue
after_assembly loop a flags others = do
  prog ← enqueue (record a.program { sended_by_main = a.buffer }) a flags
  let leaves =
      a.blocks.type == command_code CommandType.exit || a.blocks.type == type_code MsgType.bye
  let left = signal (set_program_state prog Fsm.empty_q_bye) Condition.sender_empty_queue
  (prog, others) ← wait (if leaves then left else prog) others
  ok (record loop { program = prog; blocks = a.blocks }, others)

unfoldable pub eof_round : MainLoop → Outcome MainLoop
eof_round loop = do
  prog ← send_bye (set_program_state loop.program Fsm.empty_q_bye)
  ok (record loop { program = signal prog Condition.sender_empty_queue })

-- The events of the parsing come behind those of the program so far.
abbrev pub add_events : List Event → ProgramInterface → ProgramInterface
add_events events prog = record prog { trace = events ++ prog.trace }

-- One round of the loop of userCommandHandling(), entered in a state before fsm_EMPTY_Q_BYE.
unfoldable pub user_command_round : MainLoop → Others → Outcome (MainLoop × Others)
unfolding after_assembly eof_round
user_command_round loop others = elim loop.eof_detected [
  | true ↦ eof_round loop >>= λ loop. ok (loop, others)
  | false ↦ do
    (b, used, eof, input) ← load_buffer_from_stdin loop.program.client_input false loop.input
    let filled : Buffer = record b { used = used }
    p ← user_input_to_cmds filled loop.blocks MsgFlags.no_flag
    f ←
        filter_commands_by_fsm p.blocks
          (add_events p.events (record loop.program { client_input = filled })) p.flags
    let loop' : MainLoop = record {
      program = f.program;
      input = input;
      eof_detected = eof;
      blocks = p.blocks;
    }
    if not f.can_be_sended then ok (loop', others) else do
      let nothing : Assembled = record {
        can_be_sended = true;
        blocks = p.blocks;
        buffer = f.program.sended_by_main;
        program = f.program;
      }
      a ← assemble p.blocks f.program.sended_by_main f.program (ok nothing)
      if not a.can_be_sended
          then ok (
            record loop' {
              program = record a.program { sended_by_main = a.buffer };
              blocks = a.blocks;
            },
            others,
          )
          else after_assembly loop' a f.flags others
]

-- whether the loop goes on
unfoldable pub user_command_test : ProgramInterface → Bool
user_command_test prog = ltb (fsm_code prog.fsm_state) 7

-- An option of the command line; the number of -p, -d and -r is what atoi() returned, where that is
-- not negative.
pub data CliOption : Type 0 where
  help_option unknown_option : CliOption
  transport server_address : List ℕ → CliOption
  port timeout retransmissions : ℕ → CliOption

-- the address, its zero byte included, in the buffer that is the client's input later
unfoldable pub set_address : Buffer → List ℕ → Outcome Buffer
set_address b address = do
  let b' = buffer_resize b (length address + 1)
  m ← or_fault b'.bytes
  m' ← string_replace m 0 (some (literal address)) (length address)
  put_byte (record b' { bytes = some m'; used = length address + 1 }) (length address) 0

abbrev pub same_text : List ℕ → List ℕ → Bool
same_text [] [] = true
same_text (x ∷ xs) (y ∷ ys) = x == y && same_text xs ys
same_text _ _ = false

unfoldable pub process_option : ProgramInterface → CliOption → Outcome ProgramInterface
unfolding set_address
process_option prog CliOption.help_option = error ErrorCode.no_err
process_option prog (CliOption.transport text) =
    if same_text text (codes "udp")
    then ok (record prog { protocol = Protocol.udp })
    else (if same_text text (codes "tcp")
        then ok (record prog { protocol = Protocol.tcp })
        else error ErrorCode.mising_program_arg)
process_option prog (CliOption.server_address address) = do
  b ← set_address prog.client_input address
  ok (record prog { client_input = b })
process_option prog (CliOption.port n) = ok (record prog { port_number = n % 2 ^ 16 })
process_option prog (CliOption.timeout n) = ok (record prog { udp_timeout = n % 2 ^ 16 })
process_option prog (CliOption.retransmissions n) = ok (record prog { udp_max_retries = n % 2 ^ 8 })
process_option prog CliOption.unknown_option = error ErrorCode.mising_program_arg

unfoldable pub process_arguments : ProgramInterface → List CliOption → Outcome ProgramInterface
unfolding process_option
process_arguments prog [] = ok prog
process_arguments prog (o ∷ options) =
    process_option prog o >>= λ prog. process_arguments prog options

-- the checks of main() after the options
unfoldable pub check_arguments : ProgramInterface → Outcome ProgramInterface
check_arguments prog = elim prog.protocol [
  | Protocol.unset ↦ error ErrorCode.mising_program_arg
  | _ ↦ elim prog.client_input.bytes [
    | none ↦ error ErrorCode.mising_program_arg
    | some m ↦ ok prog
  ]
]

-- `queueLock`, `queuePopAllMessages` and `queueUnlock` on the sending queue
unfoldable pub clear_queue : ProgramInterface → Outcome ProgramInterface
clear_queue prog = do
  q ← queue_lock prog.sending_queue
  ok (record prog { sending_queue = queue_unlock (queue_pop_all_messages q) })

-- errHandling() up to the destruction of the program interface, with the text of its message. For
-- an internal error the main thread is woken, a BYE replaces the queue, and the function waits.
unfoldable pub err_handling :
    ProgramInterface → String → ErrorCode → Others → Outcome (ProgramInterface × Others)
unfolding clear_queue
err_handling prog msg code others =
    let internal : Outcome (ProgramInterface × Others) = do
      let failed = print_stderr (set_program_state prog Fsm.err_state) msg
      prog ← clear_queue (signal failed Condition.main_cond)
      prog ← send_bye prog
      wait prog others
    in elim code [
      | ErrorCode.internal_unexpected_result ↦ internal
      | ErrorCode.internal_bad_arg ↦ internal
      | _ ↦ ok (print_stderr prog msg, others)
    ]

-- sigintHandler() up to its wait and the destruction of the program interface
unfoldable pub sigint_handler : ProgramInterface → Others → Outcome (ProgramInterface × Others)
unfolding clear_queue
sigint_handler prog others = do
  prog ← clear_queue (signal (set_program_state prog Fsm.sigint_bye) Condition.main_cond)
  prog ← send_bye prog
  wait (signal (signal prog Condition.sender_empty_queue) Condition.rec_to_sender) others
