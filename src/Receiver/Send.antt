-- ===== src/Receiver/Send.antt =====
-- sendConfirm(), sendBye() and sendError() of src/protocolReceiver.c.
use ipk_project.Prelude.{ℕ, ◌+◌, ◌%◌, ◌^◌, false, not, List, some, if◌then◌else◌, length}
use ipk_project.Outcome.{Outcome, ok, error, fault, ErrorCode, ◌>>=◌}
use ipk_project.Memory.{or_fault, advance}
use ipk_project.Utils.Types.{CommandType, command_code}
use ipk_project.Buffer.{Buffer, buffer_resize}
use ipk_project.Queue.{queue_lock, queue_unlock, queue_add_message, queue_add_message_priority}
use ipk_project.Queue.Types.{MsgFlags, MsgType, type_code}
use ipk_project.Program.{ProgramInterface, is_udp, is_tcp}
use ipk_project.Protocol.Blocks.{ProtocolBlocks, zero_blocks, literal, start_of}
use ipk_project.Protocol.Assemble.{Assembled, assemble_protocol_udp, assemble_protocol_tcp}

-- The CONFIRM goes to the front of the queue. The caller holds the lock.
unfoldable pub send_confirm : ProgramInterface → MsgFlags → Outcome ProgramInterface
send_confirm prog flags = do
  let b = buffer_resize prog.sended_by_receiver 4
  p ← or_fault (start_of prog.server_response)
  let blocks : ProtocolBlocks = record zero_blocks {
    type = command_code CommandType.conf;
    zeroth = record { start = some (advance p 1); len = 1 };
    first = record { start = some (advance p 2); len = 1 };
  }
  a ← assemble_protocol_udp blocks b prog
  if not a.can_be_sended then error ErrorCode.internal_unexpected_result else do
    let prog' = a.program
    q ← queue_add_message_priority prog'.sending_queue a.buffer flags a.blocks.type
    ok (record prog' { sending_queue = q; sended_by_receiver = a.buffer })

-- The protocol's assembling function; with neither protocol nothing is assembled.
abbrev pub assemble :
    ProtocolBlocks → Buffer → ProgramInterface → Outcome Assembled → Outcome Assembled
assemble blocks buffer prog neither =
    if is_udp prog
    then assemble_protocol_udp blocks buffer prog
    else if is_tcp prog
    then assemble_protocol_tcp blocks buffer prog
    else neither

unfoldable pub send_bye : ProgramInterface → Outcome ProgramInterface
send_bye prog = do
  let blocks : ProtocolBlocks = record zero_blocks { type = command_code CommandType.exit }
  q ← queue_lock prog.sending_queue
  let prog' : ProgramInterface = record prog { sending_queue = q }
  let untouched : Assembled = record {
    can_be_sended = false;
    blocks = blocks;
    buffer = prog'.sended_by_main;
    program = prog';
  }
  a ← assemble blocks prog'.sended_by_main prog' (ok untouched)
  q' ← queue_add_message a.program.sending_queue a.buffer MsgFlags.bye (type_code MsgType.bye)
  ok (record a.program { sending_queue = queue_unlock q'; sended_by_main = a.buffer })

-- The buffer is returned beside the program. With neither protocol `res` is read unset.
unfoldable pub send_error : Buffer → ProgramInterface → List ℕ → Outcome (Buffer × ProgramInterface)
send_error buffer prog message = do
  let size = (length message + prog.display_name.used + 5) % 2 ^ 64
  let b = buffer_resize buffer size
  let blocks : ProtocolBlocks = record zero_blocks {
    type = command_code CommandType.err;
    zeroth = record { start = some (literal message); len = length message };
  }
  a ← assemble blocks b prog fault
  q ← queue_lock a.program.sending_queue
  if not a.can_be_sended then error ErrorCode.internal_unexpected_result else do
    q' ← queue_add_message q a.buffer MsgFlags.err_flag (command_code CommandType.err)
    ok (a.buffer, record a.program { sending_queue = queue_unlock q' })
