-- ===== src/Receiver/Handlers.antt =====
-- printIncomingMessage(), handleConfirmUDP(), handleReplyUDP() and receiverFSM() of
-- src/protocolReceiver.c.
pub mod Moves
pub mod Confirm
pub mod Rejection
pub mod Security
pub mod Repeated
use Prim.Native.String.{String}
use ipk_project.Prelude.{
  ℕ, zero, suc, ◌+◌, ◌%◌, ◌^◌, Bool, true, false, ◌&&◌, ◌||◌, not, List, [], ◌∷◌, Option, none,
  some, ◌==◌, if◌then◌else◌, length,
}
use ipk_project.Outcome.{Outcome, ok, error, fault, ErrorCode, ◌>>=◌}
use ipk_project.Memory.{CharPtr, or_fault, read}
use ipk_project.Utils.{BytesBlock}
use ipk_project.Utils.Types.{Fsm, fsm_eq}
use ipk_project.Buffer.{Buffer}
use ipk_project.Queue.{
  Message, MessageQueue, queue_lock, queue_unlock, queue_get_message, queue_get_message_id,
  queue_get_message_flags, queue_set_message_flags, queue_contains_message_id,
  queue_add_message_only_id, queue_pop_all_messages, update_first,
}
use ipk_project.Queue.Types.{MsgFlags, flags_eq, MsgType, type_code, uchar2msg_type}
use ipk_project.Program.{
  ProgramInterface, Condition, Event, Stream, signal, log, print_stderr, set_program_state, is_udp,
  is_tcp,
}
use ipk_project.Protocol.Blocks.{ProtocolBlocks, codes}
use ipk_project.Protocol.Input.{read_chars}
use ipk_project.Receiver.Send.{send_confirm, send_bye, send_error}

-- The start of a name or of contents; NULL is an error for the types that are printed, and for
-- another type the pointer is read unset.
abbrev printed_start : MsgType → Option CharPtr → Outcome CharPtr
printed_start type (some p) = ok p
printed_start MsgType.err none = error ErrorCode.mising_program_arg
printed_start MsgType.msg none = error ErrorCode.mising_program_arg
printed_start _ none = fault

-- A MSG goes to the standard output, an ERR with its prefix to the standard error stream.
unfoldable pub print_incoming_message : ProgramInterface → ProtocolBlocks → Outcome ProgramInterface
print_incoming_message prog blocks = do
  name ← printed_start (uchar2msg_type blocks.type) blocks.zeroth.start
  contents ← printed_start (uchar2msg_type blocks.type) blocks.first.start
  n ← read_chars name 0 blocks.zeroth.len
  c ← read_chars contents 0 blocks.first.len
  elim (uchar2msg_type blocks.type) [
    | MsgType.err ↦ ok (log prog (Event.printed_message Stream.stderr "ERR FROM " n c))
    | MsgType.msg ↦ ok (log prog (Event.printed_message Stream.stdout "" n c))
    | _ ↦ fault
  ]

-- the characters `p[i] ..` up to a zero byte
string_loop : CharPtr → ℕ → ℕ → Outcome (List ℕ)
string_loop p i zero = fault
string_loop p i (suc rounds) = do
  c ← read p i
  elim (c == 0) [ true ↦ ok [] | false ↦ do rest ← string_loop p (i + 1) rounds; ok (c ∷ rest) ]

-- "%s" of a block's start
unfoldable pub string_of : BytesBlock → Outcome (List ℕ)
unfolding string_loop
string_of block = do p ← or_fault block.start; string_loop p 0 (length p.object + 1)

-- the switch on the state, after a message was confirmed
confirmed_by_state : Fsm → ProgramInterface → ProgramInterface
confirmed_by_state Fsm.auth_sended prog = set_program_state prog Fsm.w84_reply
confirmed_by_state Fsm.end_w84_conf prog =
    signal (set_program_state prog Fsm.end_state) Condition.main_cond
confirmed_by_state Fsm.open_state prog = signal prog Condition.main_cond
confirmed_by_state _ prog = prog

-- `queueUnlock(sendingQueue)`
abbrev unlock_sending : ProgramInterface → ProgramInterface
unlock_sending prog = record prog { sending_queue = queue_unlock prog.sending_queue }

-- `queueLock(sendingQueue)`
abbrev lock_sending : ProgramInterface → Outcome ProgramInterface
lock_sending prog = queue_lock prog.sending_queue >>= λ q. ok (record prog { sending_queue = q })

-- the first message is confirmed, by a CONFIRM with this ID
unfoldable pub confirm_first : ProgramInterface → ℕ → Outcome ProgramInterface
unfolding confirmed_by_state
confirm_first prog msg_id = do
  q ← update_first prog.sending_queue (λ m. ok (record m { confirmed = 1 }))
  let prog' : ProgramInterface = record prog {
    sending_queue = q;
    msg_counter = (msg_id + 1) % 2 ^ 16;
  }
  let moved = confirmed_by_state prog'.fsm_state prog'
  ok (unlock_sending (signal moved Condition.rec_to_sender))

-- with the first message of the locked queue
unfoldable pub confirm_top : Option Message → ProgramInterface → ℕ → Outcome ProgramInterface
unfolding confirm_first
confirm_top none prog msg_id = ok (unlock_sending prog)
confirm_top (some top) prog msg_id = do
  queue_top_msg_id ← queue_get_message_id prog.sending_queue
  let other = not (msg_id == queue_top_msg_id) && not (top.type == type_code MsgType.auth)
  if other then ok (unlock_sending prog) else confirm_first prog msg_id

unfoldable pub handle_confirm_udp : ProgramInterface → ℕ → Outcome ProgramInterface
unfolding confirm_top
handle_confirm_udp prog msg_id = do
  prog ← lock_sending prog
  confirm_top (queue_get_message prog.sending_queue) prog msg_id

-- sendConfirm() under the lock
unfoldable pub locked_confirm : ProgramInterface → MsgFlags → Outcome ProgramInterface
locked_confirm prog flags = do
  prog ← lock_sending prog
  prog ← send_confirm prog flags
  ok (unlock_sending prog)

abbrev wake_sender : ProgramInterface → ProgramInterface
wake_sender prog = signal (signal prog Condition.sender_empty_queue) Condition.rec_to_sender

-- the first message is flagged as confirmed
unfoldable pub flag_confirmed : ProgramInterface → Outcome ProgramInterface
flag_confirmed prog = do
  prog ← lock_sending prog
  let q = queue_set_message_flags prog.sending_queue MsgFlags.confirmed
  ok (unlock_sending (record prog { sending_queue = q }))

-- a reply whose result is 1
unfoldable pub reply_accepted : ProgramInterface → ProtocolBlocks → Outcome ProgramInterface
reply_accepted prog blocks = do
  prog ← if fsm_eq prog.fsm_state Fsm.w84_reply then flag_confirmed prog else ok prog
  prog ← locked_confirm (set_program_state prog Fsm.w84_reply_conf) MsgFlags.confirm
  text ← string_of blocks.second
  ok (log (wake_sender prog) (Event.printed_string Stream.stderr "Success: " text))

-- The state and the flag of the first message after a reply with another result.
unfoldable pub rejected : ProgramInterface → MsgFlags → ProgramInterface
rejected prog flags =
    let prog' : ProgramInterface =
      if flags_eq flags MsgFlags.auth
      then record prog {
        sending_queue = queue_set_message_flags prog.sending_queue MsgFlags.rejected;
        fsm_state = Fsm.start;
      }
      else prog in
    if fsm_eq prog'.fsm_state Fsm.join_atempt then set_program_state prog' Fsm.open_state else prog'

-- a reply with another result
unfoldable pub reply_rejected : ProgramInterface → ProtocolBlocks → Outcome ProgramInterface
reply_rejected prog blocks = do
  prog ← lock_sending prog
  flags ← queue_get_message_flags prog.sending_queue
  prog ← send_confirm (rejected prog flags) MsgFlags.nok_reply
  text ← string_of blocks.second
  ok (
      signal (log (unlock_sending prog) (Event.printed_string Stream.stderr "Failure: " text))
        Condition.main_cond)

unfoldable pub handle_reply_udp : ProgramInterface → ℕ → ProtocolBlocks → Outcome ProgramInterface
handle_reply_udp prog msg_id blocks =
    if fsm_eq prog.fsm_state Fsm.w84_reply || fsm_eq prog.fsm_state Fsm.join_atempt
    then (do
      result ← or_fault blocks.zeroth.start >>= λ p. read p 0
      prog ← if result == 1 then reply_accepted prog blocks else reply_rejected prog blocks
      ok (record prog { msg_counter = (msg_id + 1) % 2 ^ 16 }))
    else ok prog

-- The filter for messages that were sent again: the message ID and type are looked for in the
-- confirmed messages, and added if they are not there. The result tells whether they are.
unfoldable pub filter_repetitive :
    ProgramInterface → ProtocolBlocks → Outcome (ProgramInterface × Bool)
filter_repetitive prog blocks = do
  confirmed ← queue_lock prog.confirmed_messages
  prog ← lock_sending prog
  found ← queue_contains_message_id confirmed prog.server_response blocks.type
  confirmed ←
      if found
      then ok confirmed
      else queue_add_message_only_id confirmed prog.server_response blocks.type
  ok (record (unlock_sending prog) { confirmed_messages = queue_unlock confirmed }, found)

-- the reply of a TCP server, in a state that waits for one
unfoldable pub answer_tcp : ProgramInterface → ProtocolBlocks → Outcome ProgramInterface
answer_tcp prog blocks = do
  text ← string_of blocks.second
  let success = log prog (Event.printed_string Stream.stderr "Success: " text)
  let failure = log prog (Event.printed_string Stream.stderr "Failure: " text)
  let joining = fsm_eq prog.fsm_state Fsm.join_atempt
  let rejected = set_program_state failure (if joining then Fsm.open_state else Fsm.start)
  ok (if blocks.reply_result_bool then set_program_state success Fsm.open_state else rejected)

unfoldable pub handle_reply_tcp : ProgramInterface → ProtocolBlocks → Outcome ProgramInterface
unfolding answer_tcp
handle_reply_tcp prog blocks = do
  let joining = fsm_eq prog.fsm_state Fsm.join_atempt
  let awaited = fsm_eq prog.fsm_state Fsm.auth_sended || joining
  prog ← if awaited then answer_tcp prog blocks else ok prog
  ok (signal prog Condition.main_cond)

unfoldable pub on_reply : ProgramInterface → ℕ → ProtocolBlocks → Bool → Outcome ProgramInterface
on_reply prog msg_id blocks repetitive =
    if is_udp prog
    then (if repetitive
        then locked_confirm prog MsgFlags.confirm
        else handle_reply_udp prog msg_id blocks)
    else (if is_tcp prog then handle_reply_tcp prog blocks else ok prog)

unfoldable pub on_msg : ProgramInterface → ProtocolBlocks → Bool → Outcome ProgramInterface
on_msg prog blocks repetitive =
    if is_udp prog
    then (do
      prog ← locked_confirm prog MsgFlags.confirm
      if repetitive then ok prog else print_incoming_message (wake_sender prog) blocks)
    else print_incoming_message prog blocks

unfoldable pub on_bye : ProgramInterface → Outcome ProgramInterface
on_bye prog = do
  prog ← if is_udp prog then locked_confirm prog MsgFlags.confirm else ok prog
  ok (signal (set_program_state prog Fsm.end_state) Condition.main_cond)

-- all messages that wait are deleted
abbrev pop_all : ProgramInterface → ProgramInterface
pop_all prog = record prog { sending_queue = queue_pop_all_messages prog.sending_queue }

unfoldable pub on_err : ProgramInterface → ProtocolBlocks → Outcome ProgramInterface
on_err prog blocks = do
  prog ← lock_sending prog
  let popped = pop_all prog
  prog ← if is_udp prog then send_confirm popped MsgFlags.confirm else ok popped
  prog ← send_bye (unlock_sending prog)
  prog ← print_incoming_message (set_program_state (wake_sender prog) Fsm.err_state) blocks
  ok (signal prog Condition.main_cond)

unfoldable pub on_unknown : ProgramInterface → Outcome ProgramInterface
on_unknown prog = do
  prog ← lock_sending (set_program_state prog Fsm.err_state)
  let popped = unlock_sending (pop_all prog)
  prog ← if is_udp prog then send_confirm popped MsgFlags.confirm else ok popped
  (b, prog) ← send_error prog.sended_by_receiver prog (codes "Unknown message format")
  prog ← send_bye (record prog { sended_by_receiver = b })
  let warned =
      print_stderr (wake_sender prog) "ERR: Received unknown message from server. Ending program\n"
  ok (signal warned Condition.main_cond)

-- the switch on the type of the message
unfoldable pub receive_by_type :
    MsgType → ProgramInterface → ℕ → ProtocolBlocks → Bool → Outcome ProgramInterface
receive_by_type MsgType.conf prog msg_id blocks repetitive =
    if is_udp prog
    then handle_confirm_udp prog msg_id
    else (if is_tcp prog then error ErrorCode.communication else ok prog)
receive_by_type MsgType.reply prog msg_id blocks repetitive = on_reply prog msg_id blocks repetitive
receive_by_type MsgType.msg prog msg_id blocks repetitive = on_msg prog blocks repetitive
receive_by_type MsgType.bye prog msg_id blocks repetitive = on_bye prog
receive_by_type MsgType.err prog msg_id blocks repetitive = on_err prog blocks
receive_by_type _ prog msg_id blocks repetitive = on_unknown prog

unfoldable pub receiver_fsm : ProgramInterface → ℕ → ProtocolBlocks → Outcome ProgramInterface
receiver_fsm prog msg_id blocks = do
  (prog, repetitive) ← if is_udp prog then filter_repetitive prog blocks else ok (prog, false)
  receive_by_type (uchar2msg_type blocks.type) prog msg_id blocks repetitive
