-- ===== src/Sender.antt =====
-- src/protocolSender.c: what the sender thread does with the messages of the queue. While it waits
-- on a condition other threads run. What they do in a wait is a function on the program; the list
-- of these functions, one for each wait in turn, is the argument `others`. With an empty list the
-- sender waits for ever.
pub mod Limit
pub mod Laws
pub mod Security
pub mod Reset
pub mod Filtering
pub mod Sending
use ipk_project.Prelude.{
  ℕ, zero, suc, ◌+◌, ◌%◌, ◌^◌, Bool, true, false, ◌&&◌, ◌||◌, not, List, [], ◌∷◌, Option, none,
  some, ◌==◌, ltb, leb, if◌then◌else◌, length, take,
}
use ipk_project.Outcome.{Outcome, ok, error, fault, blocked, ErrorCode, ◌>>=◌}
use ipk_project.Memory.{Cell, Object, or_fault}
use ipk_project.Utils.Types.{Fsm, fsm_code, fsm_eq}
use ipk_project.Buffer.{Buffer}
use ipk_project.Queue.{
  Message, MessageQueue, queue_lock, queue_unlock, queue_get_message, queue_get_message_flags,
  queue_get_message_msg_type, queue_get_sended_counter, queue_pop_message, queue_pop_all_messages,
  queue_is_empty, queue_set_message_id, queue_message_sended,
}
use ipk_project.Queue.Types.{MsgFlags, flags_eq, MsgType, type_code, type_eq}
use ipk_project.Program.{
  ProgramInterface, Condition, Event, signal, log, print_stderr, set_program_state, is_udp, is_tcp,
}
use ipk_project.Protocol.Blocks.{codes}
use ipk_project.Receiver.Send.{send_bye, send_error}

abbrev pub Others : Type 0
Others = List (ProgramInterface → ProgramInterface)

-- the program, and the waits that are left
abbrev pub Waited : Type 0
Waited = ProgramInterface × Others

abbrev unlock_sending : ProgramInterface → ProgramInterface
unlock_sending prog = record prog { sending_queue = queue_unlock prog.sending_queue }

abbrev lock_sending : ProgramInterface → Outcome ProgramInterface
lock_sending prog = queue_lock prog.sending_queue >>= λ q. ok (record prog { sending_queue = q })

abbrev pub pop : ProgramInterface → ProgramInterface
pop prog = record prog { sending_queue = queue_pop_message prog.sending_queue }

-- pthread_cond_wait()
abbrev pub wait : ProgramInterface → Others → Outcome Waited
wait prog [] = blocked
wait prog (other ∷ others) = ok (other prog, others)

-- the states before the authentication is accepted: what to do with a message
pub data Gate : Type 0 where
  pass wait_once wait_again : Gate

unfoldable pub gate : MsgType → MsgFlags → Message → Gate
gate type flags m =
    if not (type_eq type MsgType.auth) && not (flags_eq flags MsgFlags.nok_reply)
    then Gate.wait_once
    else if type_eq type MsgType.auth && (not (m.confirmed == 0) && ltb 0 m.send_count)
    then Gate.wait_again
    else Gate.pass

-- The first state change of logicFSM(): a waiting AUTH message is about to be sent.
unfoldable pub auth_state : ProgramInterface → MsgFlags → ProgramInterface
auth_state prog flags =
    if flags_eq flags MsgFlags.auth && leb (fsm_code prog.fsm_state) 1
    then set_program_state prog Fsm.auth_sended
    else prog

-- the states fsm_ERR and fsm_ERR_W84_CONF
err_logic : ProgramInterface → MsgFlags → Outcome ProgramInterface
err_logic prog flags =
    if flags_eq flags MsgFlags.bye
    then ok (
        if is_udp prog
        then set_program_state prog Fsm.end_w84_conf
        else (if is_tcp prog
            then signal (set_program_state prog Fsm.end_state) Condition.main_cond
            else prog))
    else if flags_eq flags MsgFlags.err_flag
    then ok (if is_udp prog then set_program_state prog Fsm.err_w84_conf else prog)
    else if flags_eq flags MsgFlags.confirm
    then ok prog
    else error ErrorCode.internal_bad_arg

open_logic : ProgramInterface → MsgType → ProgramInterface
open_logic prog type = elim type [
  | MsgType.auth ↦
      pop (print_stderr prog "ERR: You are already autheticated, this message will be ignored.")
  | MsgType.join ↦ set_program_state prog Fsm.join_atempt
  | _ ↦ prog
]

-- the states from fsm_W84_REPLY_CONF on
unfoldable pub later_logic : ProgramInterface → MsgType → MsgFlags → Outcome ProgramInterface
unfolding err_logic open_logic
later_logic prog type flags = elim prog.fsm_state [
  | Fsm.w84_reply_conf ↦ ok (
      if type_eq type MsgType.conf
      then signal (set_program_state prog Fsm.open_state) Condition.main_cond
      else prog)
  | Fsm.open_state ↦ ok (open_logic prog type)
  | Fsm.err_w84_conf ↦ err_logic prog flags
  | Fsm.err_state ↦ err_logic prog flags
  | _ ↦ ok prog
]

-- The queue is locked at the call. Each wait unlocks it and locks it again, and the function calls
-- itself at most once for each wait.
unfoldable pub logic_fsm : ProgramInterface → Others → Outcome Waited
unfolding gate auth_state later_logic
logic_fsm prog [] = do
  flags ← queue_get_message_flags prog.sending_queue
  let type = queue_get_message_msg_type prog.sending_queue
  if leb 4 (fsm_code prog.fsm_state)
      then (later_logic prog type flags >>= λ prog. ok (prog, []))
      else do
        m ← or_fault (queue_get_message prog.sending_queue)
        elim (gate type flags m) [ Gate.pass ↦ ok (auth_state prog flags, []) | _ ↦ blocked ]
logic_fsm prog (other ∷ others) = do
  flags ← queue_get_message_flags prog.sending_queue
  let type = queue_get_message_msg_type prog.sending_queue
  if leb 4 (fsm_code prog.fsm_state)
      then (later_logic prog type flags >>= λ prog. ok (prog, other ∷ others))
      else do
        m ← or_fault (queue_get_message prog.sending_queue)
        let prog' = auth_state prog flags
        elim (gate type flags m) [
          | Gate.pass ↦ ok (prog', other ∷ others)
          | Gate.wait_once ↦
              lock_sending (other (unlock_sending prog')) >>= λ prog. ok (prog, others)
          | Gate.wait_again ↦ do
            prog ← lock_sending (other (unlock_sending prog'))
            logic_fsm prog others
        ]

-- the messages of an endless wait for a confirmation are replaced by an ERR and a BYE
unfoldable pub timed_out : ProgramInterface → Outcome ProgramInterface
timed_out prog = do
  let printed = print_stderr prog "ERR: Request timed out.\n"
  let popped : ProgramInterface = record printed {
    sending_queue = queue_pop_all_messages printed.sending_queue;
    fsm_state = Fsm.err_state;
  }
  let unlocked = unlock_sending popped
  (b, prog) ← send_error unlocked.sended_by_sender unlocked (codes "Request timed out")
  prog ← send_bye (record prog { sended_by_sender = b })
  lock_sending (signal prog Condition.main_cond)

-- The loop of filterResentMessages(). Every round but the last pops a message, so one round more
-- than there are messages is enough; out of rounds it stands for a loop that never ends.
unfoldable pub filter_loop : ℕ → ProgramInterface → Bool → Outcome (ProgramInterface × Bool)
unfolding timed_out
filter_loop zero prog reset = blocked
filter_loop (suc rounds) prog reset = elim (queue_get_message prog.sending_queue) [
  | none ↦ ok (prog, reset)
  | some m ↦ elim (ltb prog.udp_max_retries m.send_count) [
    | true ↦ elim (fsm_eq prog.fsm_state Fsm.err_w84_conf) [
      | true ↦ filter_loop rounds (pop prog) reset
      | false ↦ elim (fsm_eq prog.fsm_state Fsm.end_w84_conf) [
        | true ↦
            filter_loop rounds
              (pop (signal (set_program_state prog Fsm.end_state) Condition.main_cond)) true
        | false ↦ timed_out prog >>= λ prog. ok (prog, reset)
      ]
    ]
    | false ↦ elim (flags_eq m.msg_flags MsgFlags.rejected) [
      | true ↦ filter_loop rounds (pop prog) reset
      | false ↦ elim (flags_eq m.msg_flags MsgFlags.auth || m.confirmed == 0) [
        | true ↦ ok (prog, reset)
        | false ↦ filter_loop rounds (pop prog) reset
      ]
    ]
  ]
]

unfoldable pub filter_resent_messages : ProgramInterface → Outcome (ProgramInterface × Bool)
unfolding filter_loop
filter_resent_messages prog = filter_loop (length prog.sending_queue.messages + 1) prog false

-- the bytes that sendto() takes from a buffer
unfoldable pub used_cells : Buffer → Outcome (List Cell)
used_cells b = elim b.bytes [
  | none ↦ if b.used == 0 then ok [] else fault
  | some m ↦ if leb b.used (length m) then ok (take b.used m) else fault
]

-- after sending in the UDP variant
unfoldable pub udp_sent : ProgramInterface → Outcome ProgramInterface
udp_sent prog = do
  flags ← queue_get_message_flags prog.sending_queue
  let once =
      flags_eq flags MsgFlags.do_not_resend
      || (flags_eq flags MsgFlags.confirm || flags_eq flags MsgFlags.nok_reply)
  if once
      then ok (pop prog)
      else do q ← queue_message_sended prog.sending_queue; ok (record prog { sending_queue = q })

-- From the sending of the message to the end of the round. `delivered` tells whether sendto()
-- returned a number of bytes rather than an error.
unfoldable pub send_first : ProgramInterface → Bool → Outcome ProgramInterface
unfolding used_cells udp_sent
send_first prog delivered = do
  q ←
      if is_udp prog
      then queue_set_message_id prog.sending_queue prog.msg_counter
      else ok prog.sending_queue
  let numbered : ProgramInterface = record prog {
    sending_queue = q;
    msg_counter = if is_tcp prog then (prog.msg_counter + 1) % 2 ^ 16 else prog.msg_counter;
  }
  m ← or_fault (queue_get_message q)
  b ← or_fault m.buffer
  cells ← used_cells b
  if not delivered then error ErrorCode.communication else do
    let prog' = log numbered (Event.sent cells)
    let pinged = if m.type == type_code MsgType.msg then signal prog' Condition.main_cond else prog'
    if is_udp prog then udp_sent prog' else (if is_tcp prog then ok (pop pinged) else ok prog')

-- the round of a sender that finds the queue empty
unfoldable pub empty_round : ProgramInterface → Others → Outcome Waited
empty_round prog others =
    if fsm_eq prog.fsm_state Fsm.empty_q_bye || fsm_eq prog.fsm_state Fsm.sigint_bye
    then ok
        (signal (unlock_sending (set_program_state prog Fsm.end_state)) Condition.main_cond, others)
    else wait (unlock_sending prog) others

-- One round of the loop of protocolSender(). The round that ends by `continue` after a reset keeps
-- the lock. The timed wait at the end is a wait like the others.
unfoldable pub sender_round : ProgramInterface → Bool → Others → Outcome Waited
unfolding send_first empty_round
sender_round prog delivered others = do
  (prog, reset) ←
      if is_udp prog then (lock_sending prog >>= filter_resent_messages) else ok (prog, false)
  if reset
      then ok (prog, others)
      else if queue_is_empty prog.sending_queue
      then empty_round prog others
      else do
        prog ← lock_sending (unlock_sending prog)
        (prog, others) ← logic_fsm prog others
        prog ← send_first prog delivered
        wait (unlock_sending prog) others
