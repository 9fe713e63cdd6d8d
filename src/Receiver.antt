-- ===== src/Receiver.antt =====
-- src/protocolReceiver.c: what the receiver thread does with a message of the server. The buffers
-- `serverResponse` and `receiverSendMsgs` of the source are the fields `server_response` and
-- `sended_by_receiver` of the program, to which they point. A handler runs without a break: the
-- steps of other threads stand before and after it.
pub mod Send
pub mod Handlers
pub mod Frame
pub mod Step
pub mod Confirming
pub mod Packets
use ipk_project.Prelude.{
  ℕ, ◌-◌, ◌<◌, Bool, true, false, ◌&&◌, ◌||◌, not, List, [], ◌∷◌, ◌++◌, Option, none, some, map,
  ◌==◌, if◌then◌else◌, length, take, drop,
}
use ipk_project.Outcome.{Outcome, ok, error, ErrorCode, ◌>>=◌}
use ipk_project.Memory.{or_fault}
use ipk_project.Utils.Types.{Fsm, fsm_eq}
use ipk_project.Buffer.{Buffer, buffer_resize}
use ipk_project.Queue.Types.{MsgType, type_code}
use ipk_project.Program.{ProgramInterface, is_udp, is_tcp}
use ipk_project.Protocol.Blocks.{ProtocolBlocks}
use ipk_project.Protocol.Disassemble.{disasseble_protocol_udp, disasseble_protocol_tcp}
use Handlers.{receiver_fsm}

-- recvfrom() into a buffer: at most `allocated` bytes, over the first cells
unfoldable pub receive_into : Buffer → List ℕ → Outcome Buffer
receive_into b bytes = do
  m ← or_fault b.bytes
  let got = take b.allocated bytes
  ok (record b { bytes = some (map some got ++ drop (length got) m); used = length got })

-- the locals of protocolReceiver() that live on from one round to the next
pub record ReceiverLocals : Type 0 where
  pub blocks : ProtocolBlocks
  pub msg_id : ℕ

unfoldable pub disasseble : ProgramInterface → ReceiverLocals → Outcome ReceiverLocals
disasseble prog locals = elim (is_udp prog) [
  | true ↦ do
    (blocks, msg_id) ← disasseble_protocol_udp prog.server_response locals.blocks
    ok (record { blocks = blocks; msg_id = msg_id })
  | false ↦
      if is_tcp prog
      then (do
        blocks ← disasseble_protocol_tcp prog.server_response locals.blocks
        ok (record locals { blocks = blocks }))
      else ok locals
]

-- what protocolReceiver() does before its loop
unfoldable pub receiver_start : ProgramInterface → ProgramInterface
receiver_start prog = record prog { server_response = buffer_resize prog.server_response 1500 }

-- One round of the loop of protocolReceiver(), with what recvfrom() received; nothing stands for a
-- timeout or an error.
unfoldable pub receiver_round :
    ProgramInterface → ReceiverLocals → List ℕ → Outcome (ProgramInterface × ReceiverLocals)
unfolding disasseble
receiver_round prog locals received = do
  b ← receive_into prog.server_response received
  if length (take prog.server_response.allocated received) == 0 then ok (prog, locals) else do
    let prog' : ProgramInterface = record prog { server_response = b }
    locals' ← disasseble prog' locals
    let type = locals'.blocks.type
    let early =
        fsm_eq prog'.fsm_state Fsm.start
        && (not (type == type_code MsgType.reply) && not (type == type_code MsgType.conf))
    if early
        then ok (prog', locals')
        else do prog'' ← receiver_fsm prog' locals'.msg_id locals'.blocks; ok (prog'', locals')
