-- ===== src/Tests/Data.antt =====
-- Concrete programs, buffers and messages.
use ipk_project.Prelude.{ℕ, false, List, [], ◌∷◌, map, some, length}
use ipk_project.Outcome.{Outcome, ok, error, fault, blocked}
use ipk_project.Memory.{CharPtr}
use ipk_project.Utils.Types.{Fsm}
use ipk_project.Buffer.{Buffer}
use ipk_project.Queue.{Message, MessageQueue}
use ipk_project.Queue.Types.{MsgFlags}
use ipk_project.Program.{ProgramInterface, Protocol, program_interface_init}
use ipk_project.Protocol.Blocks.{ProtocolBlocks, zero_blocks}

-- the value of a run that returns
abbrev pub value {ℓ} : {A : Type ℓ} → A → Outcome A → A
value a (ok b) = b
value a (error e) = a
value a fault = a
value a blocked = a

abbrev pub full : List ℕ → Buffer
full text = record { bytes = some (map some text); allocated = length text; used = length text }

abbrev pub text_at : List ℕ → CharPtr
text_at text = record { object = map some text; offset = 0 }

abbrev pub queue_of : List Message → MessageQueue
queue_of ms = record { messages = ms; lock = false }

abbrev pub message_of : List ℕ → MsgFlags → ℕ → Message
message_of text flags type = record {
  buffer = some (full text);
  send_count = 0;
  confirmed = 0;
  type = type;
  msg_flags = flags;
}

-- a program in the UDP variant, in the state OPEN
abbrev pub udp_program : ProgramInterface
udp_program = record program_interface_init {
  protocol = Protocol.udp;
  fsm_state = Fsm.open_state;
  display_name = full (b'J' ∷ b'o' ∷ []);
  server_response = full (255 ∷ 7 ∷ 1 ∷ 0 ∷ []);
  sended_by_main = full (0 ∷ 0 ∷ 0 ∷ []);
}

abbrev pub tcp_program : ProgramInterface
tcp_program = record udp_program { protocol = Protocol.tcp }

abbrev pub bye_blocks : ProtocolBlocks
bye_blocks = record zero_blocks { type = 255 }
