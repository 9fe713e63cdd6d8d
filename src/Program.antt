-- ===== src/Program.antt =====
-- src/libs/programInterface.h, src/libs/programInterface.c, src/libs/networkCom.h and the setup of
-- src/libs/cleanUpMaster.c: the state that the three threads share. Its parts (ProgramInterface,
-- CommunicationDetails, ThreadCommunication, NetworkConfig and CleanUp) are the fields of one
-- record. What the program prints, sends and signals is kept in `trace`, the latest event first.
pub mod Accepted
use Prim.Native.String.{String}
use ipk_project.Prelude.{ℕ, Bool, true, false, List, [], ◌∷◌}
use ipk_project.Memory.{Cell}
use ipk_project.Utils.Types.{Fsm}
use ipk_project.Buffer.{Buffer, buffer_init}
use ipk_project.Queue.{MessageQueue, queue_init}

-- enum Protocols; `unset` is prot_ERR
pub data Protocol : Type 0 where
  udp tcp unset : Protocol

-- the condition variables senderEmptyQueueCond, rec2SenderCond and mainCond
pub data Condition : Type 0 where
  sender_empty_queue rec_to_sender main_cond : Condition

pub data Stream : Type 0 where
  stdout stderr : Stream

pub data Event : Type 0 where
  signaled : Condition → Event
  -- a fixed text
  printed : Stream → String → Event
  -- a fixed text and the string after it
  printed_string : Stream → String → List ℕ → Event
  -- a message of the server: its prefix, the display name and the contents
  printed_message : Stream → String → List ℕ → List ℕ → Event
  -- controlWord(): a word that is longer than its limit, and one with a wrong character
  word_too_long : List ℕ → ℕ → Event
  word_invalid : List ℕ → ℕ → Event
  -- sendto()
  sent : List Cell → Event

pub record ProgramInterface : Type 0 where
  -- NetworkConfig
  pub protocol : Protocol
  pub port_number : ℕ
  pub udp_timeout : ℕ
  pub udp_max_retries : ℕ
  -- CommunicationDetails
  pub display_name : Buffer
  pub channel_id : Buffer
  pub msg_counter : ℕ
  -- ThreadCommunication
  pub fsm_state : Fsm
  pub sending_queue : MessageQueue
  -- CleanUp
  pub client_input : Buffer
  pub sended_by_main : Buffer
  pub sended_by_receiver : Buffer
  pub sended_by_sender : Buffer
  pub server_response : Buffer
  pub confirmed_messages : MessageQueue
  pub trace : List Event

-- programInterfaceInit() followed by defaultNetworkConfig()
abbrev pub program_interface_init : ProgramInterface
program_interface_init = record {
  protocol = Protocol.unset;
  port_number = 4567;
  udp_timeout = 250;
  udp_max_retries = 3;
  display_name = buffer_init;
  channel_id = buffer_init;
  msg_counter = 0;
  fsm_state = Fsm.start;
  sending_queue = queue_init;
  client_input = buffer_init;
  sended_by_main = buffer_init;
  sended_by_receiver = buffer_init;
  sended_by_sender = buffer_init;
  server_response = buffer_init;
  confirmed_messages = queue_init;
  trace = [];
}

abbrev pub set_program_state : ProgramInterface → Fsm → ProgramInterface
set_program_state prog new_state = record prog { fsm_state = new_state }

abbrev pub get_program_state : ProgramInterface → Fsm
get_program_state prog = prog.fsm_state

abbrev pub log : ProgramInterface → Event → ProgramInterface
log prog e = record prog { trace = e ∷ prog.trace }

-- pthread_cond_signal()
abbrev pub signal : ProgramInterface → Condition → ProgramInterface
signal prog c = log prog (Event.signaled c)

-- safePrintStderr() of a fixed text
abbrev pub print_stderr : ProgramInterface → String → ProgramInterface
print_stderr prog text = log prog (Event.printed Stream.stderr text)

-- the text of printUserHelpMenu()
abbrev pub user_help_menu : String
user_help_menu =
    "Commands start with \"/\", \"{arg}\" symbolize mandatory arguments for command, explanation of command is written after \"-\" symbol. Eligable commands are listed below: \n\n\t/auth {Username} {Secret} {DisplayName}\t\t- Authenticates user to server with data provided from the arguments. {Username} and {Secret} are credentials. {Displayname} is name under which will user(this) send messages to server.\n\t/join {ChannelID}\t\t\t\t- Joins user to channel with {ChannelID}\n\t/rename {DisplayName}\t\t\t\t- Renames user to {Displayname}\n\t/help\t\t\t\t\t\t- Prints this help message.\n"

abbrev pub print_user_help_menu : ProgramInterface → ProgramInterface
print_user_help_menu prog = log prog (Event.printed Stream.stdout user_help_menu)

abbrev pub is_udp : ProgramInterface → Bool
is_udp prog = elim prog.protocol [ Protocol.udp ↦ true | _ ↦ false ]

abbrev pub is_tcp : ProgramInterface → Bool
is_tcp prog = elim prog.protocol [ Protocol.tcp ↦ true | _ ↦ false ]
