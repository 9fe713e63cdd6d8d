-- ===== src/Protocol/Assemble.antt =====
-- assembleProtocolUDP() and assembleProtocolTCP().
pub mod Frame
pub mod Wire
pub mod Packets
pub mod Writing
use ipk_project.Prelude.{
  ℕ, ◌+◌, ◌%◌, ◌^◌, Bool, true, false, List, Option, none, some, ◌==◌, if◌then◌else◌, length, [],
  ◌∷◌,
}
use ipk_project.Outcome.{Outcome, ok, error, fault, ErrorCode, ◌>>=◌}
use ipk_project.Memory.{Object, CharPtr, or_fault, store, add_size, read, is_null}
use ipk_project.Utils.{BytesBlock, string_replace, uchar2_command_type}
use ipk_project.Utils.Types.{CommandType}
use ipk_project.Buffer.{Buffer, buffer_resize, put_byte}
use ipk_project.Queue.Types.{MsgType, type_code}
use ipk_project.Program.{ProgramInterface, print_stderr}
use ipk_project.Protocol.Blocks.{ProtocolBlocks, codes, literal, start_of}

-- What an assembling function leaves: its result, the blocks, the buffer and the program.
pub record Assembled : Type 0 where
  pub can_be_sended : Bool
  pub blocks : ProtocolBlocks
  pub buffer : Buffer
  pub program : ProgramInterface

-- `buffer->data` with the position `ptrPos`
abbrev pub Writer : Type 0
Writer = Object × ℕ

unfoldable pub add_block : Writer → BytesBlock → Outcome Writer
add_block (m, pos) src = do
  m' ← string_replace m pos src.start src.len
  ok (m', add_size pos src.len)

unfoldable pub add_zero_byte : Writer → Outcome Writer
add_zero_byte (m, pos) = do m' ← store m pos (some 0); ok (m', add_size pos 1)

unfoldable pub add_stored_info : Writer → Buffer → Outcome Writer
add_stored_info (m, pos) src = do
  m' ← string_replace m pos (start_of src) src.used
  ok (m', add_size pos src.used)

unfoldable pub add_string : Writer → List ℕ → Outcome Writer
add_string (m, pos) text = do
  m' ← string_replace m pos (some (literal text)) (length text)
  ok (m', add_size pos (length text))

-- the sum of the lengths of the blocks and an overhead
abbrev pub expected_size : ProtocolBlocks → ℕ → ℕ
expected_size blocks overhead =
    (blocks.zeroth.len + blocks.first.len + blocks.second.len + blocks.third.len + overhead)
    % 2 ^ 64

-- The message is complete: `used` is the position reached.
abbrev pub finish : ProtocolBlocks → MsgType → Buffer → ProgramInterface → Writer → Assembled
finish blocks type buffer prog (m, pos) = record {
  can_be_sended = true;
  blocks = record blocks { type = type_code type };
  buffer = record buffer { bytes = some m; used = pos };
  program = prog;
}

-- Nothing is to be sent; what is written so far stays in the buffer.
abbrev pub refuse : ProtocolBlocks → Buffer → ProgramInterface → Object → Assembled
refuse blocks buffer prog m = record {
  can_be_sended = false;
  blocks = blocks;
  buffer = record buffer { bytes = some m };
  program = prog;
}

-- the complaint about a MSG or an ERR without a display name
abbrev pub no_name : ProgramInterface → ProgramInterface
no_name prog =
    print_stderr prog
      "System: ChannelID not provided, cannot rename!(Did you use /auth before this commands?). Use /help for help.\n"

-- The three parts of the second switch of assembleProtocolUDP(), at position 3.
unfoldable pub udp_auth : ProtocolBlocks → Buffer → ProgramInterface → Object → Outcome Assembled
udp_auth blocks buffer prog m = do
  w ← add_block (m, 3) blocks.first
  w ← add_zero_byte w
  w ← add_block w blocks.third
  w ← add_zero_byte w
  w ← add_block w blocks.second
  w ← add_zero_byte w
  ok (finish blocks MsgType.auth buffer prog w)

unfoldable pub udp_join : ProtocolBlocks → Buffer → ProgramInterface → Object → Outcome Assembled
udp_join blocks buffer prog m = do
  w ← add_block (m, 3) blocks.first
  w ← add_zero_byte w
  let unnamed =
      print_stderr prog "System: Displayname not provided, cannot join! Use /help for help.\n"
  if is_null prog.display_name.bytes then ok (refuse blocks buffer unnamed w.0) else do
    w ← add_stored_info w prog.display_name
    w ← add_zero_byte w
    ok (finish blocks MsgType.join buffer prog w)

unfoldable pub udp_message :
    MsgType → ProtocolBlocks → Buffer → ProgramInterface → Object → Outcome Assembled
udp_message type blocks buffer prog m =
    if is_null prog.display_name.bytes then ok (refuse blocks buffer (no_name prog) m) else do
      w ← add_stored_info (m, 3) prog.display_name
      w ← add_zero_byte w
      w ← add_block w blocks.zeroth
      w ← add_zero_byte w
      ok (finish blocks type buffer prog w)

-- A message whose first byte is set and whose buffer is resized for the second time.
unfoldable pub udp_body :
    (ProtocolBlocks → Buffer → ProgramInterface → Object → Outcome Assembled)
    → MsgType
    → ℕ
    → ProtocolBlocks
    → Buffer
    → ProgramInterface
    → Outcome Assembled
udp_body rest type size blocks buffer prog = do
  b ← put_byte buffer 0 (type_code type)
  let b' = buffer_resize b (size % 2 ^ 64)
  m ← or_fault b'.bytes
  rest blocks b' prog m

-- `block.start[0]`
unfoldable pub first_byte : BytesBlock → Outcome ℕ
first_byte block = do p ← or_fault block.start; read p 0

unfoldable pub short_message : MsgType → ProtocolBlocks → Buffer → ProgramInterface → Assembled
short_message type blocks buffer prog = record {
  can_be_sended = true;
  blocks = record blocks { type = type_code type };
  buffer = record buffer { used = 3 };
  program = prog;
}

unfoldable pub udp_conf : ProtocolBlocks → Buffer → ProgramInterface → Outcome Assembled
unfolding first_byte short_message
udp_conf blocks buffer prog = do
  b ← put_byte buffer 0 (type_code MsgType.conf)
  low ← first_byte blocks.zeroth
  b ← put_byte b 1 low
  high ← first_byte blocks.first
  b ← put_byte b 2 high
  ok (short_message MsgType.conf blocks b prog)

unfoldable pub udp_bye : ProtocolBlocks → Buffer → ProgramInterface → Outcome Assembled
unfolding short_message
udp_bye blocks buffer prog = do
  b ← put_byte buffer 0 (type_code MsgType.bye)
  ok (short_message MsgType.bye blocks b prog)

-- the switches on the type; `size` is the expected size without the stored names
unfoldable pub udp_by_type :
    CommandType → ℕ → ProtocolBlocks → Buffer → ProgramInterface → Outcome Assembled
unfolding udp_auth udp_join udp_message udp_body udp_conf udp_bye
udp_by_type CommandType.auth size blocks b prog = udp_body udp_auth MsgType.auth size blocks b prog
udp_by_type CommandType.join size blocks b prog =
    udp_body udp_join MsgType.join (size + prog.channel_id.used) blocks b prog
udp_by_type CommandType.err size blocks b prog =
    udp_body (udp_message MsgType.err) MsgType.err (size + prog.display_name.used) blocks b prog
udp_by_type CommandType.msg size blocks b prog =
    udp_body (udp_message MsgType.msg) MsgType.msg (size + prog.display_name.used) blocks b prog
udp_by_type CommandType.conf size blocks b prog = udp_conf blocks b prog
udp_by_type CommandType.exit size blocks b prog = udp_bye blocks b prog
udp_by_type _ size blocks b prog = error ErrorCode.internal_bad_arg

unfoldable pub assemble_protocol_udp :
    ProtocolBlocks → Buffer → ProgramInterface → Outcome Assembled
assemble_protocol_udp blocks buffer prog =
    let size = expected_size blocks 10 in
    udp_by_type (uchar2_command_type blocks.type) size blocks (buffer_resize buffer size) prog

-- what assembleProtocolTCP() adds to the expected size; `none` is the default branch
unfoldable pub tcp_overhead : CommandType → ProgramInterface → Option ℕ
tcp_overhead CommandType.auth prog = some (5 + 4 + 7)
tcp_overhead CommandType.join prog = some (5 + 4 + prog.channel_id.used)
tcp_overhead CommandType.msg prog = some (9 + 4 + prog.display_name.used)
tcp_overhead CommandType.err prog = some (9 + 4 + prog.display_name.used)
tcp_overhead CommandType.exit prog = some 3
tcp_overhead _ prog = none

unfoldable pub tcp_end :
    MsgType → ProtocolBlocks → Buffer → ProgramInterface → Writer → Outcome Assembled
tcp_end type blocks buffer prog w = do
  w ← add_string w (13 ∷ 10 ∷ [])
  ok (finish blocks type buffer prog w)

unfoldable pub tcp_auth : ProtocolBlocks → Buffer → ProgramInterface → Object → Outcome Assembled
unfolding tcp_end
tcp_auth blocks buffer prog m = do
  w ← add_string (m, 0) (codes "AUTH ")
  w ← add_block w blocks.first
  w ← add_string w (codes " AS ")
  w ← add_block w blocks.third
  w ← add_string w (codes " USING ")
  w ← add_block w blocks.second
  tcp_end MsgType.auth blocks buffer prog w

unfoldable pub tcp_message :
    MsgType → List ℕ → ProtocolBlocks → Buffer → ProgramInterface → Object → Outcome Assembled
unfolding tcp_end
tcp_message type prefix blocks buffer prog m =
    if is_null prog.display_name.bytes then ok (refuse blocks buffer (no_name prog) m) else do
      w ← add_string (m, 0) prefix
      w ← add_stored_info w prog.display_name
      w ← add_string w (codes " IS ")
      w ← add_block w blocks.zeroth
      tcp_end type blocks buffer prog w

tcp_join : ProtocolBlocks → Buffer → ProgramInterface → Object → Outcome Assembled
unfolding tcp_end
tcp_join blocks buffer prog m = do
  let unnamed =
      print_stderr prog "System: Displayname not provided, cannot join! Use /help for help.\n"
  if is_null prog.display_name.bytes then ok (refuse blocks buffer unnamed m) else do
    w ← add_string (m, 0) (codes "JOIN ")
    w ← add_stored_info w prog.channel_id
    w ← add_string w (codes " AS ")
    w ← add_stored_info w prog.display_name
    tcp_end MsgType.join blocks buffer prog w

tcp_bye : ProtocolBlocks → Buffer → ProgramInterface → Object → Outcome Assembled
unfolding tcp_end
tcp_bye blocks buffer prog m = do
  w ← add_string (m, 0) (codes "BYE")
  tcp_end MsgType.bye blocks buffer prog w

-- the second switch on the type
unfoldable pub tcp_by_type :
    CommandType → ProtocolBlocks → Buffer → ProgramInterface → Object → Outcome Assembled
unfolding tcp_end tcp_auth tcp_message tcp_join tcp_bye
tcp_by_type CommandType.auth blocks b prog m = tcp_auth blocks b prog m
tcp_by_type CommandType.msg blocks b prog m =
    tcp_message MsgType.msg (codes "MSG FROM ") blocks b prog m
tcp_by_type CommandType.err blocks b prog m =
    tcp_message MsgType.err (codes "ERR FROM ") blocks b prog m
tcp_by_type CommandType.join blocks b prog m = tcp_join blocks b prog m
tcp_by_type CommandType.exit blocks b prog m = tcp_bye blocks b prog m
tcp_by_type _ blocks b prog m = error ErrorCode.internal_bad_arg

abbrev or_bad_arg : {A : Type 0} → Option A → Outcome A
or_bad_arg none = error ErrorCode.internal_bad_arg
or_bad_arg (some a) = ok a

unfoldable pub assemble_protocol_tcp :
    ProtocolBlocks → Buffer → ProgramInterface → Outcome Assembled
assemble_protocol_tcp blocks buffer prog = do
  overhead ← or_bad_arg (tcp_overhead (uchar2_command_type blocks.type) prog)
  let b = buffer_resize buffer ((expected_size blocks 1 + overhead + 2) % 2 ^ 64)
  m ← or_fault b.bytes
  tcp_by_type (uchar2_command_type blocks.type) blocks b prog m
