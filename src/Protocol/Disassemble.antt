-- ===== src/Protocol/Disassemble.antt =====
-- disassebleProtocolUDP() and disassebleProtocolTCP(). A block of the result points into the
-- received buffer.
pub mod Line
pub mod Packet
use ipk_project.Prelude.{ℕ, Bool, not, true, false, some, if◌then◌else◌}
use ipk_project.Outcome.{Outcome, ok, ◌>>=◌}
use ipk_project.Memory.{CharPtr, or_fault, add_size, sub_size, read, advance}
use ipk_project.Utils.{
  BytesBlock, find_blank_char_in_string, find_new_line_in_string, find_zero_in_string,
  convert_2bytes_to_u16_int,
}
use ipk_project.Buffer.{Buffer}
use ipk_project.Queue.Types.{MsgType, type_code, uchar2msg_type}
use ipk_project.Protocol.Blocks.{ProtocolBlocks, null_block, codes, start_of, strncmp_equal}

abbrev pub block_at : CharPtr → ℕ → BytesBlock
block_at p len = record { start = some p; len = len }

-- the block from `p` up to the zero byte that is looked for in `limit` characters
unfoldable pub zero_ended : CharPtr → ℕ → Outcome BytesBlock
zero_ended p limit = do index ← find_zero_in_string p limit; ok (block_at p index)

unfoldable pub udp_reply : ProtocolBlocks → CharPtr → ℕ → Outcome ProtocolBlocks
udp_reply blocks p used = do
  third ← zero_ended (advance p 6) (sub_size used 6)
  ok (record blocks {
    type = type_code MsgType.reply;
    zeroth = block_at (advance p 3) 1;
    first = block_at (advance p 4) 2;
    second = third;
  })

unfoldable pub udp_auth : ProtocolBlocks → CharPtr → ℕ → Outcome ProtocolBlocks
udp_auth blocks p used = do
  zeroth ← zero_ended (advance p 3) (sub_size used 3)
  let p' = advance (advance p 3) (add_size zeroth.len 1)
  first ← zero_ended p' (sub_size used (add_size 3 zeroth.len))
  let p'' = advance p' (add_size first.len 1)
  second ← zero_ended p'' (sub_size used (add_size (add_size 3 zeroth.len) first.len))
  ok (record blocks {
    type = type_code MsgType.auth;
    zeroth = zeroth;
    first = first;
    second = second;
  })

-- MSG, JOIN and ERR
unfoldable pub udp_message : ProtocolBlocks → CharPtr → ℕ → Outcome ProtocolBlocks
udp_message blocks p used = do
  zeroth ← zero_ended (advance p 3) (sub_size used 3)
  first ←
      zero_ended (advance (advance p 3) (add_size zeroth.len 1))
        (sub_size used (add_size 3 zeroth.len))
  ok (record blocks { zeroth = zeroth; first = first })

-- the switch on the type, with the header read
unfoldable pub udp_parts : MsgType → ProtocolBlocks → CharPtr → ℕ → Outcome ProtocolBlocks
unfolding udp_reply udp_auth udp_message
udp_parts MsgType.conf blocks p used = ok blocks
udp_parts MsgType.reply blocks p used = udp_reply blocks p used
udp_parts MsgType.auth blocks p used = udp_auth blocks p used
udp_parts MsgType.msg blocks p used = udp_message blocks p used
udp_parts MsgType.join blocks p used = udp_message blocks p used
udp_parts MsgType.err blocks p used = udp_message blocks p used
udp_parts MsgType.bye blocks p used = ok (record blocks { type = type_code MsgType.bye })
udp_parts _ blocks p used = ok (record blocks { type = type_code MsgType.unknown })

-- The blocks and the message ID.
unfoldable pub disasseble_protocol_udp : Buffer → ProtocolBlocks → Outcome (ProtocolBlocks × ℕ)
unfolding udp_parts
disasseble_protocol_udp buffer blocks = do
  p ← or_fault (start_of buffer)
  type ← read p 0
  low ← read p 1
  high ← read p 2
  let header : ProtocolBlocks = record blocks {
    type = type_code (uchar2msg_type type);
    zeroth = block_at (advance p 3) 0;
    first = null_block;
    second = null_block;
    third = null_block;
  }
  blocks' ← udp_parts (uchar2msg_type (type_code (uchar2msg_type type))) header p buffer.used
  ok (blocks', convert_2bytes_to_u16_int low high)

unfoldable pub with_type : ProtocolBlocks → MsgType → ProtocolBlocks
with_type blocks type = record blocks { type = type_code type }

-- "MSG FROM " and "ERR FROM ", both of 9 characters
unfoldable pub tcp_message : MsgType → ProtocolBlocks → CharPtr → ℕ → Outcome ProtocolBlocks
unfolding with_type
tcp_message type blocks p used = do
  let name = advance p 9
  index ← find_blank_char_in_string name (sub_size used 9)
  let blocks' : ProtocolBlocks = record blocks { zeroth = block_at name index }
  is ← strncmp_equal (advance name index) 0 (codes " IS ") 4
  if not is then ok (with_type blocks' MsgType.corrupted) else do
    let contents = advance name (add_size index 4)
    len ← find_new_line_in_string contents (sub_size (sub_size used 9) index)
    ok (with_type (record blocks' { first = block_at contents len }) type)

-- the contents of a reply whose result has `len` characters
tcp_result : ProtocolBlocks → CharPtr → ℕ → ℕ → Bool → Outcome ProtocolBlocks
tcp_result blocks p used len accepted = do
  let result = advance p 6
  let contents = advance result (add_size len 4)
  index ← find_blank_char_in_string contents (sub_size used (add_size 6 len))
  ok (record blocks {
    type = type_code MsgType.reply;
    zeroth = block_at result len;
    second = block_at contents index;
    reply_result_bool = accepted;
  })

tcp_reply : ProtocolBlocks → CharPtr → ℕ → Outcome ProtocolBlocks
unfolding tcp_result with_type
tcp_reply blocks p used = do
  positive ← strncmp_equal (advance p 6) 0 (codes "OK IS ") 6
  if positive then tcp_result blocks p used 2 true else do
    negative ← strncmp_equal (advance p 6) 0 (codes "NOK IS ") 7
    if negative
        then tcp_result blocks p used 3 false
        else ok (record blocks {
          type = type_code MsgType.corrupted;
          zeroth = record { start = some (advance p 6); len = blocks.zeroth.len };
        })

unfoldable pub disasseble_protocol_tcp : Buffer → ProtocolBlocks → Outcome ProtocolBlocks
unfolding tcp_message tcp_reply with_type
disasseble_protocol_tcp buffer blocks = do
  p ← or_fault (start_of buffer)
  is_msg ← strncmp_equal p 0 (codes "MSG FROM ") 9
  if is_msg then tcp_message MsgType.msg blocks p buffer.used else do
    is_reply ← strncmp_equal p 0 (codes "REPLY ") 6
    if is_reply then tcp_reply blocks p buffer.used else do
      is_bye ← strncmp_equal p 0 (codes "BYE") 3
      if is_bye then ok (with_type blocks MsgType.bye) else do
        is_err ← strncmp_equal p 0 (codes "ERR FROM ") 9
        if is_err
            then tcp_message MsgType.err blocks p buffer.used
            else ok (with_type blocks MsgType.unknown)
