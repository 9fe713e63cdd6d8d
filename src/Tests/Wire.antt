-- ===== src/Tests/Wire.antt =====
-- Examples for ipk24protocol.c.
use ipk_project.Prelude.{
  ℕ, ◌≡◌, ◌↔◌, All, false, map, ◌<◌, ◌≤◌, ◌==◌, refl, arith, List, [], ◌∷◌, true, take, some,
}
use ipk_project.Outcome.{ok, fault}
use ipk_project.Memory.{read, read_cell}
use ipk_project.Memory.Writes.{Spells}
use ipk_project.Utils.Types.{CommandType, command_code}
use ipk_project.Queue.Types.{MsgFlags, MsgType, type_code}
use ipk_project.Program.{ProgramInterface}
use ipk_project.Protocol.Disassemble.{disasseble_protocol_tcp, disasseble_protocol_udp}
use ipk_project.Protocol.Disassemble.Line.{Reads, line_of, disasseble_protocol_tcp-line}
use ipk_project.Protocol.RoundTrip.Packet.{disasseble-assemble_protocol_udp}
use ipk_project.Queue.{write_id}
use ipk_project.Protocol.RoundTrip.{disasseble-assemble_protocol_tcp}
use ipk_project.Protocol.Assemble.Packets.{assemble_protocol_udp-join_fault}
use ipk_project.Utils.{BytesBlock, is_blank, is_line_end}
use ipk_project.Buffer.{Buffer}
use ipk_project.Buffer.Laws.{cells, IsValid}
use ipk_project.Protocol.Blocks.{ProtocolBlocks, zero_blocks, codes}
use ipk_project.Protocol.Assemble.{Assembled, assemble_protocol_tcp, assemble_protocol_udp}
use ipk_project.Protocol.Assemble.Wire.{Stores, Shows, msg_line, assemble_protocol_tcp-msg_line}
use ipk_project.Protocol.Input.{WordType, control_word, user_input_to_cmds}
use ipk_project.Protocol.Input.Quiet.{headed}
use ipk_project.Protocol.Input.Commands.{input_of, user_input_to_cmds-word}
use ipk_project.Protocol.Words.{AllAllowed, control_word_iff}
use ipk_project.Tests.Data.{message_of, full, text_at, tcp_program, udp_program}

abbrev hi : List ℕ
hi = b'h' ∷ b'i' ∷ []

abbrev hi_block : BytesBlock
hi_block = record { start = some (text_at hi); len = 2 }

abbrev hi_blocks : ProtocolBlocks
hi_blocks = record zero_blocks { type = 5; zeroth = hi_block }

abbrev jo : List ℕ
jo = b'J' ∷ b'o' ∷ []

jo-Stores : Stores tcp_program.display_name jo
unfolding read_cell
jo-Stores = record {
  block = some b'J' ∷ some b'o' ∷ [];
  at = refl;
  size = refl;
  shown = (refl, (refl, tt));
}

hi-Shows : Shows hi_block hi
unfolding read_cell
hi-Shows = record { pointer = text_at hi; at = refl; size = refl; shown = (refl, (refl, tt)) }

abbrev small : Buffer
small = full (0 ∷ 0 ∷ 0 ∷ [])

small-IsValid : IsValid small
small-IsValid = record { counted = refl; within = omega arith; small = omega arith }

assemble_protocol_tcp-msg_line_example :
    (a : Assembled) × (assemble_protocol_tcp hi_blocks small tcp_program ≡ ok a)
    × (a.can_be_sended ≡ true)
    × (a.program ≡ tcp_program)
    × (a.buffer.used ≡ 19)
    × (take a.buffer.used (cells a.buffer) ≡ msg_line jo hi)
assemble_protocol_tcp-msg_line_example =
    assemble_protocol_tcp-msg_line hi_blocks small tcp_program jo hi refl jo-Stores hi-Shows
      small-IsValid (omega arith)

control_word_iff_example :
    (control_word hi_block 20 WordType.username ≡ ok (true, []))
    ↔ ((0 < 2) × (2 ≤ 20) × AllAllowed WordType.username hi)
unfolding read read_cell
control_word_iff_example =
    control_word_iff hi_block (text_at hi) hi 20 WordType.username refl refl (refl, (refl, tt))

abbrev hello_line : List ℕ
hello_line = line_of (codes "MSG FROM ") jo hi

hello-Spells : Spells (text_at hello_line) 0 hello_line
unfolding read read_cell
hello-Spells = (
  refl,
  (
    refl,
    (
      refl,
      (
        refl,
        (
          refl,
          (
            refl,
            (
              refl,
              (
                refl,
                (
                  refl,
                  (
                    refl,
                    (refl, (refl, (refl, (refl, (refl, (refl, (refl, (refl, (refl, tt))))))))),
                  ),
                ),
              ),
            ),
          ),
        ),
      ),
    ),
  ),
)

jo_word : All (λ c. is_blank c ≡ false) jo
unfolding is_blank
jo_word = (refl, (refl, tt))

hi_one_line : All (λ c. is_line_end c ≡ false) hi
unfolding is_line_end
hi_one_line = (refl, (refl, tt))

disasseble_protocol_tcp-line_example :
    (r : ProtocolBlocks) × (disasseble_protocol_tcp (full hello_line) zero_blocks ≡ ok r)
    × (r.type ≡ type_code MsgType.msg)
    × Reads r.zeroth jo
    × Reads r.first hi
disasseble_protocol_tcp-line_example =
    disasseble_protocol_tcp-line (full hello_line) (map some hello_line) zero_blocks jo hi refl
      hello-Spells refl (omega arith) jo_word hi_one_line

disasseble-assemble_protocol_tcp_example :
    (a : Assembled) × (r : ProtocolBlocks) × (assemble_protocol_tcp hi_blocks small tcp_program
      ≡ ok a)
    × (disasseble_protocol_tcp a.buffer zero_blocks ≡ ok r)
    × (r.type ≡ type_code MsgType.msg)
    × Reads r.zeroth jo
    × Reads r.first hi
disasseble-assemble_protocol_tcp_example =
    disasseble-assemble_protocol_tcp hi_blocks zero_blocks small tcp_program jo hi refl jo-Stores
      hi-Shows small-IsValid (omega arith) jo_word hi_one_line

abbrev long_name : List ℕ
long_name = codes "longest"

abbrev renamed : ProgramInterface
renamed = record udp_program { display_name = full long_name }

long_name-Stores : Stores renamed.display_name long_name
unfolding read read_cell
long_name-Stores = record {
  block = map some long_name;
  at = refl;
  size = refl;
  shown = (refl, (refl, (refl, (refl, (refl, (refl, (refl, tt)))))));
}

abbrev join_blocks : ProtocolBlocks
join_blocks = record zero_blocks { type = command_code CommandType.join; first = hi_block }

assemble_protocol_udp-join_fault_example : assemble_protocol_udp join_blocks small renamed ≡ fault
assemble_protocol_udp-join_fault_example =
    assemble_protocol_udp-join_fault join_blocks small renamed hi long_name refl hi-Shows
      long_name-Stores small-IsValid (omega arith) (omega arith) (omega arith)

abbrev short_auth : List ℕ
short_auth = codes "/a u s D"

user_input_to_cmds-word_example :
    user_input_to_cmds (full short_auth) zero_blocks MsgFlags.no_flag
    ≡ input_of CommandType.auth
        (headed zero_blocks (text_at short_auth) 2)
        MsgFlags.no_flag
        (text_at short_auth)
        2
        8
unfolding read read_cell is_blank
user_input_to_cmds-word_example =
    user_input_to_cmds-word (full short_auth) (map some short_auth) zero_blocks MsgFlags.no_flag
      (b'/' ∷ b'a' ∷ []) b' ' refl (refl, (refl, (refl, tt))) (refl, (refl, tt)) refl (omega arith)
      (omega arith)

jo_ends : All (λ c. (c == 0) ≡ false) jo
jo_ends = (refl, (refl, tt))

hi_ends : All (λ c. (c == 0) ≡ false) hi
hi_ends = (refl, (refl, tt))

disasseble-assemble_protocol_udp_example :
    (a : Assembled) × (sent : Buffer) × (r : ProtocolBlocks) × (assemble_protocol_udp hi_blocks
        small udp_program
      ≡ ok a)
    × (write_id 263 (record (message_of hi MsgFlags.no_flag 5) { buffer = some a.buffer })
        ≡ ok (record (message_of hi MsgFlags.no_flag 5) { buffer = some sent }))
    × (disasseble_protocol_udp sent zero_blocks ≡ ok (r, 263))
    × (r.type ≡ type_code MsgType.msg)
    × Reads r.zeroth jo
    × Reads r.first hi
disasseble-assemble_protocol_udp_example =
    disasseble-assemble_protocol_udp hi_blocks zero_blocks small udp_program
      (message_of hi MsgFlags.no_flag 5) 263 jo hi refl jo-Stores hi-Shows small-IsValid
      (omega arith) jo_ends hi_ends (omega arith) (omega arith) (omega arith)
