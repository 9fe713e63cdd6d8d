-- ===== src/Protocol/Assemble/Packets/Message.antt =====
-- The bytes that assembleProtocolUDP() puts into a MSG.
use ipk_project.Prelude.{
  ℕ, ◌+◌, ◌^◌, ◌<◌, ◌≤◌, ◌≡◌, refl, sym, ap, ◌∙◌, List, [], ◌∷◌, ◌++◌, map, some, arith, length,
  length-append, length-map, true, false, get_elem?,
}
use ipk_project.Outcome.{ok}
use ipk_project.Memory.{Object, Cell, is_null}
use ipk_project.Memory.Writes.{overwrite, get_elem?-overwrite, get_elem?-overwrite_before}
use ipk_project.Utils.{uchar2_command_type}
use ipk_project.Utils.Types.{CommandType, command_code}
use ipk_project.Buffer.{Buffer, buffer_resize}
use ipk_project.Buffer.Laws.{cells, IsValid, buffer_resize-Resized, buffer_resize-IsValid}
use ipk_project.Queue.Types.{MsgType, type_code}
use ipk_project.Program.{ProgramInterface}
use ipk_project.Protocol.Blocks.{ProtocolBlocks}
use ipk_project.Protocol.Assemble.{
  Assembled, assemble_protocol_udp, udp_by_type, udp_message, expected_size, finish,
}
use ipk_project.Protocol.Assemble.Writing.{
  written, add_block-written, add_zero_byte-written, add_stored_info-written,
}
use ipk_project.Protocol.Assemble.Wire.{Stores, Shows}
use ipk_project.Protocol.Assemble.Packets.{udp_body-Body}

-- the display name and the contents of a packet, behind its type and its ID
abbrev pub packet_parts : List ℕ → List ℕ → List Cell
packet_parts name text = (([] ++ map some name) ++ some 0 ∷ []) ++ map some text ++ some 0 ∷ []

pub length-packet_parts :
    (name text : List ℕ) → length (packet_parts name text) ≡ length name + length text + 2
length-packet_parts name text =
    let c2 = ([] ++ map some name) ++ some 0 ∷ [] in
    omega (
      arith,
      length-map some name,
      length-map some text,
      length-append ([] ++ map some name) (some 0 ∷ []),
      length-append c2 (map some text),
      length-append (c2 ++ map some text) (some 0 ∷ []),
    )

udp_message-written :
    (type : MsgType) (name text : List ℕ) (bs : ProtocolBlocks) (b : Buffer)
    (prog : ProgramInterface) (m : Object)
    → Stores prog.display_name name
    → Shows bs.zeroth text
    → 3 + length name + length text + 2 ≤ length m
    → length m < 2 ^ 64
    → udp_message type bs b prog m
      ≡ ok (finish bs type b prog (written m 3 (packet_parts name text)))
unfolding udp_message overwrite
udp_message-written type name text bs b prog m n t room small =
    let c1 : List Cell = [] ++ map some name in
    let c2 = c1 ++ some 0 ∷ [] in
    let c3 = c2 ++ map some text in
    let l1 : length c1 ≡ length name = length-map some name in
    let l2 : length c2 ≡ length name + 1 = omega (arith, l1, length-append c1 (some 0 ∷ [])) in
    let l3 : length c3 ≡ length name + 1 + length text =
      omega (arith, l2, length-append c2 (map some text), length-map some text) in
    let named : is_null prog.display_name.bytes ≡ false = ap is_null n.at in
    rw
      (
        named,
        add_stored_info-written m 3 [] (map some name) prog.display_name n.block n.at
            (n.size ∙ sym (length-map some name)) n.shown
            (omega (arith, length-map some name), small),
        add_zero_byte-written m 3 c1 (omega (arith, l1), small),
        add_block-written m 3 c2 (map some text) bs.zeroth t.pointer t.at
            (t.size ∙ sym (length-map some text)) t.shown
            (omega (arith, l2, length-map some text), small),
        add_zero_byte-written m 3 c3 (omega (arith, l3), small),
      )
      refl

msg_command :
    (type : ℕ) → type ≡ command_code CommandType.msg → uchar2_command_type type ≡ CommandType.msg
unfolding uchar2_command_type
msg_command type e = ap uchar2_command_type e

-- A message of the user that shows a text is assembled, in the UDP variant with a display name and
-- sizes that do not wrap, to a packet of the type MSG with room for the ID, the display name, a zero
-- byte, the text and a zero byte, in a buffer of any earlier size; the program stays as it is.
pub assemble_protocol_udp-msg_packet :
    (bs : ProtocolBlocks) (b : Buffer) (prog : ProgramInterface) (name text : List ℕ)
    → bs.type ≡ command_code CommandType.msg
    → Stores prog.display_name name
    → Shows bs.zeroth text
    → IsValid b
    → bs.zeroth.len + bs.first.len + bs.second.len + bs.third.len + prog.display_name.used + 10
      < 2 ^ 63
    → (a : Assembled) × (assemble_protocol_udp bs b prog ≡ ok a)
      × (a.can_be_sended ≡ true)
      × (a.program ≡ prog)
      × (a.buffer.used ≡ 3 + length (packet_parts name text))
      × (get_elem? (cells a.buffer) 0 ≡ some (some (type_code MsgType.msg)))
      × ((j : ℕ)
          → j < length (packet_parts name text)
          → get_elem? (cells a.buffer) (3 + j) ≡ get_elem? (packet_parts name text) j)
unfolding assemble_protocol_udp udp_by_type
assemble_protocol_udp-msg_packet bs b prog name text ty n t v small =
    let size = expected_size bs 10 in
    let exact : size ≡ bs.zeroth.len + bs.first.len + bs.second.len + bs.third.len + 10 =
      omega arith in
    let msg : uchar2_command_type bs.type ≡ CommandType.msg = msg_command bs.type ty in
    let b1 = buffer_resize b size in
    let v1 = buffer_resize-IsValid b size v (omega (arith, exact)) in
    let (m1, r1) = buffer_resize-Resized b size v.counted (omega (arith, exact)) in
    let (b', m, run, body) =
      udp_body-Body (udp_message MsgType.msg) MsgType.msg (size + prog.display_name.used) bs b1 prog
        v1 (omega (arith, exact, r1.fits, r1.counted)) (omega (arith, exact))
        (omega (arith, exact)) in
    let parts = packet_parts name text in
    let fits : 3 + length parts ≤ length m =
      omega (arith, exact, body.fits, n.size, t.size, length-packet_parts name text) in
    (
      finish bs MsgType.msg b' prog (written m 3 parts),
      rw (msg, run)
          (udp_message-written MsgType.msg name text bs b' prog m n t
            (omega (arith, fits, length-packet_parts name text)) (omega (arith, body.small))),
      refl,
      refl,
      refl,
      get_elem?-overwrite_before m 3 parts 0 (omega arith) ∙ body.first,
      λ j h. get_elem?-overwrite m 3 parts j fits h,
    )
