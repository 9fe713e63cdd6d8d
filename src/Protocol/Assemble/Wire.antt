-- ===== src/Protocol/Assemble/Wire.antt =====
-- The bytes that assembleProtocolTCP() and assembleProtocolUDP() put on the wire.
use ipk_project.Prelude.{
  ℕ, ◌+◌, ◌%◌, ◌^◌, ◌<◌, ◌≤◌, ◌≡◌, refl, sym, ap, ◌∙◌, List, [], ◌∷◌, ◌++◌, map, some, arith,
  length, length-append, length-map, take, true, false,
}
use ipk_project.Outcome.{ok}
use ipk_project.Memory.{Object, Cell, CharPtr, is_null}
use ipk_project.Memory.Writes.{Holds, overwrite}
use ipk_project.Utils.{BytesBlock, uchar2_command_type}
use ipk_project.Utils.Types.{CommandType, command_code}
use ipk_project.Buffer.{Buffer, buffer_resize}
use ipk_project.Buffer.Laws.{cells, IsValid, buffer_resize-Resized, buffer_resize-IsValid}
use ipk_project.Queue.Types.{MsgType}
use ipk_project.Program.{ProgramInterface}
use ipk_project.Protocol.Blocks.{ProtocolBlocks, codes}
use ipk_project.Protocol.Assemble.{
  Assembled, assemble_protocol_tcp, tcp_by_type, tcp_overhead, tcp_message, tcp_end, finish,
  expected_size,
}
use ipk_project.Protocol.Assemble.Writing.{
  written, add_block-written, add_stored_info-written, add_string-written, take-overwrite,
}

-- A block that shows a text.
pub record Shows (b : BytesBlock) (text : List ℕ) : Type 0 where
  pub pointer : CharPtr
  pub at : b.start ≡ some pointer
  pub size : b.len ≡ length text
  pub shown : Holds pointer 0 (map some text)

-- A buffer that holds a text.
pub record Stores (b : Buffer) (text : List ℕ) : Type 0 where
  pub block : Object
  pub at : b.bytes ≡ some block
  pub size : b.used ≡ length text
  pub shown : Holds (record { object = block; offset = 0 }) 0 (map some text)

-- the cells of a text message of the TCP variant
abbrev pub text_message : List ℕ → List ℕ → List ℕ → List Cell
text_message prefix name text =
    ((([] ++ map some prefix) ++ map some name) ++ map some (codes " IS "))
    ++ map some text
    ++ map some (13 ∷ 10 ∷ [])

tcp_message-written :
    (type : MsgType) (prefix name text : List ℕ) (bs : ProtocolBlocks) (b : Buffer)
    (prog : ProgramInterface) (m : Object)
    → Stores prog.display_name name
    → Shows bs.zeroth text
    → length prefix + length name + length text + 6 ≤ length m
    → length m < 2 ^ 64
    → tcp_message type prefix bs b prog m
      ≡ ok (finish bs type b prog (written m 0 (text_message prefix name text)))
unfolding tcp_message tcp_end overwrite
tcp_message-written type prefix name text bs b prog m n t room small =
    let c1 : List Cell = [] ++ map some prefix in
    let c2 = c1 ++ map some name in
    let c3 = c2 ++ map some (codes " IS ") in
    let c4 = c3 ++ map some text in
    let l1 : length c1 ≡ length prefix = length-map some prefix in
    let l2 : length c2 ≡ length prefix + length name =
      omega (arith, l1, length-append c1 (map some name), length-map some name) in
    let l3 : length c3 ≡ length prefix + length name + 4 =
      omega (arith, l2, length-append c2 (map some (codes " IS "))) in
    let l4 : length c4 ≡ length prefix + length name + 4 + length text =
      omega (arith, l3, length-append c3 (map some text), length-map some text) in
    let named : is_null prog.display_name.bytes ≡ false = ap is_null n.at in
    rw
      (
        named,
        add_string-written m 0 [] prefix (omega arith, small),
        add_stored_info-written m 0 c1 (map some name) prog.display_name n.block n.at
            (n.size ∙ sym (length-map some name)) n.shown
            (omega (arith, l1, length-map some name), small),
        add_string-written m 0 c2 (codes " IS ") (omega (arith, l2), small),
        add_block-written m 0 c3 (map some text) bs.zeroth t.pointer t.at
            (t.size ∙ sym (length-map some text)) t.shown
            (omega (arith, l3, length-map some text), small),
        add_string-written m 0 c4 (13 ∷ 10 ∷ []) (omega (arith, l4), small),
      )
      refl

-- the cells of the message MSG of the TCP variant
abbrev pub msg_line : List ℕ → List ℕ → List Cell
msg_line name text = text_message (codes "MSG FROM ") name text

pub length-msg_line :
    (name text : List ℕ) → length (msg_line name text) ≡ length name + length text + 15
length-msg_line name text =
    let c2 = ([] ++ map some (codes "MSG FROM ")) ++ map some name in
    let c3 = c2 ++ map some (codes " IS ") in
    let c4 = c3 ++ map some text in
    omega (
      arith,
      length-map some name,
      length-map some text,
      length-append ([] ++ map some (codes "MSG FROM ")) (map some name),
      length-append c2 (map some (codes " IS ")),
      length-append c3 (map some text),
      length-append c4 (map some (13 ∷ 10 ∷ [])),
    )

msg_command :
    (type : ℕ) → type ≡ command_code CommandType.msg → uchar2_command_type type ≡ CommandType.msg
unfolding uchar2_command_type
msg_command type e = ap uchar2_command_type e

-- A message of the user that shows a text is assembled, in the TCP variant with a display name and
-- sizes that do not wrap, to exactly the line "MSG FROM name IS text\r\n" in a buffer of any
-- earlier size; the program stays as it is.
pub assemble_protocol_tcp-msg_line :
    (bs : ProtocolBlocks) (b : Buffer) (prog : ProgramInterface) (name text : List ℕ)
    → bs.type ≡ command_code CommandType.msg
    → Stores prog.display_name name
    → Shows bs.zeroth text
    → IsValid b
    → bs.zeroth.len + bs.first.len + bs.second.len + bs.third.len + prog.display_name.used + 16
      < 2 ^ 63
    → (a : Assembled) × (assemble_protocol_tcp bs b prog ≡ ok a)
      × (a.can_be_sended ≡ true)
      × (a.program ≡ prog)
      × (a.buffer.used ≡ length (msg_line name text))
      × (take a.buffer.used (cells a.buffer) ≡ msg_line name text)
unfolding assemble_protocol_tcp tcp_by_type tcp_overhead
assemble_protocol_tcp-msg_line bs b prog name text ty n t v small =
    let size : ℕ = (expected_size bs 1 + (9 + 4 + prog.display_name.used) + 2) % 2 ^ 64 in
    let exact : size
        ≡ bs.zeroth.len + bs.first.len + bs.second.len + bs.third.len + prog.display_name.used
          + 16 =
      omega arith in
    let (m, r) = buffer_resize-Resized b size v.counted (omega (arith, exact)) in
    let v' = buffer_resize-IsValid b size v (omega (arith, exact)) in
    let msg : uchar2_command_type bs.type ≡ CommandType.msg = msg_command bs.type ty in
    let fits : length name + length text + 15 ≤ length m =
      omega (arith, exact, r.fits, n.size, t.size) in
    let line =
      tcp_message-written MsgType.msg (codes "MSG FROM ") name text bs (buffer_resize b size) prog m
        n t (omega (arith, fits)) (omega (arith, v'.small, r.counted)) in
    (
      finish bs MsgType.msg (buffer_resize b size) prog (written m 0 (msg_line name text)),
      rw (msg, r.block) line,
      refl,
      refl,
      zeros (length (msg_line name text)),
      ap (λ k. take k (overwrite m 0 (msg_line name text))) (zeros (length (msg_line name text)))
          ∙ take-overwrite m (msg_line name text) (omega (arith, fits, length-msg_line name text)),
    )
  where
    zeros : (n : ℕ) → 0 + n ≡ n
    zeros n = omega arith
