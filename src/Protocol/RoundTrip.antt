-- ===== src/Protocol/RoundTrip.antt =====
-- What one of the client's assembling functions writes, its disassembling function reads.
pub mod Packet
use ipk_project.Prelude.{
  ℕ, zero, suc, ◌+◌, ◌^◌, ◌<◌, ◌≡◌, refl, sym, ap, ◌∙◌, List, [], ◌∷◌, ◌++◌, map, Option, none,
  some, arith, length, length-map, All, false, take, append_assoc,
}
use mathlib.Core.List.{map-append}
use ipk_project.Outcome.{ok}
use ipk_project.Memory.{Object}
use ipk_project.Memory.Spelling.{Spells-take}
use ipk_project.Utils.{is_blank, is_line_end}
use ipk_project.Utils.Types.{CommandType, command_code}
use ipk_project.Buffer.{Buffer}
use ipk_project.Buffer.Laws.{cells, IsValid}
use ipk_project.Queue.Types.{MsgType, type_code}
use ipk_project.Program.{ProgramInterface}
use ipk_project.Protocol.Blocks.{ProtocolBlocks, codes}
use ipk_project.Protocol.Assemble.{Assembled, assemble_protocol_tcp}
use ipk_project.Protocol.Assemble.Wire.{
  Stores, Shows, msg_line, length-msg_line, assemble_protocol_tcp-msg_line,
}
use ipk_project.Protocol.Disassemble.{disasseble_protocol_tcp}
use ipk_project.Protocol.Disassemble.Line.{Reads, line_of, disasseble_protocol_tcp-line}

msg_line-eq-map :
    (name text : List ℕ) → msg_line name text ≡ map some (line_of (codes "MSG FROM ") name text)
msg_line-eq-map name text = simp (append_assoc, map-append)

take-nil {ℓ} : {A : Type ℓ} (n : ℕ) → take {A = A} n [] ≡ []
take-nil zero = refl
take-nil (suc n) = refl

-- A buffer that shows a character has a block.
block_of :
    (b : Buffer) (c : ℕ) (l : List ℕ) (n : ℕ)
    → take n (cells b) ≡ map some (c ∷ l)
    → (o : Object) × (b.bytes ≡ some o) × (take n o ≡ map some (c ∷ l))
block_of b c l n e = go b.bytes refl
  where
    go :
        (o : Option Object)
        → b.bytes ≡ o
        → (m : Object) × (b.bytes ≡ some m) × (take n m ≡ map some (c ∷ l))
    go none k = absurd (let nothing = rw k at e in cc (take-nil {A = Option ℕ} n, nothing))
    go (some o) k = (o, k, rw k at e)

-- A message of the user, with a name without blanks and a text without line ends, is assembled for
-- TCP into a buffer from which it is read back: a MSG with the same name and the same text.
pub disasseble-assemble_protocol_tcp :
    (bs bs' : ProtocolBlocks) (b : Buffer) (prog : ProgramInterface) (name text : List ℕ)
    → bs.type ≡ command_code CommandType.msg
    → Stores prog.display_name name
    → Shows bs.zeroth text
    → IsValid b
    → bs.zeroth.len + bs.first.len + bs.second.len + bs.third.len + prog.display_name.used + 16
      < 2 ^ 62
    → All (λ c. is_blank c ≡ false) name
    → All (λ c. is_line_end c ≡ false) text
    → (a : Assembled) × (r : ProtocolBlocks) × (assemble_protocol_tcp bs b prog ≡ ok a)
      × (disasseble_protocol_tcp a.buffer bs' ≡ ok r)
      × (r.type ≡ type_code MsgType.msg)
      × Reads r.zeroth name
      × Reads r.first text
disasseble-assemble_protocol_tcp bs bs' b prog name text ty n t v small word line =
    let (a, run, sent, same, used, shown) =
      assemble_protocol_tcp-msg_line bs b prog name text ty n t v (omega arith) in
    let long : a.buffer.used ≡ length name + length text + 15 = used ∙ length-msg_line name text in
    let whole : length (line_of (codes "MSG FROM ") name text) ≡ a.buffer.used =
      sym (length-map some (line_of (codes "MSG FROM ") name text))
      ∙ ap length (sym (msg_line-eq-map name text))
      ∙ sym used in
    let (o, e, k) =
      block_of a.buffer b'M'
        (codes "SG FROM " ++ (name ++ (codes " IS " ++ (text ++ 13 ∷ 10 ∷ [])))) a.buffer.used
        (shown ∙ msg_line-eq-map name text) in
    let spelled =
      Spells-take o (line_of (codes "MSG FROM ") name text)
        (omega (arith, whole, long, n.size, t.size)) (ap (λ i. take i o) whole ∙ k) in
    let (r, read, type, first, second) =
      disasseble_protocol_tcp-line a.buffer o bs' name text e spelled long
        (omega (arith, long, n.size, t.size)) word line in
    (a, r, run, read, type, first, second)
