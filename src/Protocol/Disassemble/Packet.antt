-- ===== src/Protocol/Disassemble/Packet.antt =====
-- What disassebleProtocolUDP() of src/libs/ipk24protocol.c reads from a MSG.
use ipk_project.Prelude.{
  ℕ, ◌+◌, ◌^◌, ◌<◌, ◌≡◌, ◌==◌, refl, sym, subst, List, [], ◌∷◌, ◌++◌, some, arith, All, false,
  length, length-append, append_assoc,
}
use ipk_project.Outcome.{ok}
use ipk_project.Memory.{Object, CharPtr, add_size, sub_size, advance}
use ipk_project.Memory.Writes.{Spells}
use ipk_project.Memory.Spelling.{Spells-first, Spells-after}
use ipk_project.Utils.{convert_2bytes_to_u16_int}
use ipk_project.Utils.Scan.{find_zero_in_string-length}
use ipk_project.Buffer.{Buffer}
use ipk_project.Queue.Types.{MsgType, type_code, uchar2msg_type}
use ipk_project.Protocol.Blocks.{ProtocolBlocks, null_block}
use ipk_project.Protocol.Disassemble.{
  block_at, zero_ended, udp_message, udp_parts, disasseble_protocol_udp,
}
use ipk_project.Protocol.Disassemble.Line.{Reads}

-- a MSG of the UDP variant
abbrev pub packet_of : ℕ → ℕ → List ℕ → List ℕ → List ℕ
packet_of low high name text = type_code MsgType.msg ∷ low ∷ high ∷ (name ++ (0 ∷ (text ++ 0 ∷ [])))

zero_ended-length :
    (p : CharPtr) (limit : ℕ) (l : List ℕ)
    → Spells p 0 (l ++ 0 ∷ [])
    → All (λ c. (c == 0) ≡ false) l
    → 0 < length l
    → length l < limit
    → zero_ended p limit ≡ ok (block_at p (length l))
unfolding zero_ended
zero_ended-length p limit l s a pos h =
    let found = find_zero_in_string-length p limit l s a h in
    let more : (length l == 0) ≡ false = ground arith in rw (found, more) refl

-- A received packet of the type MSG, whose display name and text are not empty and have no zero
-- byte, is read as a message with exactly this name and this text, and with the ID that the two
-- bytes behind the type are joined to.
pub disasseble_protocol_udp-packet :
    (b : Buffer) (o : Object) (blocks : ProtocolBlocks) (low high : ℕ) (name text : List ℕ)
    → b.bytes ≡ some o
    → Spells (record { object = o; offset = 0 }) 0 (packet_of low high name text)
    → b.used ≡ length name + length text + 5
    → b.used < 2 ^ 62
    → All (λ c. (c == 0) ≡ false) name
    → All (λ c. (c == 0) ≡ false) text
    → 0 < length name
    → 0 < length text
    → (r : ProtocolBlocks) × (disasseble_protocol_udp b blocks
        ≡ ok (r, convert_2bytes_to_u16_int low high))
      × (r.type ≡ type_code MsgType.msg)
      × Reads r.zeroth name
      × Reads r.first text
unfolding disasseble_protocol_udp udp_message udp_parts uchar2msg_type
disasseble_protocol_udp-packet b o blocks low high name text e s size small n t some_name
      some_text =
    let p : CharPtr = record { object = o; offset = 0 } in
    let named = advance p 3 in
    let told = advance named (add_size (length name) 1) in
    let ended : length (text ++ 0 ∷ []) ≡ length text + 1 = length-append text (0 ∷ []) in
    let long : length (name ++ 0 ∷ []) ≡ length name + 1 = length-append name (0 ∷ []) in
    let rest : length (name ++ (0 ∷ (text ++ 0 ∷ []))) ≡ length name + length text + 2 =
      omega (arith, length-append name (0 ∷ (text ++ 0 ∷ [])), ended) in
    let at_name : Spells named 0 (name ++ (0 ∷ (text ++ 0 ∷ []))) =
      Spells-after p 3 (type_code MsgType.msg ∷ low ∷ high ∷ []) (name ++ (0 ∷ (text ++ 0 ∷ [])))
        refl (omega (arith, rest)) s in
    let split : Spells named 0 ((name ++ 0 ∷ []) ++ (text ++ 0 ∷ [])) =
      subst (λ l. Spells named 0 l) (sym (append_assoc name (0 ∷ []) (text ++ 0 ∷ []))) at_name in
    let name_ends = Spells-first named 0 (name ++ 0 ∷ []) (text ++ 0 ∷ []) split in
    let one_more : add_size (length name) 1 ≡ length (name ++ 0 ∷ []) = omega (arith, long) in
    let offset : named.offset ≡ 3 = omega arith in
    let at_text : Spells told 0 (text ++ 0 ∷ []) =
      Spells-after named (add_size (length name) 1) (name ++ 0 ∷ []) (text ++ 0 ∷ []) one_more
        (omega (arith, one_more, long, ended, offset)) split in
    let first =
      zero_ended-length named (sub_size b.used 3) name name_ends n some_name (omega arith) in
    let second =
      zero_ended-length told (sub_size b.used (add_size 3 (length name))) text at_text t some_text
        (omega arith) in
    (
      record blocks {
        type = type_code MsgType.msg;
        zeroth = block_at named (length name);
        first = block_at told (length text);
        second = null_block;
        third = null_block;
      },
      rw (e, s.0, s.1.0, s.1.1.0, first, second) refl,
      refl,
      record {
        pointer = named;
        at = refl;
        size = refl;
        spelled = Spells-first named 0 name (0 ∷ (text ++ 0 ∷ [])) at_name;
      },
      record {
        pointer = told;
        at = refl;
        size = refl;
        spelled = Spells-first told 0 text (0 ∷ []) at_text;
      },
    )
