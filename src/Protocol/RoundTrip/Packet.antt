-- ===== src/Protocol/RoundTrip/Packet.antt =====
-- A MSG of the UDP variant, from assembling over the setting of its ID to its disassembling.
use ipk_project.Prelude.{
  ℕ, zero, suc, ◌+◌, ◌-◌, ◌%◌, ◌/◌, ◌^◌, ◌<◌, ◌≤◌, ◌≡◌, ◌≢◌, ◌==◌, ltb, refl, subst, ap, ◌∙◌, List,
  [], ◌∷◌, ◌++◌, map, Option, none, some, arith, length, length-set, set, get_elem?, All, false,
  append_assoc, if◌then◌else◌,
}
use mathlib.Core.List.{map-append}
use ipk_project.Outcome.{ok}
use ipk_project.Memory.{Object, Cell}
use ipk_project.Memory.Writes.{
  Spells, Holds-Spells, Holds-cells, get_elem?-set_self, get_elem?-set_ne,
}
use ipk_project.Utils.{break_u16_int_to_bytes}
use ipk_project.Utils.Bytes.{convert-break}
use ipk_project.Utils.Types.{CommandType, command_code}
use ipk_project.Buffer.{Buffer}
use ipk_project.Buffer.Laws.{cells, IsValid}
use ipk_project.Buffer.Loading.{put_byte-ok}
use ipk_project.Queue.{Message, write_id}
use ipk_project.Queue.Types.{MsgType, type_code}
use ipk_project.Program.{ProgramInterface}
use ipk_project.Protocol.Blocks.{ProtocolBlocks}
use ipk_project.Protocol.Assemble.{Assembled, assemble_protocol_udp}
use ipk_project.Protocol.Assemble.Wire.{Stores, Shows}
use ipk_project.Protocol.Assemble.Packets.Message.{
  packet_parts, length-packet_parts, assemble_protocol_udp-msg_packet,
}
use ipk_project.Protocol.Disassemble.{disasseble_protocol_udp}
use ipk_project.Protocol.Disassemble.Line.{Reads}
use ipk_project.Protocol.Disassemble.Packet.{packet_of, disasseble_protocol_udp-packet}

packet_parts-eq-map :
    (name text : List ℕ) → packet_parts name text ≡ map some (name ++ (0 ∷ (text ++ 0 ∷ [])))
packet_parts-eq-map name text = simp (append_assoc, map-append)

-- A buffer with a first cell has a block.
block_of :
    (b : Buffer) (c : Cell)
    → get_elem? (cells b) 0 ≡ some c
    → (o : Object) × (b.bytes ≡ some o) × (cells b ≡ o)
block_of b c e = go b.bytes refl
  where
    go : (o : Option Object) → b.bytes ≡ o → (m : Object) × (b.bytes ≡ some m) × (cells b ≡ m)
    go none k = absurd (let nothing = rw k at e in cc nothing)
    go (some o) k = (o, k, rw k refl)

-- The cells of a packet once its ID is set.
numbered-Spells :
    (o : Object) (low high : ℕ) (name text : List ℕ)
    → 3 + length (packet_parts name text) < 2 ^ 62
    → 3 ≤ length o
    → get_elem? o 0 ≡ some (some (type_code MsgType.msg))
    → ((j : ℕ)
        → j < length (packet_parts name text)
        → get_elem? o (3 + j) ≡ get_elem? (packet_parts name text) j)
    → Spells
        (record { object = set (set o 2 (some high)) 1 (some low); offset = 0 })
        0
        (packet_of low high name text)
numbered-Spells o low high name text small room type parts =
    Holds-Spells (record { object = o2; offset = 0 }) 0 (packet_of low high name text)
      (Holds-cells (record { object = o2; offset = 0 }) 0 (map some (packet_of low high name text))
        (omega (arith, size)) at)
  where
    o1 : Object
    o1 = set o 2 (some high)

    o2 : Object
    o2 = set o1 1 (some low)

    size : length (map some (packet_of low high name text)) ≡ 3 + length (packet_parts name text)
    size = omega (arith, ap (λ (cs : List Cell). length cs) (packet_parts-eq-map name text))

    kept : (j : ℕ) → 2 ≢ j → 1 ≢ j → get_elem? o2 j ≡ get_elem? o j
    kept j two one = get_elem?-set_ne o1 1 j (some low) one ∙ get_elem?-set_ne o 2 j (some high) two

    shift : (j : ℕ) → 0 + 0 + suc (suc (suc j)) ≡ 3 + j
    shift j = omega arith

    at :
        (j : ℕ)
        → j < length (map some (packet_of low high name text))
        → get_elem? o2 (0 + 0 + j) ≡ get_elem? (map some (packet_of low high name text)) j
    at zero h = kept 0 (λ e. omega arith) (λ e. omega arith) ∙ type
    at (suc zero) h = get_elem?-set_self o1 1 (some low) (omega (arith, length-set o 2 (some high)))
    at (suc (suc zero)) h =
        get_elem?-set_ne o1 1 2 (some low) (λ e. omega arith)
        ∙ get_elem?-set_self o 2 (some high) (omega arith)
    at (suc (suc (suc j))) h =
        ap (get_elem? o2) (shift j)
        ∙ kept (3 + j) (λ e. omega arith) (λ e. omega arith)
        ∙ parts j (omega (arith, size))
        ∙ ap (λ (cs : List Cell). get_elem? cs j) (packet_parts-eq-map name text)

-- A block whose cells from 3 on are given, and are not none, has three cells before them.
reaches :
    (o : Object) (cs : List Cell)
    → 0 < length cs
    → ((j : ℕ) → j < length cs → get_elem? o (3 + j) ≡ get_elem? cs j)
    → 3 ≤ length o
reaches o [] h at = absurd (omega arith)
reaches [] (c ∷ cs) h at = absurd (let nothing = at 0 h in cc nothing)
reaches (x ∷ []) (c ∷ cs) h at = absurd (let nothing = at 0 h in cc nothing)
reaches (x ∷ y ∷ []) (c ∷ cs) h at = absurd (let nothing = at 0 h in cc nothing)
reaches (x ∷ y ∷ z ∷ o) (c ∷ cs) h at = omega arith

-- A message of the user, with a name and a text that are not empty and have no zero byte, is
-- assembled for UDP into a packet from which it is read back once its ID is set: a MSG with the same
-- name and the same text. The ID is read back where its low byte is below 128, and as the ID minus
-- 256 (modulo 2 ^ 16) where it is not.
pub disasseble-assemble_protocol_udp :
    (bs bs' : ProtocolBlocks) (b : Buffer) (prog : ProgramInterface) (m : Message) (id : ℕ)
    (name text : List ℕ)
    → bs.type ≡ command_code CommandType.msg
    → Stores prog.display_name name
    → Shows bs.zeroth text
    → IsValid b
    → bs.zeroth.len + bs.first.len + bs.second.len + bs.third.len + prog.display_name.used + 10
      < 2 ^ 62
    → All (λ c. (c == 0) ≡ false) name
    → All (λ c. (c == 0) ≡ false) text
    → 0 < length name
    → 0 < length text
    → id < 2 ^ 16
    → (a : Assembled) × (sent : Buffer) × (r : ProtocolBlocks) × (assemble_protocol_udp bs b prog
        ≡ ok a)
      × (write_id id (record m { buffer = some a.buffer }) ≡ ok (record m { buffer = some sent }))
      × (disasseble_protocol_udp sent bs'
          ≡ ok (r, if ltb (id % 256) 128 then id else (id + 2 ^ 16 - 256) % 2 ^ 16))
      × (r.type ≡ type_code MsgType.msg)
      × Reads r.zeroth name
      × Reads r.first text
unfolding write_id break_u16_int_to_bytes
disasseble-assemble_protocol_udp bs bs' b prog m id name text ty n t v small nz tz np tp short =
    let (a, run, sent, same, used, type, parts) =
      assemble_protocol_udp-msg_packet bs b prog name text ty n t v (omega arith) in
    let (o, e, same_cells) = block_of a.buffer (some (type_code MsgType.msg)) type in
    let long = length-packet_parts name text in
    let low = id % 256 in
    let high = (id / 2 ^ 8) % 256 in
    let type' : get_elem? o 0 ≡ some (some (type_code MsgType.msg)) =
      subst (λ (x : Object). get_elem? x 0 ≡ some (some (type_code MsgType.msg))) same_cells type in
    let parts' : (j : ℕ)
        → j < length (packet_parts name text)
        → get_elem? o (3 + j) ≡ get_elem? (packet_parts name text) j =
      subst
        (λ (x : Object).
          (j : ℕ)
          → j < length (packet_parts name text)
          → get_elem? x (3 + j) ≡ get_elem? (packet_parts name text) j)
        same_cells parts in
    let room : 3 ≤ length o = reaches o (packet_parts name text) (omega (arith, long)) parts' in
    let o1 = set o 2 (some high) in
    let b1 : Buffer = record a.buffer { bytes = some o1 } in
    let b2 : Buffer = record a.buffer { bytes = some (set o1 1 (some low)) } in
    let spelled =
      numbered-Spells o low high name text (omega (arith, long, n.size, t.size)) room type'
        parts' in
    let (r, read, rt, rn, rc) =
      disasseble_protocol_udp-packet b2 (set o1 1 (some low)) bs' low high name text refl spelled
        (omega (arith, used, long)) (omega (arith, used, long, n.size, t.size)) nz tz np tp in
    (
      a,
      b2,
      r,
      run,
      rw
          (
            put_byte-ok a.buffer o 2 high e (omega (arith, room)),
            put_byte-ok b1 o1 1 low refl (omega (arith, room, length-set o 2 (some high))),
          )
          refl,
      read ∙ ap (λ (k : ℕ). ok (r, k)) (convert-break id short),
      rt,
      rn,
      rc,
    )
