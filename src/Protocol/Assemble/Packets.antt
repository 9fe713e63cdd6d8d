-- ===== src/Protocol/Assemble/Packets.antt =====
-- The bytes that assembleProtocolUDP() puts into a CONFIRM, and the room of a JOIN.
pub mod Message
use ipk_project.Prelude.{
  ℕ, ◌+◌, ◌%◌, ◌^◌, ◌<◌, ◌≤◌, ◌≡◌, refl, sym, ap, ◌∙◌, List, [], ◌∷◌, ◌++◌, map, some, arith,
  length, length-append, length-map, false, set, get_elem?, length-set,
}
use ipk_project.Outcome.{Outcome, fault}
use ipk_project.Memory.{Object, Cell, is_null}
use ipk_project.Memory.Writes.{
  Holds, overwrite, length-overwrite, write_all-fault, get_elem?-set_self,
}
use ipk_project.Utils.{uchar2_command_type, string_replace}
use ipk_project.Utils.Scan.{copy_loop-write_all}
use ipk_project.Utils.Types.{CommandType, command_code}
use ipk_project.Buffer.{Buffer, buffer_resize}
use ipk_project.Buffer.Loading.{put_byte-ok}
use ipk_project.Buffer.Laws.{IsValid, block-IsValid, buffer_resize-Resized, buffer_resize-IsValid}
use ipk_project.Queue.Types.{MsgType, type_code}
use ipk_project.Program.{ProgramInterface}
use ipk_project.Protocol.Blocks.{ProtocolBlocks}
use ipk_project.Protocol.Assemble.{
  Assembled, assemble_protocol_udp, udp_by_type, udp_join, udp_body, expected_size, add_stored_info,
}
use ipk_project.Protocol.Assemble.Writing.{written, add_block-written, add_zero_byte-written}
use ipk_project.Protocol.Assemble.Wire.{Stores, Shows}

resize-bound : (b : Buffer) (n k : ℕ) → b.allocated ≤ k → n ≤ k → (buffer_resize b n).allocated ≤ k
unfolding buffer_resize
resize-bound b n k h h' = ground arith

-- The block with which the body of a message starts.
record Body (b b' : Buffer) (size : ℕ) (type : MsgType) (m : Object) : Type 0 where
  block : b'.bytes ≡ some m
  counted : b'.allocated ≡ length m
  fits : size ≤ length m
  small : length m < 2 ^ 63
  bound : (k : ℕ) → b.allocated ≤ k → size ≤ k → length m ≤ k
  first : get_elem? m 0 ≡ some (some (type_code type))

udp_body-Body :
    (rest : ProtocolBlocks → Buffer → ProgramInterface → Object → Outcome Assembled)
    (type : MsgType) (size : ℕ) (bs : ProtocolBlocks) (b : Buffer) (prog : ProgramInterface)
    → IsValid b
    → 0 < b.allocated
    → 0 < size
    → size < 2 ^ 63
    → (b' : Buffer) × (m : Object) × (udp_body rest type size bs b prog ≡ rest bs b' prog m)
      × Body b b' size type m
unfolding udp_body
udp_body-Body rest type size bs b prog v some_room pos small =
    let (m, e, counted) = block-IsValid b v some_room in
    let inside : 0 < length m = omega (arith, counted) in
    let t = some (type_code type) in
    let b1 : Buffer = record b { bytes = some (set m 0 t) } in
    let size' : size % 2 ^ 64 ≡ size = omega arith in
    let v1 : IsValid b1 = record {
      counted = counted ∙ sym (length-set m 0 t);
      within = v.within;
      small = v.small;
    } in
    let (m2, r) = buffer_resize-Resized b1 (size % 2 ^ 64) v1.counted (omega (arith, size')) in
    let v2 = buffer_resize-IsValid b1 (size % 2 ^ 64) v1 (omega (arith, size')) in
    (
      buffer_resize b1 (size % 2 ^ 64),
      m2,
      rw (put_byte-ok b m 0 (type_code type) e inside, r.block) refl,
      record {
        block = r.block;
        counted = r.counted;
        fits = omega (arith, r.fits, size');
        small = omega (arith, v2.small, r.counted);
        bound = λ k h h'.
            omega (arith, resize-bound b1 (size % 2 ^ 64) k h (omega (arith, size')), r.counted);
        first = r.kept 0 some_room ∙ get_elem?-set_self m 0 t inside;
      },
    )

-- A stored name that does not fit is written out of bounds.
add_stored_info-fault :
    (m : Object) (i : ℕ) (cs ds : List Cell) (b : Buffer) (o : Object)
    → b.bytes ≡ some o
    → b.used ≡ length ds
    → Holds (record { object = o; offset = 0 }) 0 ds
    → i + length cs ≤ length m
    → length m < i + length cs + length ds
    → add_stored_info (written m i cs) b ≡ fault
unfolding add_stored_info string_replace
add_stored_info-fault m i cs ds b o s l h fits over =
    rw
      (
        s,
        l,
        copy_loop-write_all (overwrite m i cs) (i + length cs) (record { object = o; offset = 0 }) 0
            ds h,
        write_all-fault (overwrite m i cs) (i + length cs) ds
            (omega (arith, length-overwrite m i cs)) (omega (arith, length-overwrite m i cs)),
      )
      refl

-- The JOIN at position 3 of a block that has room for the channel but not for the display name.
udp_join-fault :
    (bs : ProtocolBlocks) (b : Buffer) (prog : ProgramInterface) (m : Object)
    (channel name : List ℕ)
    → Shows bs.first channel
    → Stores prog.display_name name
    → 3 + length channel + 1 ≤ length m
    → length m < 3 + length channel + 1 + length name
    → length m < 2 ^ 64
    → udp_join bs b prog m ≡ fault
unfolding udp_join overwrite
udp_join-fault bs b prog m channel name c n fits over small =
    let size : length (map some channel) ≡ length channel = length-map some channel in
    let size' : length (map some name) ≡ length name = length-map some name in
    let named : is_null prog.display_name.bytes ≡ false = ap is_null n.at in
    let after : List Cell = ([] ++ map some channel) ++ some 0 ∷ [] in
    let long : length after ≡ length channel + 1 =
      omega (arith, size, length-append ([] ++ map some channel) (some 0 ∷ [])) in
    rw
      (
        add_block-written m 3 [] (map some channel) bs.first c.pointer c.at (c.size ∙ sym size)
            c.shown (omega (arith, size), small),
        add_zero_byte-written m 3 ([] ++ map some channel) (omega (arith, size), small),
        named,
        add_stored_info-fault m 3 after (map some name) prog.display_name n.block n.at
            (n.size ∙ sym size') n.shown (omega (arith, long)) (omega (arith, long, size')),
      )
      refl

join_command :
    (type : ℕ) → type ≡ command_code CommandType.join → uchar2_command_type type ≡ CommandType.join
unfolding uchar2_command_type
join_command type e = ap uchar2_command_type e

-- A JOIN of the UDP variant whose display name is longer than what the sizes of the blocks and of
-- the stored channel, and the block of the buffer, leave for it is written out of bounds.
pub assemble_protocol_udp-join_fault :
    (bs : ProtocolBlocks) (b : Buffer) (prog : ProgramInterface) (channel name : List ℕ)
    → bs.type ≡ command_code CommandType.join
    → Shows bs.first channel
    → Stores prog.display_name name
    → IsValid b
    → bs.zeroth.len + bs.first.len + bs.second.len + bs.third.len + 10 + prog.channel_id.used
      < length channel + 4 + length name
    → b.allocated < length channel + 4 + length name
    → length channel + length name < 2 ^ 62
    → assemble_protocol_udp bs b prog ≡ fault
unfolding assemble_protocol_udp udp_by_type
assemble_protocol_udp-join_fault bs b prog channel name ty c n v over over' small =
    let size = expected_size bs 10 in
    let exact : size ≡ bs.zeroth.len + bs.first.len + bs.second.len + bs.third.len + 10 =
      omega arith in
    let join : uchar2_command_type bs.type ≡ CommandType.join = join_command bs.type ty in
    let b1 = buffer_resize b size in
    let v1 = buffer_resize-IsValid b size v (omega (arith, exact)) in
    let (m1, r1) = buffer_resize-Resized b size v.counted (omega (arith, exact)) in
    let (b', m, run, body) =
      udp_body-Body udp_join MsgType.join (size + prog.channel_id.used) bs b1 prog v1
        (omega (arith, exact, r1.fits, r1.counted)) (omega (arith, exact)) (omega (arith, exact)) in
    let most : length m ≤ length channel + 3 + length name =
      body.bound (length channel + 3 + length name)
        (resize-bound b size (length channel + 3 + length name) (omega arith)
          (omega (arith, exact)))
        (omega (arith, exact)) in
    rw (join, run)
      (udp_join-fault bs b' prog m channel name c n (omega (arith, exact, body.fits, c.size))
        (omega (arith, most)) (omega (arith, body.small)))
