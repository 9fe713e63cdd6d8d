-- ===== src/Protocol/Disassemble/Line.antt =====
-- disassebleProtocolTCP() on a line with a text message, and on what assembleProtocolTCP() makes.
use ipk_project.Prelude.{
  ℕ, suc, ◌+◌, ◌-◌, ◌^◌, ◌<◌, ◌≡◌, refl, sym, subst, List, [], ◌∷◌, ◌++◌, some, arith, length,
  length-append, All, true, false, ◌==◌, append_assoc,
}
use ipk_project.Outcome.{ok}
use ipk_project.Memory.{Object, CharPtr, add_size, sub_size, advance}
use ipk_project.Memory.Writes.{Spells}
use ipk_project.Memory.Spelling.{Spells-first, Spells-after}
use ipk_project.Utils.{BytesBlock, is_blank, is_line_end}
use ipk_project.Utils.Scan.{find_blank_char_in_string-word, find_new_line_in_string-line}
use ipk_project.Buffer.{Buffer}
use ipk_project.Queue.Types.{MsgType, type_code}
use ipk_project.Protocol.Blocks.{ProtocolBlocks, codes, strncmp_equal}
use ipk_project.Protocol.Disassemble.{disasseble_protocol_tcp, tcp_message, with_type, block_at}

-- A literal is recognised where it stands.
pub strncmp_equal-Spells :
    (p : CharPtr) (i : ℕ) (text : List ℕ)
    → Spells p i text
    → strncmp_equal p i text (length text) ≡ ok true
unfolding strncmp_equal
strncmp_equal-Spells p i [] s = refl
strncmp_equal-Spells p i (x ∷ text) s =
    let more : (suc (length text) == 0) ≡ false = ground arith in
    let less : suc (length text) - 1 ≡ length text = omega arith in
    let same : (x == x) ≡ true = ground arith in
    rw (strncmp_equal, more, s.0, same, less) (strncmp_equal-Spells p (i + 1) text s.1)

-- A block that shows a text in a buffer.
pub record Reads (b : BytesBlock) (text : List ℕ) : Type 0 where
  pub pointer : CharPtr
  pub at : b.start ≡ some pointer
  pub size : b.len ≡ length text
  pub spelled : Spells pointer 0 text

-- the line of a text message, without its end
abbrev pub line_of : List ℕ → List ℕ → List ℕ → List ℕ
line_of prefix name text = prefix ++ (name ++ (codes " IS " ++ (text ++ 13 ∷ 10 ∷ [])))

module _ (p : CharPtr) (name text : List ℕ) (used : ℕ) (prefix : List ℕ) (blocks : ProtocolBlocks)
    (type : MsgType) (start : p.offset ≡ 0) (nine : length prefix ≡ 9)
    (spelled : Spells p 0 (line_of prefix name text)) (size : used ≡ length name + length text + 15)
    (small : used < 2 ^ 62) (one_word : All (λ c. is_blank c ≡ false) name)
    (one_line : All (λ c. is_line_end c ≡ false) text) where
  tcp_message-line :
      (r : ProtocolBlocks) × (tcp_message type blocks p used ≡ ok r)
      × (r.type ≡ type_code type)
      × Reads r.zeroth name
      × Reads r.first text
  unfolding tcp_message with_type is_blank is_line_end
  tcp_message-line =
      let behind : List ℕ = codes " IS " ++ text ++ 13 ∷ 10 ∷ [] in
      let long : length behind ≡ length text + 6 =
        omega (arith, length-append text (13 ∷ 10 ∷ [])) in
      let room : length (name ++ behind) ≡ length name + length text + 6 =
        omega (arith, long, length-append name behind) in
      let offset : add_size p.offset 9 ≡ 9 = omega arith in
      let at_name : Spells (advance p 9) 0 (name ++ behind) =
        Spells-after p 9 prefix (name ++ behind) (sym nine) (omega (arith, room)) spelled in
      let at_is : Spells (advance (advance p 9) (length name)) 0 behind =
        Spells-after (advance p 9) (length name) name behind refl (omega (arith, offset, long))
          at_name in
      let four : add_size (length name) 4 ≡ length (name ++ codes " IS ") =
        omega (arith, length-append name (codes " IS ")) in
      let at_text : Spells (advance (advance p 9) (add_size (length name) 4)) 0
          (text ++ 13 ∷ 10 ∷ []) =
        Spells-after (advance p 9) (add_size (length name) 4) (name ++ codes " IS ")
          (text ++ 13 ∷ 10 ∷ []) four
          (omega (
            arith,
            offset,
            four,
            length-append name (codes " IS "),
            length-append text (13 ∷ 10 ∷ []),
          ))
          (subst (λ l. Spells (advance p 9) 0 l)
            (sym (append_assoc name (codes " IS ") (text ++ 13 ∷ 10 ∷ []))) at_name) in
      let word : Spells (advance p 9) 0 (name ++ 32 ∷ []) =
        Spells-first (advance p 9) 0 (name ++ 32 ∷ []) (codes "IS " ++ text ++ 13 ∷ 10 ∷ []) (
          subst (λ l. Spells (advance p 9) 0 l)
            (sym (append_assoc name (32 ∷ []) (codes "IS " ++ text ++ 13 ∷ 10 ∷ []))) at_name) in
      let contents : Spells (advance (advance p 9) (add_size (length name) 4)) 0 (text ++ 13 ∷ []) =
        Spells-first _ 0 (text ++ 13 ∷ []) (10 ∷ []) (
          subst (λ l. Spells (advance (advance p 9) (add_size (length name) 4)) 0 l)
            (sym (append_assoc text (13 ∷ []) (10 ∷ []))) at_text) in
      (
        record blocks {
          type = type_code type;
          zeroth = block_at (advance p 9) (length name);
          first = block_at (advance (advance p 9) (add_size (length name) 4)) (length text);
        },
        rw
            (
              find_blank_char_in_string-word (advance p 9) (sub_size used 9) name 32 word one_word
                  refl (omega arith),
              strncmp_equal-Spells (advance (advance p 9) (length name)) 0 (codes " IS ")
                  (Spells-first _ 0 (codes " IS ") (text ++ 13 ∷ 10 ∷ []) at_is),
              find_new_line_in_string-line (advance (advance p 9) (add_size (length name) 4))
                  (sub_size (sub_size used 9) (length name)) text 13 contents one_line refl
                  (omega arith),
            )
            refl,
        refl,
        record {
          pointer = advance p 9;
          at = refl;
          size = refl;
          spelled = Spells-first (advance p 9) 0 name behind at_name;
        },
        record {
          pointer = advance (advance p 9) (add_size (length name) 4);
          at = refl;
          size = refl;
          spelled = Spells-first _ 0 text (13 ∷ 10 ∷ []) at_text;
        },
      )

-- A received line "MSG FROM name IS text\r\n", where the name has no blank and the text no line end,
-- is read as a message with exactly this name and this text.
pub disasseble_protocol_tcp-line :
    (b : Buffer) (o : Object) (blocks : ProtocolBlocks) (name text : List ℕ)
    → b.bytes ≡ some o
    → Spells (record { object = o; offset = 0 }) 0 (line_of (codes "MSG FROM ") name text)
    → b.used ≡ length name + length text + 15
    → b.used < 2 ^ 62
    → All (λ c. is_blank c ≡ false) name
    → All (λ c. is_line_end c ≡ false) text
    → (r : ProtocolBlocks) × (disasseble_protocol_tcp b blocks ≡ ok r)
      × (r.type ≡ type_code MsgType.msg)
      × Reads r.zeroth name
      × Reads r.first text
unfolding disasseble_protocol_tcp
disasseble_protocol_tcp-line b o blocks name text e s size small word line =
    let p : CharPtr = record { object = o; offset = 0 } in
    let (r, run, t, n, c) =
      tcp_message-line p name text b.used (codes "MSG FROM ") blocks MsgType.msg refl refl s size
        small word line in
    let is =
      strncmp_equal-Spells p 0 (codes "MSG FROM ") (Spells-first p 0 (codes "MSG FROM ") _ s) in
    (r, rw (e, is, run) refl, t, n, c)
