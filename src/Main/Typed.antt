-- ===== src/Main/Typed.antt =====
-- What the user types, from the standard input on: loadBufferFromStdin() of src/libs/buffer.c and
-- userInputToCmds() of src/libs/ipk24protocol.c, one after the other as in userCommandHandling().
use ipk_project.Prelude.{
  ℕ, ◌+◌, ◌^◌, ◌<◌, ◌≡◌, refl, sym, ap, ap₂, ◌∙◌, subst, Bool, true, false, if◌then◌else◌, ◌==◌,
  List, [], ◌∷◌, ◌++◌, map, some, All, arith, length, length-map, length-append, set, take,
  append_assoc,
}
use ipk_project.Outcome.{Outcome, ok, ◌>>=◌}
use ipk_project.Memory.{Object}
use ipk_project.Memory.Writes.{Spells, overwrite}
use ipk_project.Memory.Spelling.{Spells-take}
use ipk_project.Utils.{is_ending_character, is_blank}
use ipk_project.Buffer.{Buffer, load_buffer_from_stdin}
use ipk_project.Buffer.Loading.{load_buffer_from_stdin-line}
use ipk_project.Queue.Types.{MsgFlags}
use ipk_project.Protocol.Blocks.{ProtocolBlocks, codes}
use ipk_project.Protocol.Words.{AllAllowed}
use ipk_project.Protocol.Assemble.Writing.{overwrite-append, take-overwrite}
use ipk_project.Protocol.Input.{
  Parsed, WordType, allowed, allowed_chars_in_credentials, allowed_chars_in_name,
  allowed_chars_in_message, user_input_to_cmds,
}
use ipk_project.Protocol.Input.Arguments.{
  auth_line, is_gap, IsWord, IsAuth, user_input_to_cmds-IsAuth,
}

-- a line that the user types into a buffer, parsed
unfoldable pub type_line :
    Buffer → Bool → ProtocolBlocks → MsgFlags → List ℕ → Outcome (Parsed × Bool × List ℕ)
type_line b eof blocks flags input = do
  (b', used, eof', rest) ← load_buffer_from_stdin b eof input
  p ← user_input_to_cmds (record b' { used = used }) blocks flags
  ok (p, eof', rest)

-- the block after a line was read into it
abbrev loaded : Object → List ℕ → Object
loaded m line = set (overwrite m 0 (map some line)) (length line) (some 0)

loaded-Spells :
    (m : Object) (line : List ℕ)
    → length line < length m
    → length m < 2 ^ 62
    → Spells (record { object = loaded m line; offset = 0 }) 0 (line ++ 0 ∷ [])
unfolding overwrite
loaded-Spells m line room small =
    let cs = map some line ++ some 0 ∷ [] in
    let size : length (map some line) ≡ length line = length-map some line in
    let whole : length (line ++ 0 ∷ []) ≡ length cs =
      omega
        (arith, size, length-append line (0 ∷ []), length-append (map some line) (some 0 ∷ [])) in
    let place : length line ≡ 0 + length (map some line) = omega (arith, size) in
    let all : loaded m line ≡ overwrite m 0 cs =
      ap (λ k. overwrite (overwrite m 0 (map some line)) k (some 0 ∷ [])) place
      ∙ overwrite-append m 0 (map some line) (some 0 ∷ []) in
    Spells-take (loaded m line) (line ++ 0 ∷ []) (omega (arith, length-append line (0 ∷ []))) (
      ap₂ take whole all
      ∙ take-overwrite m cs (omega (arith, size, length-append (map some line) (some 0 ∷ [])))
      ∙ sym (map-end line))
  where
    map-end : (l : List ℕ) → map some (l ++ 0 ∷ []) ≡ map some l ++ some 0 ∷ []
    map-end [] = refl
    map-end (x ∷ l) = ap (◌∷◌ (some x)) (map-end l)

-- 1 for a character that does not end the input
abbrev Kept : ℕ → Type 0
Kept c = is_ending_character c ≡ true

gap-Kept : (c : ℕ) → is_gap c ≡ true → Kept c
unfolding is_ending_character
gap-Kept c h = ground arith

allowed-Kept : (type : WordType) (c : ℕ) → allowed type c ≡ true → Kept c
unfolding is_ending_character allowed allowed_chars_in_credentials allowed_chars_in_name
    allowed_chars_in_message
allowed-Kept WordType.username c h = ground arith
allowed-Kept WordType.channel_id c h = ground arith
allowed-Kept WordType.secret c h = ground arith
allowed-Kept WordType.display_name c h = ground arith
allowed-Kept WordType.message_content c h = ground arith

Kept-append : (xs ys : List ℕ) → All Kept xs → All Kept ys → All Kept (xs ++ ys)
Kept-append [] ys a b = b
Kept-append (x ∷ xs) ys a b = (a.0, Kept-append xs ys a.1 b)

Kept-gap :
    (gap rest : List ℕ) → All (λ c. is_gap c ≡ true) gap → All Kept rest → All Kept (gap ++ rest)
Kept-gap [] rest g r = r
Kept-gap (x ∷ gap) rest g r = (gap-Kept x g.0, Kept-gap gap rest g.1 r)

Kept-word :
    (type : WordType) (w rest : List ℕ) → AllAllowed type w → All Kept rest → All Kept (w ++ rest)
Kept-word type [] rest a r = r
Kept-word type (x ∷ w) rest a r = (allowed-Kept type x a.0, Kept-word type w rest a.1 r)

command-Kept : All Kept (codes "/auth")
unfolding is_ending_character
command-Kept = (refl, (refl, (refl, (refl, (refl, tt)))))

zero_blank : is_blank 0 ≡ true
unfolding is_blank
zero_blank = refl

auth_line-append :
    (gap1 user gap2 secret gap3 name r : List ℕ)
    → auth_line gap1 user gap2 secret gap3 name [] ++ r
      ≡ auth_line gap1 user gap2 secret gap3 name r
auth_line-append gap1 user gap2 secret gap3 name r =
    let l1 = name ++ [] in
    let l2 = gap3 ++ l1 in
    let l3 = secret ++ l2 in
    let l4 = gap2 ++ l3 in
    let e1 = append_assoc gap3 l1 r ∙ ap (◌++◌ gap3) (append_assoc name [] r) in
    let e2 =
      append_assoc gap2 l3 r ∙ ap (◌++◌ gap2) (append_assoc secret l2 r ∙ ap (◌++◌ secret) e1) in
    let e3 =
      append_assoc gap1 (user ++ l4) r
      ∙ ap (◌++◌ gap1) (append_assoc user l4 r ∙ ap (◌++◌ user) e2) in
    ap (◌++◌ (codes "/auth")) e3

-- A line /auth with a user name, a secret and a display name that controlWord() accepts, with blanks
-- between them, is typed into a buffer that counts its cells and is longer than the line, and ended
-- by a character that ends the input. It is read and parsed, without a complaint, into an AUTH with
-- its flag and these three words, and what was typed behind it is left.
pub type_line-IsAuth :
    (b : Buffer) (m : Object) (eof : Bool) (bs : ProtocolBlocks) (flags : MsgFlags)
    (gap1 user gap2 secret gap3 name rest : List ℕ) (c : ℕ)
    → b.bytes ≡ some m
    → b.allocated ≡ length m
    → length m < 2 ^ 62
    → length (auth_line gap1 user gap2 secret gap3 name []) < length m
    → All (λ x. is_gap x ≡ true) gap1
    → All (λ x. is_gap x ≡ true) gap2
    → All (λ x. is_gap x ≡ true) gap3
    → 0 < length gap1
    → 0 < length gap2
    → 0 < length gap3
    → IsWord WordType.username 20 user
    → IsWord WordType.secret 128 secret
    → IsWord WordType.display_name 20 name
    → is_ending_character c ≡ false
    → (f : Parsed) × (type_line b eof bs flags
          (auth_line gap1 user gap2 secret gap3 name [] ++ c ∷ rest)
        ≡ ok (f, (if c == 0xff then true else eof), rest))
      × IsAuth user secret name f
unfolding type_line
type_line-IsAuth b m eof bs flags gap1 user gap2 secret gap3 name rest c e s small room b1 b2 b3 g1
      g2 g3 u k n end =
    let line = auth_line gap1 user gap2 secret gap3 name [] in
    let kept : All Kept line =
      Kept-append (codes "/auth") (gap1 ++ (user ++ (gap2 ++ (secret ++ (gap3 ++ (name ++ []))))))
        command-Kept
        (Kept-gap gap1 (user ++ (gap2 ++ (secret ++ (gap3 ++ (name ++ []))))) b1 (
          Kept-word WordType.username user (gap2 ++ (secret ++ (gap3 ++ (name ++ [])))) u.fine (
            Kept-gap gap2 (secret ++ (gap3 ++ (name ++ []))) b2 (
              Kept-word WordType.secret secret (gap3 ++ (name ++ [])) k.fine (
                Kept-gap gap3 (name ++ []) b3
                  (Kept-word WordType.display_name name [] n.fine tt)))))) in
    let load =
      load_buffer_from_stdin-line b m line c rest eof e s (omega (arith, small)) room kept end in
    let spelled = loaded-Spells m line room small in
    let b' : Buffer = record b { bytes = some (loaded m line); used = length line } in
    let (f, run, is) =
      user_input_to_cmds-IsAuth b' (loaded m line) bs flags gap1 user gap2 secret gap3 name 0 refl
        (subst (Spells (record { object = loaded m line; offset = 0 }) 0)
          (auth_line-append gap1 user gap2 secret gap3 name (0 ∷ [])) spelled)
        b1 b2 b3 g1 g2 g3 u k n zero_blank refl (omega (arith, small, room)) in
    (f, rw (load, run) refl, is)
