-- ===== src/Protocol/Input/Arguments.antt =====
-- userInputToCmds() of src/libs/ipk24protocol.c on the commands with arguments, with getWord() of
-- src/libs/utils.c: which parts of a line the words are.
use ipk_project.Prelude.{
  ℕ, zero, suc, ◌+◌, ◌≡◌, ◌<◌, ◌≤◌, ◌^◌, refl, sym, ap, ◌∙◌, subst, Bool, true, false, ◌||◌, List,
  [], ◌∷◌, ◌++◌, All, ◌==◌, arith, length, some, length-append, append_assoc,
}
use ipk_project.Outcome.{ok}
use ipk_project.Memory.{CharPtr, Object, advance, sub_size, add_size}
use ipk_project.Memory.Writes.{Spells}
use ipk_project.Memory.Spelling.{Spells-first, Spells-after}
use ipk_project.Utils.{is_blank, BytesBlock, get_word, skip_loop, skip_blank_chars_in_string}
use ipk_project.Utils.Scan.{find_blank_char_in_string-word}
use ipk_project.Utils.Types.{CommandType, command_code}
use ipk_project.Buffer.{Buffer}
use ipk_project.Queue.Types.{MsgFlags}
use ipk_project.Protocol.Blocks.{ProtocolBlocks, codes}
use ipk_project.Protocol.Disassemble.Line.{Reads}
use ipk_project.Protocol.Words.{AllAllowed, control_word_iff}
use ipk_project.Protocol.Input.{
  Parsed, WordType, allowed, allowed_chars_in_credentials, allowed_chars_in_name, parsed,
  with_command, auth_input, user_input_to_cmds, control_word,
}
use ipk_project.Protocol.Input.Quiet.{headed}
use ipk_project.Protocol.Input.Commands.{user_input_to_cmds-word, input_of}

-- blanks between words
abbrev pub is_gap : ℕ → Bool
is_gap c = c == b' ' || c == 9

-- What a pointer has in front of it, with no wrap.
pub record Ahead (p : CharPtr) (l : List ℕ) : Type 0 where
  pub spelled : Spells p 0 l
  pub room : p.offset + length l < 2 ^ 64

pub Ahead-after :
    (p : CharPtr) (xs ys : List ℕ) → Ahead p (xs ++ ys) → Ahead (advance p (length xs)) ys
Ahead-after p xs ys a =
    let size = length-append xs ys in
    record {
      spelled = Spells-after p (length xs) xs ys refl (omega (arith, size, a.room)) a.spelled;
      room = omega (arith, size, a.room);
    }

-- Blanks are skipped up to the first other character that the limit reaches.
pub skip_loop-gap :
    (p : CharPtr) (rounds i : ℕ) (gap rest : List ℕ) (c : ℕ)
    → Spells p i (gap ++ c ∷ rest)
    → All (λ x. is_gap x ≡ true) gap
    → is_gap c ≡ false
    → length gap < rounds
    → skip_loop p rounds i ≡ ok (i + length gap)
unfolding skip_loop
skip_loop-gap p zero i gap rest c s g n h = absurd (omega arith)
skip_loop-gap p (suc rounds) i [] rest c s g n h = rw (s.0, n) (ap ok (omega arith))
skip_loop-gap p (suc rounds) i (x ∷ gap) rest c s g n h =
    let no_end : (x == 0 || x == 10) ≡ false = ground (arith, g.0) in
    rw (s.0, g.0, no_end, skip_loop-gap p rounds (i + 1) gap rest c s.1 g.1 n (omega arith))
      (ap ok (omega arith))

-- a word that controlWord() accepts
pub record IsWord (type : WordType) (max : ℕ) (w : List ℕ) : Type 0 where
  pub present : 0 < length w
  pub within : length w ≤ max
  pub fine : AllAllowed type w

-- Where a word stands in front of a pointer, behind blanks.
abbrev pub word_at : CharPtr → List ℕ → List ℕ → BytesBlock
word_at p gap w = record { start = some (advance p (length gap)); len = length w }

pub no_gap : (c : ℕ) → is_blank c ≡ false → is_gap c ≡ false
unfolding is_blank
no_gap c h = ground arith

get_word-word :
    (p : CharPtr) (size : ℕ) (gap w rest : List ℕ) (c : ℕ)
    → Ahead p (gap ++ (w ++ c ∷ rest))
    → All (λ x. is_gap x ≡ true) gap
    → 0 < length w
    → All (λ x. is_blank x ≡ false) w
    → is_blank c ≡ true
    → length gap < size
    → length w ≤ size
    → size < 2 ^ 64
    → get_word 0 p size ≡ ok (word_at p gap w, true)
unfolding get_word skip_blank_chars_in_string
get_word-word p size gap [] rest c a g h n d l m small = absurd (omega arith)
get_word-word p size gap (x ∷ w) rest c a g h n d l m small =
    let some_room : (size == 0) ≡ false = ground arith in
    let skipped = skip_loop-gap p size 0 gap (w ++ c ∷ rest) x a.spelled g (no_gap x n.0) l in
    let zeros : 0 + length gap ≡ length gap = omega arith in
    let all : sub_size size 0 ≡ size = omega arith in
    let ahead = Ahead-after p gap ((x ∷ w) ++ c ∷ rest) a in
    let found =
      find_blank_char_in_string-word (advance p (length gap)) size (x ∷ w) c
        (Spells-first (advance p (length gap)) 0 ((x ∷ w) ++ c ∷ []) rest (
          subst (Spells (advance p (length gap)) 0) (sym (append_assoc (x ∷ w) (c ∷ []) rest))
            ahead.spelled))
        n d m in
    let more : (suc (length w) == 0) ≡ false = ground arith in
    rw (get_word, some_room, skipped, zeros, all, found, more) refl

-- what a pointer to the end of the word has in front of it
after_word :
    (p : CharPtr) (gap w rest : List ℕ)
    → Ahead p (gap ++ (w ++ rest))
    → Ahead (advance (advance p (length gap)) (length w)) rest
after_word p gap w rest a =
    Ahead-after (advance p (length gap)) w rest (Ahead-after p gap (w ++ rest) a)

pub Reads-word :
    (p : CharPtr) (gap w rest : List ℕ) → Ahead p (gap ++ (w ++ rest)) → Reads (word_at p gap w) w
Reads-word p gap w rest a = record {
  pointer = advance p (length gap);
  at = refl;
  size = refl;
  spelled =
      Spells-first (advance p (length gap)) 0 w rest (Ahead-after p gap (w ++ rest) a).spelled;
}

pub control_word-IsWord :
    (b : BytesBlock) (w : List ℕ) (max : ℕ) (type : WordType)
    → Reads b w
    → IsWord type max w
    → control_word b max type ≡ ok (true, [])
control_word-IsWord b w max type r k =
    (control_word_iff b r.pointer w max type r.at r.size r.spelled).1 (k.present, k.within, k.fine)

pub no_blank :
    (type : WordType) (w : List ℕ)
    → ((c : ℕ) → allowed type c ≡ true → is_blank c ≡ false)
    → AllAllowed type w
    → All (λ x. is_blank x ≡ false) w
no_blank type [] f a = tt
no_blank type (x ∷ w) f a = (f x a.0, no_blank type w f a.1)

user_char : (c : ℕ) → allowed WordType.username c ≡ true → is_blank c ≡ false
unfolding allowed allowed_chars_in_credentials is_blank
user_char c h = ground arith

pub channel_char : (c : ℕ) → allowed WordType.channel_id c ≡ true → is_blank c ≡ false
unfolding allowed allowed_chars_in_credentials is_blank
channel_char c h = ground arith

secret_char : (c : ℕ) → allowed WordType.secret c ≡ true → is_blank c ≡ false
unfolding allowed allowed_chars_in_credentials is_blank
secret_char c h = ground arith

pub name_char : (c : ℕ) → allowed WordType.display_name c ≡ true → is_blank c ≡ false
unfolding allowed allowed_chars_in_name is_blank
name_char c h = ground arith

pub gap_blank : (c : ℕ) → is_gap c ≡ true → is_blank c ≡ true
unfolding is_blank
gap_blank c h = ground arith

-- the line of an /auth, up to what stands behind the name
abbrev pub auth_line : List ℕ → List ℕ → List ℕ → List ℕ → List ℕ → List ℕ → List ℕ → List ℕ
auth_line gap1 user gap2 secret gap3 name rest =
    codes "/auth" ++ (gap1 ++ (user ++ (gap2 ++ (secret ++ (gap3 ++ (name ++ rest))))))

-- the result of an accepted /auth
pub record IsAuth (user secret name : List ℕ) (f : Parsed) : Type 0 where
  pub valid : f.valid ≡ true
  pub flags : f.flags ≡ MsgFlags.auth
  pub quiet : f.events ≡ []
  pub type : f.blocks.type ≡ command_code CommandType.auth
  pub first : Reads f.blocks.first user
  pub second : Reads f.blocks.second secret
  pub third : Reads f.blocks.third name

auth_input-words :
    (bs : ProtocolBlocks) (flags : MsgFlags) (p : CharPtr) (used : ℕ)
    (gap1 user gap2 secret gap3 name rest : List ℕ) (c : ℕ)
    → Ahead p (auth_line gap1 user gap2 secret gap3 name (c ∷ rest))
    → All (λ x. is_gap x ≡ true) gap1
    → All (λ x. is_gap x ≡ true) gap2
    → All (λ x. is_gap x ≡ true) gap3
    → IsWord WordType.username 20 user
    → IsWord WordType.secret 128 secret
    → IsWord WordType.display_name 20 name
    → is_blank c ≡ true
    → 0 < length gap2
    → 0 < length gap3
    → used ≡ 5 + length gap1 + length user + length gap2 + length secret + length gap3 + length name
    → used < 2 ^ 63
    → (f : Parsed) × (auth_input bs flags p 5 used ≡ ok f) × IsAuth user secret name f
unfolding auth_input
auth_input-words bs flags p used gap1 user [] secret gap3 name rest c a b1 b2 b3 u s n e g2 g3 size
      small =
    absurd (omega arith)
auth_input-words bs flags p used gap1 user gap2 secret [] name rest c a b1 b2 b3 u s n e g2 g3 size
      small =
    absurd (omega arith)
auth_input-words bs flags p used gap1 user (x2 ∷ t2) secret (x3 ∷ t3) name rest c a b1 b2 b3 u s n e
      g2 g3 size small =
    let end = name ++ c ∷ rest in
    let third = x3 ∷ (t3 ++ end) in
    let second = x2 ∷ (t2 ++ (secret ++ third)) in
    let p1 = advance p 5 in
    let a1 = Ahead-after p (codes "/auth") (gap1 ++ (user ++ second)) a in
    let w1 =
      get_word-word p1 (sub_size used 5) gap1 user (t2 ++ (secret ++ third)) x2 a1 b1 u.present
        (no_blank WordType.username user user_char u.fine) (gap_blank x2 b2.0) (omega arith)
        (omega arith) (omega arith) in
    let k1 =
      control_word-IsWord (word_at p1 gap1 user) user 20 WordType.username
        (Reads-word p1 gap1 user second a1) u in
    let p2 = advance (advance p1 (length gap1)) (length user) in
    let a2 = after_word p1 gap1 user second a1 in
    let w2 =
      get_word-word p2 (sub_size used (add_size 5 (length user))) (x2 ∷ t2) secret (t3 ++ end) x3 a2
        b2 s.present (no_blank WordType.secret secret secret_char s.fine) (gap_blank x3 b3.0)
        (omega arith) (omega arith) (omega arith) in
    let k2 =
      control_word-IsWord (word_at p2 (x2 ∷ t2) secret) secret 128 WordType.secret
        (Reads-word p2 (x2 ∷ t2) secret third a2) s in
    let p3 = advance (advance p2 (suc (length t2))) (length secret) in
    let a3 = after_word p2 (x2 ∷ t2) secret third a2 in
    let w3 =
      get_word-word p3 (sub_size used (add_size (add_size 5 (length user)) (length secret)))
        (x3 ∷ t3) name rest c a3 b3 n.present (no_blank WordType.display_name name name_char n.fine)
        e (omega arith) (omega arith) (omega arith) in
    let k3 =
      control_word-IsWord (word_at p3 (x3 ∷ t3) name) name 20 WordType.display_name
        (Reads-word p3 (x3 ∷ t3) name (c ∷ rest) a3) n in
    (
      parsed true
          (record (with_command bs CommandType.auth) {
            first = word_at p1 gap1 user;
            second = word_at p2 (x2 ∷ t2) secret;
            third = word_at p3 (x3 ∷ t3) name;
          })
          MsgFlags.auth [],
      rw (w1, w2, w3, k1, k2, k3) refl,
      record {
        valid = refl;
        flags = refl;
        quiet = refl;
        type = refl;
        first = Reads-word p1 gap1 user second a1;
        second = Reads-word p2 (x2 ∷ t2) secret third a2;
        third = Reads-word p3 (x3 ∷ t3) name (c ∷ rest) a3;
      },
    )

total :
    (gap1 user gap2 secret gap3 name rest : List ℕ)
    → length (auth_line gap1 user gap2 secret gap3 name rest)
      ≡ 5
        + length gap1
        + length user
        + length gap2
        + length secret
        + length gap3
        + length name
        + length rest
total gap1 user gap2 secret gap3 name rest =
    let l1 = name ++ rest in
    let l2 = gap3 ++ l1 in
    let l3 = secret ++ l2 in
    let l4 = gap2 ++ l3 in
    omega (
      arith,
      length-append name rest,
      length-append gap3 l1,
      length-append secret l2,
      length-append gap2 l3,
      length-append user l4,
      length-append gap1 (user ++ l4),
    )

auth_chars : All (λ x. is_blank x ≡ false) (codes "/auth")
unfolding is_blank
auth_chars = (refl, (refl, (refl, (refl, (refl, tt)))))

-- A line of a buffer that holds it: /auth, a user name, a secret and a display name that
-- controlWord() accepts, with blanks between them, and a blank, a line end or a zero byte behind. It
-- is parsed, without a complaint, into an AUTH with the flag of an AUTH, whose three words are these.
pub user_input_to_cmds-IsAuth :
    (b : Buffer) (o : Object) (bs : ProtocolBlocks) (flags : MsgFlags)
    (gap1 user gap2 secret gap3 name : List ℕ) (c : ℕ)
    → b.bytes ≡ some o
    → Spells
        (record { object = o; offset = 0 })
        0
        (auth_line gap1 user gap2 secret gap3 name (c ∷ []))
    → All (λ x. is_gap x ≡ true) gap1
    → All (λ x. is_gap x ≡ true) gap2
    → All (λ x. is_gap x ≡ true) gap3
    → 0 < length gap1
    → 0 < length gap2
    → 0 < length gap3
    → IsWord WordType.username 20 user
    → IsWord WordType.secret 128 secret
    → IsWord WordType.display_name 20 name
    → is_blank c ≡ true
    → b.used ≡ length (auth_line gap1 user gap2 secret gap3 name [])
    → b.used < 2 ^ 63
    → (f : Parsed) × (user_input_to_cmds b bs flags ≡ ok f) × IsAuth user secret name f
unfolding input_of
user_input_to_cmds-IsAuth b o bs flags [] user gap2 secret gap3 name c e s b1 b2 b3 g1 g2 g3 u k n
      end size small =
    absurd (omega arith)
user_input_to_cmds-IsAuth b o bs flags (x ∷ t) user gap2 secret gap3 name c e s b1 b2 b3 g1 g2 g3 u
      k n end size small =
    let p : CharPtr = record { object = o; offset = 0 } in
    let rest = t ++ (user ++ (gap2 ++ (secret ++ (gap3 ++ (name ++ c ∷ []))))) in
    let sum = total (x ∷ t) user gap2 secret gap3 name [] in
    let all = total (x ∷ t) user gap2 secret gap3 name (c ∷ []) in
    let command =
      user_input_to_cmds-word b o bs flags (codes "/auth") x e
        (Spells-first p 0 (codes "/auth" ++ x ∷ []) rest s) auth_chars (gap_blank x b1.0)
        (omega (arith, sum, size)) (omega (arith, sum, size)) in
    let (f, run, rest) =
      auth_input-words (headed bs p 5) flags p b.used (x ∷ t) user gap2 secret gap3 name [] c
        (record { spelled = s; room = omega (arith, size, sum, all) }) b1 b2 b3 u k n end g2 g3
        (omega (arith, size, sum)) small in
    (f, command ∙ run, rest)
