-- ===== src/Protocol/Input/Lines.antt =====
-- userInputToCmds() of src/libs/ipk24protocol.c on /join and /rename, whose argument is the rest of
-- the line.
use ipk_project.Prelude.{
  ℕ, suc, ◌+◌, ◌≡◌, ◌<◌, ◌^◌, refl, sym, ◌∙◌, subst, true, false, List, [], ◌∷◌, ◌++◌, All, ◌==◌,
  arith, length, some, length-append, append_assoc,
}
use ipk_project.Outcome.{ok}
use ipk_project.Memory.{CharPtr, Object, advance, sub_size, minus_one}
use ipk_project.Memory.Writes.{Spells}
use ipk_project.Memory.Spelling.{Spells-first}
use ipk_project.Utils.{is_blank, is_line_end, skip_blank_chars_in_string}
use ipk_project.Utils.Scan.{find_new_line_in_string-line}
use ipk_project.Utils.Types.{CommandType, command_code}
use ipk_project.Buffer.{Buffer}
use ipk_project.Queue.Types.{MsgFlags}
use ipk_project.Protocol.Blocks.{ProtocolBlocks, codes}
use ipk_project.Protocol.Disassemble.Line.{Reads}
use ipk_project.Protocol.Input.{
  Parsed, WordType, allowed, parsed, with_command, line_input, user_input_to_cmds,
}
use ipk_project.Protocol.Input.Quiet.{headed}
use ipk_project.Protocol.Input.Commands.{user_input_to_cmds-word, input_of, command_of_word}
use ipk_project.Protocol.Input.Arguments.{
  Ahead, Ahead-after, skip_loop-gap, is_gap, gap_blank, no_gap, IsWord, word_at, Reads-word,
  control_word-IsWord, no_blank, name_char, channel_char,
}

-- the commands with one argument, their text and the type of their argument
pub data Single : Type 0 where
  join rename : Single

abbrev pub text_of : Single → List ℕ
text_of Single.join = codes "/join"
text_of Single.rename = codes "/rename"

abbrev pub command_of : Single → CommandType
command_of Single.join = CommandType.join
command_of Single.rename = CommandType.rename

abbrev pub word_type : Single → WordType
word_type Single.join = WordType.channel_id
word_type Single.rename = WordType.display_name

abbrev single_line : Single → List ℕ → List ℕ → List ℕ → List ℕ
single_line k gap w rest = text_of k ++ (gap ++ (w ++ rest))

-- the result of an accepted /join or /rename
pub record IsSingle (k : Single) (fs : MsgFlags) (w : List ℕ) (f : Parsed) : Type 0 where
  pub valid : f.valid ≡ true
  pub flags : f.flags ≡ fs
  pub quiet : f.events ≡ []
  pub type : f.blocks.type ≡ command_code (command_of k)
  pub first : Reads f.blocks.first w

word_char : (k : Single) (c : ℕ) → allowed (word_type k) c ≡ true → is_blank c ≡ false
word_char Single.join c h = channel_char c h
word_char Single.rename c h = name_char c h

no_line_end : (c : ℕ) → is_blank c ≡ false → is_line_end c ≡ false
unfolding is_blank is_line_end
no_line_end c h = ground arith

no_line_ends : (w : List ℕ) → All (λ c. is_blank c ≡ false) w → All (λ c. is_line_end c ≡ false) w
no_line_ends [] a = tt
no_line_ends (x ∷ w) a = (no_line_end x a.0, no_line_ends w a.1)

line_input-word :
    (k : Single) (bs : ProtocolBlocks) (flags : MsgFlags) (p : CharPtr) (len used : ℕ)
    (text gap w rest : List ℕ) (c : ℕ)
    → len ≡ length text
    → Ahead p (text ++ (gap ++ (w ++ c ∷ rest)))
    → All (λ x. is_gap x ≡ true) gap
    → IsWord (word_type k) 20 w
    → is_line_end c ≡ true
    → used ≡ len + length gap + length w
    → used < 2 ^ 63
    → (f : Parsed) × (line_input (command_of k) (word_type k) bs flags p len used ≡ ok f)
      × IsSingle k flags w f
unfolding line_input skip_blank_chars_in_string
line_input-word k bs flags p len used text gap [] rest c l a b i end size small =
    absurd (omega (arith, i.present))
line_input-word k bs flags p len used text gap (x ∷ w) rest c l a b i end size small =
    let p1 = advance p len in
    let a1 : Ahead p1 (gap ++ ((x ∷ w) ++ c ∷ rest)) =
      subst (λ n. Ahead (advance p n) (gap ++ ((x ∷ w) ++ c ∷ rest))) (sym l)
        (Ahead-after p text (gap ++ ((x ∷ w) ++ c ∷ rest)) a) in
    let letters = no_blank (word_type k) (x ∷ w) (word_char k) i.fine in
    let skipped =
      skip_loop-gap p1 (sub_size used len) 0 gap (w ++ c ∷ rest) x a1.spelled b (no_gap x letters.0)
        (omega arith) in
    let zeros : 0 + length gap ≡ length gap = omega arith in
    let start = advance p1 (length gap) in
    let a2 = Ahead-after p1 gap ((x ∷ w) ++ c ∷ rest) a1 in
    let found =
      find_new_line_in_string-line start (sub_size used len) (x ∷ w) c
        (Spells-first start 0 ((x ∷ w) ++ c ∷ []) rest
          (subst (Spells start 0) (sym (append_assoc (x ∷ w) (c ∷ []) rest)) a2.spelled))
        (no_line_ends (x ∷ w) letters) end (omega arith) in
    let there : (suc (length w) == minus_one) ≡ false = ground (arith, i.within) in
    let reads = Reads-word p1 gap (x ∷ w) (c ∷ rest) a1 in
    let fine = control_word-IsWord (word_at p1 gap (x ∷ w)) (x ∷ w) 20 (word_type k) reads i in
    (
      parsed true (record (with_command bs (command_of k)) { first = word_at p1 gap (x ∷ w) }) flags
          [],
      rw (skipped, zeros, found, there, fine) refl,
      record { valid = refl; flags = refl; quiet = refl; type = refl; first = reads },
    )

total :
    (k : Single) (gap w rest : List ℕ)
    → length (single_line k gap w rest) ≡ length (text_of k) + length gap + length w + length rest
total k gap w rest = omega (
  arith,
  length-append (text_of k) (gap ++ (w ++ rest)),
  length-append gap (w ++ rest),
  length-append w rest,
)

command_chars : (k : Single) → All (λ x. is_blank x ≡ false) (text_of k)
unfolding is_blank
command_chars Single.join = (refl, (refl, (refl, (refl, (refl, tt)))))
command_chars Single.rename = (refl, (refl, (refl, (refl, (refl, (refl, (refl, tt)))))))

selects :
    (k : Single) (bs : ProtocolBlocks) (flags : MsgFlags) (p : CharPtr) (len used : ℕ)
    → input_of (command_of_word (text_of k)) bs flags p len used
      ≡ line_input (command_of k) (word_type k) bs flags p len used
unfolding input_of
selects Single.join bs flags p len used = refl
selects Single.rename bs flags p len used = refl

-- A line of a buffer that holds it: /join or /rename, blanks, and a channel or a display name that
-- controlWord() accepts, with a line end or a zero byte behind. It is parsed, without a complaint and
-- with the flags kept, into the command, and its word is this one.
pub user_input_to_cmds-IsSingle :
    (k : Single) (b : Buffer) (o : Object) (bs : ProtocolBlocks) (flags : MsgFlags) (gap w : List ℕ)
    (c : ℕ)
    → b.bytes ≡ some o
    → Spells (record { object = o; offset = 0 }) 0 (single_line k gap w (c ∷ []))
    → All (λ x. is_gap x ≡ true) gap
    → 0 < length gap
    → IsWord (word_type k) 20 w
    → is_line_end c ≡ true
    → b.used ≡ length (single_line k gap w [])
    → b.used < 2 ^ 63
    → (f : Parsed) × (user_input_to_cmds b bs flags ≡ ok f) × IsSingle k flags w f
user_input_to_cmds-IsSingle k b o bs flags [] w c e s g h i end size small = absurd (omega arith)
user_input_to_cmds-IsSingle k b o bs flags (x ∷ t) w c e s g h i end size small =
    let p : CharPtr = record { object = o; offset = 0 } in
    let n = length (text_of k) in
    let sum = total k (x ∷ t) w [] in
    let all = total k (x ∷ t) w (c ∷ []) in
    let shifted =
      subst (Spells p 0) (sym (append_assoc (text_of k) (x ∷ []) (t ++ (w ++ c ∷ [])))) s in
    let command =
      user_input_to_cmds-word b o bs flags (text_of k) x e
        (Spells-first p 0 (text_of k ++ x ∷ []) (t ++ (w ++ c ∷ [])) shifted) (command_chars k)
        (gap_blank x g.0) (omega (arith, sum, size)) (omega (arith, sum, size)) in
    let (f, run, is) =
      line_input-word k (headed bs p n) flags p n b.used (text_of k) (x ∷ t) w [] c refl
        (record { spelled = s; room = omega (arith, size, sum, all) }) g i end
        (omega (arith, size, sum)) small in
    (f, command ∙ selects k (headed bs p n) flags p n b.used ∙ run, is)
