-- ===== src/Protocol/Input/Commands.antt =====
-- userInputToCmds() of src/libs/ipk24protocol.c: which command the first word of a line is taken
-- for.
use ipk_project.Prelude.{
  ℕ, suc, ◌+◌, ◌-◌, ◌≡◌, ◌<◌, ◌≤◌, refl, Bool, true, false, ◌&&◌, List, [], ◌∷◌, ◌++◌, All, ◌==◌,
  arith, if◌then◌else◌, length, some,
}
use ipk_project.Outcome.{Outcome, ok}
use ipk_project.Memory.{CharPtr, Object}
use ipk_project.Memory.Writes.{Spells}
use ipk_project.Memory.Spelling.{Spells-first}
use ipk_project.Utils.{is_blank}
use ipk_project.Utils.Scan.{find_blank_char_in_string-word}
use ipk_project.Utils.Types.{CommandType}
use ipk_project.Buffer.{Buffer}
use ipk_project.Queue.Types.{MsgFlags}
use ipk_project.Protocol.Blocks.{ProtocolBlocks, codes, strncmp_equal}
use ipk_project.Protocol.Input.{
  Parsed, parsed, WordType, auth_input, line_input, message_input, user_input_to_cmds, with_command,
}
use ipk_project.Protocol.Input.Quiet.{headed}

-- whether a text begins with a word
abbrev pub is_prefix : List ℕ → List ℕ → Bool
is_prefix [] text = true
is_prefix (c ∷ word) [] = false
is_prefix (c ∷ word) (x ∷ text) = c == x && is_prefix word text

-- the command of a first word: the first of which the word is a prefix, the empty word included
abbrev pub command_of_word : List ℕ → CommandType
command_of_word word =
    if is_prefix word (codes "/auth")
    then CommandType.auth
    else if is_prefix word (codes "/join")
    then CommandType.join
    else if is_prefix word (codes "/rename")
    then CommandType.rename
    else if is_prefix word (codes "/help")
    then CommandType.help
    else if is_prefix word (codes "/exit")
    then CommandType.exit
    else CommandType.msg

-- what is done with the rest of the line for a command
unfoldable pub input_of : CommandType → ProtocolBlocks → MsgFlags → CharPtr → ℕ → ℕ → Outcome Parsed
input_of CommandType.auth bs flags p len used = auth_input bs flags p len used
input_of CommandType.join bs flags p len used =
    line_input CommandType.join WordType.channel_id bs flags p len used
input_of CommandType.rename bs flags p len used =
    line_input CommandType.rename WordType.display_name bs flags p len used
input_of CommandType.help bs flags p len used =
    ok (parsed true (with_command bs CommandType.help) flags [])
input_of CommandType.exit bs flags p len used =
    ok (parsed true (with_command bs CommandType.exit) flags [])
input_of _ bs flags p len used = message_input bs flags p used

nonzero : (c : ℕ) → is_blank c ≡ false → (c == 0) ≡ false
unfolding is_blank
nonzero c h = ground arith

-- The comparison with the length of a word tests whether the word is a prefix.
strncmp_equal-is_prefix :
    (p : CharPtr) (i : ℕ) (word text : List ℕ)
    → Spells p i word
    → All (λ c. is_blank c ≡ false) word
    → strncmp_equal p i text (length word) ≡ ok (is_prefix word text)
unfolding strncmp_equal
strncmp_equal-is_prefix p i [] [] s a = refl
strncmp_equal-is_prefix p i [] (x ∷ text) s a = refl
strncmp_equal-is_prefix p i (c ∷ word) [] s a =
    let more : (suc (length word) == 0) ≡ false = ground arith in
    let other = nonzero c a.0 in rw (strncmp_equal, more, s.0, other) refl
strncmp_equal-is_prefix p i (c ∷ word) (x ∷ text) s a =
    let more : (suc (length word) == 0) ≡ false = ground arith in
    let less : suc (length word) - 1 ≡ length word = omega arith in
    let rest = strncmp_equal-is_prefix p (i + 1) word text s.1 a.1 in
    rw (strncmp_equal, more, s.0, less, rest) (same (c == x) (is_prefix word text))
  where
    same : (b d : Bool) → (if b then ok d else ok false) ≡ ok (b && d)
    same true d = refl
    same false d = refl

-- The tests of a word in their order select the input of its command.
selected :
    (a j r h e : Bool) (bs : ProtocolBlocks) (flags : MsgFlags) (p : CharPtr) (len used : ℕ)
    → (if a
        then input_of CommandType.auth bs flags p len used
        else if j
        then input_of CommandType.join bs flags p len used
        else if r
        then input_of CommandType.rename bs flags p len used
        else if h
        then input_of CommandType.help bs flags p len used
        else if e
        then input_of CommandType.exit bs flags p len used
        else input_of CommandType.msg bs flags p len used)
      ≡ input_of
          (if a
            then CommandType.auth
            else if j
            then CommandType.join
            else if r
            then CommandType.rename
            else if h
            then CommandType.help
            else if e
            then CommandType.exit
            else CommandType.msg)
          bs
          flags
          p
          len
          used
selected true j r h e bs flags p len used = refl
selected false true r h e bs flags p len used = refl
selected false false true h e bs flags p len used = refl
selected false false false true e bs flags p len used = refl
selected false false false false true bs flags p len used = refl
selected false false false false false bs flags p len used = refl

-- A line whose first word, before a blank or the end, has no blank in it is handled as the first
-- command of /auth, /join, /rename, /help and /exit that begins with the word, or else as a message:
-- a prefix of a command stands for it, and an empty word, as at a blank, for /auth.
pub user_input_to_cmds-word :
    (b : Buffer) (o : Object) (bs : ProtocolBlocks) (flags : MsgFlags) (word : List ℕ) (c : ℕ)
    → b.bytes ≡ some o
    → Spells (record { object = o; offset = 0 }) 0 (word ++ c ∷ [])
    → All (λ x. is_blank x ≡ false) word
    → is_blank c ≡ true
    → length word ≤ b.used
    → 0 < b.used
    → user_input_to_cmds b bs flags
      ≡ input_of
          (command_of_word word)
          (headed bs (record { object = o; offset = 0 }) (length word))
          flags
          (record { object = o; offset = 0 })
          (length word)
          b.used
unfolding user_input_to_cmds input_of
user_input_to_cmds-word b o bs flags word c e s a d h h0 =
    let p : CharPtr = record { object = o; offset = 0 } in
    let w = Spells-first p 0 word (c ∷ []) s in
    let some_input : (b.used == 0) ≡ false = ground arith in
    let found = find_blank_char_in_string-word p b.used word c s a d h in
    let is_auth = strncmp_equal-is_prefix p 0 word (codes "/auth") w a in
    let is_join = strncmp_equal-is_prefix p 0 word (codes "/join") w a in
    let is_rename = strncmp_equal-is_prefix p 0 word (codes "/rename") w a in
    let is_help = strncmp_equal-is_prefix p 0 word (codes "/help") w a in
    let is_exit = strncmp_equal-is_prefix p 0 word (codes "/exit") w a in
    rw (some_input, e, found, is_auth, is_join, is_rename, is_help, is_exit)
      (selected (is_prefix word (codes "/auth")) (is_prefix word (codes "/join"))
        (is_prefix word (codes "/rename")) (is_prefix word (codes "/help"))
        (is_prefix word (codes "/exit")) (headed bs p (length word)) flags p (length word) b.used)
