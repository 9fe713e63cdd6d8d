-- ===== src/Protocol/Input.antt =====
-- userInputToCmds() and what it calls: the user's line is split into words, and the words are
-- checked. DEBUG is not defined, so "." is not allowed in credentials.
pub mod Quiet
pub mod Commands
pub mod Arguments
pub mod Lines
use ipk_project.Prelude.{
  ℕ, zero, suc, ◌+◌, Bool, true, false, ◌&&◌, ◌||◌, not, List, [], ◌∷◌, Option, none, some, ◌==◌,
  leb, ltb, if◌then◌else◌,
}
use ipk_project.Outcome.{Outcome, ok, ◌>>=◌}
use ipk_project.Memory.{CharPtr, or_fault, add_size, sub_size, read, advance, minus_one}
use ipk_project.Utils.{
  BytesBlock, get_word, find_blank_char_in_string, find_new_line_in_string,
  skip_blank_chars_in_string,
}
use ipk_project.Utils.Types.{CommandType, command_code}
use ipk_project.Buffer.{Buffer}
use ipk_project.Queue.Types.{MsgFlags}
use ipk_project.Program.{Event}
use ipk_project.Protocol.Blocks.{ProtocolBlocks, null_block, codes, start_of, strncmp_equal}

-- A char above 0x7f is negative, so it is in none of the ranges.
unfoldable pub allowed_chars_in_credentials : ℕ → Bool
allowed_chars_in_credentials c =
    leb b'a' c && leb c b'z'
    || (leb b'A' c && leb c b'Z' || (leb b'0' c && leb c b'9' || c == b'-'))

unfoldable pub allowed_chars_in_name : ℕ → Bool
allowed_chars_in_name c = leb 0x21 c && leb c 0x7E

unfoldable pub allowed_chars_in_message : ℕ → Bool
allowed_chars_in_message c = leb 0x20 c && leb c 0x7E

-- the types of words, ToW_Username and so on
pub data WordType : Type 0 where
  username channel_id secret display_name message_content : WordType

unfoldable pub allowed : WordType → ℕ → Bool
unfolding allowed_chars_in_credentials allowed_chars_in_name allowed_chars_in_message
allowed WordType.username c = allowed_chars_in_credentials c
allowed WordType.channel_id c = allowed_chars_in_credentials c
allowed WordType.secret c = allowed_chars_in_credentials c
allowed WordType.display_name c = allowed_chars_in_name c
allowed WordType.message_content c = allowed_chars_in_message c

-- the characters `p[i] ..` of the given number, which an error message shows
unfoldable pub read_chars : CharPtr → ℕ → ℕ → Outcome (List ℕ)
read_chars p i zero = ok []
read_chars p i (suc rounds) = do c ← read p i; rest ← read_chars p (i + 1) rounds; ok (c ∷ rest)

-- the index of the first character that is not allowed, if there is one
unfoldable pub check_loop : WordType → CharPtr → ℕ → ℕ → Outcome (Option ℕ)
check_loop type p i zero = ok none
check_loop type p i (suc rounds) = do
  c ← read p i
  let rest = check_loop type p (i + 1) rounds
  if allowed type c then rest else ok (some i)

-- The result, and the events of the error messages.
unfoldable pub control_word : BytesBlock → ℕ → WordType → Outcome (Bool × List Event)
control_word word max_len type = if word.len == 0 then ok (false, []) else do
  p ← or_fault word.start
  let too_long : Outcome (Bool × List Event) = do
    text ← read_chars p 0 word.len
    ok (false, Event.word_too_long text max_len ∷ [])
  if ltb max_len word.len then too_long else do
    wrong ← check_loop type p 0 word.len
    elim wrong [
      | none ↦ ok (true, [])
      | some i ↦ do text ← read_chars p 0 word.len; ok (false, Event.word_invalid text i ∷ [])
    ]

-- What the parsing of a line leaves: its result, the blocks, the flags and the events.
pub record Parsed : Type 0 where
  pub valid : Bool
  pub blocks : ProtocolBlocks
  pub flags : MsgFlags
  pub events : List Event

abbrev with_command : ProtocolBlocks → CommandType → ProtocolBlocks
with_command blocks command = record blocks { type = command_code command }

abbrev parsed : Bool → ProtocolBlocks → MsgFlags → List Event → Parsed
parsed valid blocks flags events = record {
  valid = valid;
  blocks = blocks;
  flags = flags;
  events = events;
}

abbrev missing_argument : ProtocolBlocks → MsgFlags → Outcome Parsed
missing_argument blocks flags = ok (parsed false (with_command blocks CommandType.missing) flags [])

-- the end of a word's block
abbrev end_of : BytesBlock → Outcome CharPtr
end_of word = or_fault word.start >>= λ p. ok (advance p word.len)

-- `p` is the command, of `len` characters
unfoldable pub auth_input : ProtocolBlocks → MsgFlags → CharPtr → ℕ → ℕ → Outcome Parsed
auth_input blocks flags p len used = do
  (first, found) ← get_word 0 (advance p len) (sub_size used len)
  if not found then missing_argument blocks flags else do
    p ← end_of first
    (second, found) ← get_word 0 p (sub_size used (add_size len first.len))
    if not found then missing_argument blocks flags else do
      p ← end_of second
      (third, found) ← get_word 0 p (sub_size used (add_size (add_size len first.len) second.len))
      if not found then missing_argument blocks flags else do
        (valid, events) ← control_word first 20 WordType.username
        if not valid then ok (parsed false blocks flags events) else do
          (valid, events) ← control_word second 128 WordType.secret
          if not valid then ok (parsed false blocks flags events) else do
            (valid, events) ← control_word third 20 WordType.display_name
            if not valid
                then ok (parsed false blocks flags events)
                else ok (
                    parsed true
                      (record (with_command blocks CommandType.auth) {
                        first = first;
                        second = second;
                        third = third;
                      })
                      MsgFlags.auth [])

-- the rest of the line behind /join or /rename, as one word
unfoldable pub line_input :
    CommandType → WordType → ProtocolBlocks → MsgFlags → CharPtr → ℕ → ℕ → Outcome Parsed
line_input command type blocks flags p len used = do
  let rest = advance p len
  index ← skip_blank_chars_in_string rest (sub_size used len)
  let start = advance rest index
  end ← find_new_line_in_string start (sub_size used len)
  if end == minus_one then missing_argument blocks flags else do
    let first : BytesBlock = record { start = some start; len = end }
    (valid, events) ← control_word first 20 type
    if not valid
        then ok (parsed false blocks flags events)
        else ok (parsed true (record (with_command blocks command) { first = first }) flags [])

unfoldable pub message_input : ProtocolBlocks → MsgFlags → CharPtr → ℕ → Outcome Parsed
message_input blocks flags p used = do
  let contents : BytesBlock = record { start = some p; len = used }
  let blocks' : ProtocolBlocks = record blocks { zeroth = contents }
  (valid, events) ← control_word contents 14000 WordType.message_content
  if not valid
      then ok (parsed false blocks' flags events)
      else ok (parsed true (with_command blocks' CommandType.msg) flags [])

unfoldable pub user_input_to_cmds : Buffer → ProtocolBlocks → MsgFlags → Outcome Parsed
unfolding auth_input line_input message_input
user_input_to_cmds buffer blocks flags =
    if buffer.used == 0
    then ok (parsed false (with_command blocks CommandType.none_entered) flags [])
    else do
      p ← or_fault (start_of buffer)
      len ← find_blank_char_in_string p buffer.used
      let blocks' : ProtocolBlocks = record (with_command blocks CommandType.none_entered) {
        zeroth = record { start = some p; len = len };
        first = null_block;
        second = null_block;
        third = null_block;
      }
      is_auth ← strncmp_equal p 0 (codes "/auth") len
      if is_auth then auth_input blocks' flags p len buffer.used else do
        is_join ← strncmp_equal p 0 (codes "/join") len
        let join = line_input CommandType.join WordType.channel_id
        if is_join then join blocks' flags p len buffer.used else do
          is_rename ← strncmp_equal p 0 (codes "/rename") len
          let rename = line_input CommandType.rename WordType.display_name
          if is_rename then rename blocks' flags p len buffer.used else do
            is_help ← strncmp_equal p 0 (codes "/help") len
            let help = parsed true (with_command blocks' CommandType.help) flags []
            if is_help then ok help else do
              is_exit ← strncmp_equal p 0 (codes "/exit") len
              let exit = parsed true (with_command blocks' CommandType.exit) flags []
              if is_exit then ok exit else message_input blocks' flags p buffer.used
