-- ===== src/Protocol/Input/Quiet.antt =====
-- The complaints about the user's input are no successes.
use ipk_project.Prelude.{ℕ, ◌≡◌, refl, Bool, false, List, [], arith, some}
use ipk_project.Outcome.{ok, Ensures, Ensures-then, Ensures-if, Ensures-intro, returns}
use ipk_project.Memory.{CharPtr, or_fault}
use ipk_project.Utils.{BytesBlock, find_blank_char_in_string}
use ipk_project.Utils.Types.{CommandType}
use ipk_project.Buffer.{Buffer}
use ipk_project.Queue.Types.{MsgFlags}
use ipk_project.Program.{Event}
use ipk_project.Program.Accepted.{success_printed}
use ipk_project.Protocol.Blocks.{ProtocolBlocks, null_block, start_of, codes, strncmp_equal}
use ipk_project.Protocol.Input.{
  Parsed, parsed, with_command, WordType, control_word, auth_input, line_input, message_input,
  user_input_to_cmds,
}

control_word-quiet :
    (w : BytesBlock) (max : ℕ) (type : WordType) (r : Bool × List Event)
    → control_word w max type ≡ ok r
    → success_printed r.1 ≡ false
unfolding control_word
control_word-quiet w max type r h = ground arith

message_input-quiet :
    (bs : ProtocolBlocks) (flags : MsgFlags) (p : CharPtr) (used : ℕ) (f : Parsed)
    → message_input bs flags p used ≡ ok f
    → success_printed f.events ≡ false
unfolding message_input
message_input-quiet bs flags p used f h = grind (arith, control_word-quiet)

line_input-quiet :
    (command : CommandType) (type : WordType) (bs : ProtocolBlocks) (flags : MsgFlags) (p : CharPtr)
    (len used : ℕ) (f : Parsed)
    → line_input command type bs flags p len used ≡ ok f
    → success_printed f.events ≡ false
unfolding line_input
line_input-quiet command type bs flags p len used f h = grind (arith, control_word-quiet)

auth_input-quiet :
    (bs : ProtocolBlocks) (flags : MsgFlags) (p : CharPtr) (len used : ℕ) (f : Parsed)
    → auth_input bs flags p len used ≡ ok f
    → success_printed f.events ≡ false
unfolding auth_input
auth_input-quiet bs flags p len used f h = grind (arith, control_word-quiet)

abbrev pub Quiet : Parsed → Type 0
Quiet f = success_printed f.events ≡ false

auth_input-Ensures :
    (bs : ProtocolBlocks) (flags : MsgFlags) (p : CharPtr) (len used : ℕ)
    → Ensures Quiet (auth_input bs flags p len used)
auth_input-Ensures bs flags p len used =
    Ensures-intro (auth_input bs flags p len used) λ f h. auth_input-quiet bs flags p len used f h

line_input-Ensures :
    (command : CommandType) (type : WordType) (bs : ProtocolBlocks) (flags : MsgFlags) (p : CharPtr)
    (len used : ℕ)
    → Ensures Quiet (line_input command type bs flags p len used)
line_input-Ensures command type bs flags p len used =
    Ensures-intro (line_input command type bs flags p len used)
      λ f h. line_input-quiet command type bs flags p len used f h

message_input-Ensures :
    (bs : ProtocolBlocks) (flags : MsgFlags) (p : CharPtr) (used : ℕ)
    → Ensures Quiet (message_input bs flags p used)
message_input-Ensures bs flags p used =
    Ensures-intro (message_input bs flags p used) λ f h. message_input-quiet bs flags p used f h

Quiet-ok :
    {v : Bool} {bs : ProtocolBlocks} {flags : MsgFlags} → Ensures Quiet (ok (parsed v bs flags []))
Quiet-ok = returns refl

-- the blocks at the command of a line
abbrev pub headed : ProtocolBlocks → CharPtr → ℕ → ProtocolBlocks
headed bs p len = record (with_command bs CommandType.none_entered) {
  zeroth = record { start = some p; len = len };
  first = null_block;
  second = null_block;
  third = null_block;
}

-- What parsing a line leaves to print is no success.
pub user_input_to_cmds-Quiet :
    (b : Buffer) (bs : ProtocolBlocks) (flags : MsgFlags)
    → Ensures Quiet (user_input_to_cmds b bs flags)
unfolding user_input_to_cmds
user_input_to_cmds-Quiet b bs flags = Ensures-if _ _ _ Quiet-ok (
    Ensures-then (or_fault (start_of b)) _ λ p.
      Ensures-then (find_blank_char_in_string p b.used) _ λ len.
        Ensures-then (strncmp_equal p 0 (codes "/auth") len) _ λ is_auth.
          Ensures-if is_auth _ _ (auth_input-Ensures (headed bs p len) flags p len b.used) (
            Ensures-then (strncmp_equal p 0 (codes "/join") len) _ λ is_join.
              Ensures-if is_join _ _
                (line_input-Ensures CommandType.join WordType.channel_id (headed bs p len) flags p
                  len b.used)
                (Ensures-then (strncmp_equal p 0 (codes "/rename") len) _ λ is_rename.
                  Ensures-if is_rename _ _
                    (line_input-Ensures CommandType.rename WordType.display_name (headed bs p len)
                      flags p len b.used)
                    (Ensures-then (strncmp_equal p 0 (codes "/help") len) _ λ is_help.
                      Ensures-if is_help _ _ Quiet-ok (
                        Ensures-then (strncmp_equal p 0 (codes "/exit") len) _ λ is_exit.
                          Ensures-if is_exit _ _ Quiet-ok
                            (message_input-Ensures (headed bs p len) flags p b.used))))))
