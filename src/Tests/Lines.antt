-- ===== src/Tests/Lines.antt =====
-- Examples for lines of the user with arguments.
use ipk_project.Prelude.{
  ◌≡◌, refl, ◌+◌, replicate, none, false, List, [], ◌∷◌, ◌++◌, map, some, arith, ℕ,
}
use ipk_project.Outcome.{ok}
use ipk_project.Memory.{read, read_cell}
use ipk_project.Utils.{is_ending_character, is_line_end}
use ipk_project.Queue.Types.{MsgFlags}
use ipk_project.Protocol.Blocks.{codes, zero_blocks}
use ipk_project.Protocol.Input.{
  Parsed, WordType, allowed, allowed_chars_in_credentials, allowed_chars_in_name,
  user_input_to_cmds,
}
use ipk_project.Protocol.Input.Arguments.{IsAuth, IsWord}
use ipk_project.Protocol.Input.Lines.{IsSingle, Single, user_input_to_cmds-IsSingle}
use ipk_project.Buffer.{Buffer}
use ipk_project.Main.Typed.{type_line, type_line-IsAuth}

-- a line and the zero byte behind it, which is not counted
abbrev line_buffer : List ℕ → ℕ → Buffer
line_buffer line used = record {
  bytes = some (map some (line ++ 0 ∷ []));
  allocated = used + 1;
  used = used;
}

ab-IsWord : IsWord WordType.username 20 (codes "ab")
unfolding allowed allowed_chars_in_credentials
ab-IsWord = record { present = omega arith; within = omega arith; fine = (refl, (refl, tt)) }

pw-IsWord : IsWord WordType.secret 128 (codes "pw")
unfolding allowed allowed_chars_in_credentials
pw-IsWord = record { present = omega arith; within = omega arith; fine = (refl, (refl, tt)) }

me-IsWord : IsWord WordType.display_name 20 (codes "M!")
unfolding allowed allowed_chars_in_name
me-IsWord = record { present = omega arith; within = omega arith; fine = (refl, (refl, tt)) }

-- a fresh block for the input
abbrev input_buffer : Buffer
input_buffer = record { bytes = some (replicate 20 none); allocated = 20; used = 0 }

type_line-IsAuth_example :
    (f : Parsed) × (type_line input_buffer false zero_blocks MsgFlags.no_flag
        (codes "/auth ab  pw M!" ++ 10 ∷ codes "hi")
      ≡ ok (f, false, codes "hi"))
    × IsAuth (codes "ab") (codes "pw") (codes "M!") f
unfolding is_ending_character
type_line-IsAuth_example =
    type_line-IsAuth input_buffer (replicate 20 none) false zero_blocks MsgFlags.no_flag (codes " ")
      (codes "ab") (codes "  ") (codes "pw") (codes " ") (codes "M!") (codes "hi") 10 refl refl
      (omega arith) (omega arith) (refl, tt) (refl, (refl, tt)) (refl, tt) (omega arith)
      (omega arith) (omega arith) ab-IsWord pw-IsWord me-IsWord refl

user_input_to_cmds-IsSingle_example :
    (f : Parsed) × (user_input_to_cmds
        (line_buffer (codes "/rename  M!") 11)
        zero_blocks
        MsgFlags.no_flag
      ≡ ok f)
    × IsSingle Single.rename MsgFlags.no_flag (codes "M!") f
unfolding read read_cell is_line_end
user_input_to_cmds-IsSingle_example =
    user_input_to_cmds-IsSingle Single.rename (line_buffer (codes "/rename  M!") 11)
      (map some (codes "/rename  M!" ++ 0 ∷ [])) zero_blocks MsgFlags.no_flag (codes "  ")
      (codes "M!") 0 refl
      (
        refl,
        (refl, (refl, (refl, (refl, (refl, (refl, (refl, (refl, (refl, (refl, (refl, tt))))))))))),
      )
      (refl, (refl, tt)) (omega arith) me-IsWord refl refl (omega arith)
