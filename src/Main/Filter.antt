-- ===== src/Main/Filter.antt =====
-- filterCommandsByFSM() of src/main.c: which commands the state of the program lets through.
use ipk_project.Prelude.{◌≡◌, ◌⊎◌, Bool, true, false, arith}
use ipk_project.Outcome.{ok}
use ipk_project.Utils.{uchar2_command_type}
use ipk_project.Utils.Types.{Fsm, CommandType}
use ipk_project.Queue.Types.{MsgFlags}
use ipk_project.Program.{ProgramInterface}
use ipk_project.Protocol.Blocks.{ProtocolBlocks}
use ipk_project.Main.{filter_commands_by_fsm, Filtered}

-- What the filter promises of a command, by its type: whether the message is sent, the state
-- before and the state after.
abbrev pub Allowed : CommandType → Bool → Fsm → Fsm → Type 0
Allowed CommandType.auth sent s t =
    ((sent ≡ true) × (s ≡ Fsm.start) × (t ≡ Fsm.auth_w82_be_sended)) ⊎ ((sent ≡ false) × (t ≡ s))
Allowed CommandType.join sent s t =
    (t ≡ s) × (((sent ≡ true) × (s ≡ Fsm.open_state)) ⊎ (sent ≡ false))
Allowed CommandType.msg sent s t =
    (t ≡ s) × (((sent ≡ true) × (s ≡ Fsm.open_state)) ⊎ (sent ≡ false))
Allowed CommandType.exit sent s t = (t ≡ s) × (sent ≡ true)
Allowed _ sent s t = (t ≡ s) × (sent ≡ false)

-- Where the filter returns, whether the command is sent, and the state after it, are as `Allowed`
-- says for the command and the state before: a MSG and a /join are sent only in OPEN, an /auth only
-- in START, which moves to AUTH_W82_BE_SENDED; all else keeps the state.
pub filter_commands_by_fsm-Allowed :
    (blocks : ProtocolBlocks) (prog : ProgramInterface) (flags : MsgFlags) (f : Filtered)
    → filter_commands_by_fsm blocks prog flags ≡ ok f
    → Allowed (uchar2_command_type blocks.type) f.can_be_sended prog.fsm_state f.program.fsm_state
unfolding filter_commands_by_fsm
filter_commands_by_fsm-Allowed blocks prog flags f h = ground arith
