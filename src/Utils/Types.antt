-- ===== src/Utils/Types.antt =====
-- The enums of src/libs/utils.h.
use ipk_project.Prelude.{ℕ, Bool, ◌==◌, if◌then◌else◌}

-- enum FSM
pub data Fsm : Type 0 where
  start auth_w82_be_sended auth_sended w84_reply w84_reply_conf open_state join_atempt : Fsm
  empty_q_bye err_state err_w84_conf sigint_bye end_w84_conf end_state : Fsm

-- the number of a state, by which the code compares states
abbrev pub fsm_code : Fsm → ℕ
fsm_code Fsm.start = 0
fsm_code Fsm.auth_w82_be_sended = 1
fsm_code Fsm.auth_sended = 2
fsm_code Fsm.w84_reply = 3
fsm_code Fsm.w84_reply_conf = 4
fsm_code Fsm.open_state = 5
fsm_code Fsm.join_atempt = 6
fsm_code Fsm.empty_q_bye = 7
fsm_code Fsm.err_state = 8
fsm_code Fsm.err_w84_conf = 9
fsm_code Fsm.sigint_bye = 10
fsm_code Fsm.end_w84_conf = 11
fsm_code Fsm.end_state = 12

-- `state == other`
abbrev pub fsm_eq : Fsm → Fsm → Bool
fsm_eq a b = fsm_code a == fsm_code b

-- enum CommandType
pub data CommandType : Type 0 where
  auth join rename help conf msg err exit missing none_entered conversion_err : CommandType

abbrev pub command_code : CommandType → ℕ
command_code CommandType.auth = 0
command_code CommandType.join = 1
command_code CommandType.rename = 2
command_code CommandType.help = 3
command_code CommandType.conf = 4
command_code CommandType.msg = 5
command_code CommandType.err = 6
command_code CommandType.exit = 7
command_code CommandType.missing = 8
command_code CommandType.none_entered = 9
command_code CommandType.conversion_err = 10

-- the conversion `(enum CommandType) n`, for the numbers of the enum
unfoldable pub command_of : ℕ → CommandType
command_of n =
    if n == 0
    then CommandType.auth
    else if n == 1
    then CommandType.join
    else if n == 2
    then CommandType.rename
    else if n == 3
    then CommandType.help
    else if n == 4
    then CommandType.conf
    else if n == 5
    then CommandType.msg
    else if n == 6
    then CommandType.err
    else if n == 7
    then CommandType.exit
    else if n == 8
    then CommandType.missing
    else if n == 9
    then CommandType.none_entered
    else CommandType.conversion_err
