-- ===== src/Queue/Types.antt =====
-- The enums of src/libs/msgQueue.h, and the reading of a message type.
use ipk_project.Prelude.{ℕ, Bool, ◌==◌, if◌then◌else◌}

-- enum MessageFlags
pub data MsgFlags : Type 0 where
  no_flag do_not_resend nok_reply auth rejected confirmed err_flag confirm bye : MsgFlags

abbrev pub flags_code : MsgFlags → ℕ
flags_code MsgFlags.no_flag = 0
flags_code MsgFlags.do_not_resend = 1
flags_code MsgFlags.nok_reply = 2
flags_code MsgFlags.auth = 3
flags_code MsgFlags.rejected = 4
flags_code MsgFlags.confirmed = 5
flags_code MsgFlags.err_flag = 6
flags_code MsgFlags.confirm = 7
flags_code MsgFlags.bye = 8

abbrev pub flags_eq : MsgFlags → MsgFlags → Bool
flags_eq a b = flags_code a == flags_code b

-- enum MessageType
pub data MsgType : Type 0 where
  conf reply auth join msg err bye unknown corrupted : MsgType

abbrev pub type_code : MsgType → ℕ
type_code MsgType.conf = 0x00
type_code MsgType.reply = 0x01
type_code MsgType.auth = 0x02
type_code MsgType.join = 0x03
type_code MsgType.msg = 0x04
type_code MsgType.err = 0xFE
type_code MsgType.bye = 0xFF
type_code MsgType.unknown = 0xAA
type_code MsgType.corrupted = 0xAB

abbrev pub type_eq : MsgType → MsgType → Bool
type_eq a b = type_code a == type_code b

unfoldable pub uchar2msg_type : ℕ → MsgType
uchar2msg_type input =
    if input == 0x00
    then MsgType.conf
    else if input == 0x01
    then MsgType.reply
    else if input == 0x02
    then MsgType.auth
    else if input == 0x03
    then MsgType.join
    else if input == 0x04
    then MsgType.msg
    else if input == 0xFE
    then MsgType.err
    else if input == 0xFF
    then MsgType.bye
    else MsgType.unknown
