-- ===== src/Tests/Sending.antt =====
-- Examples for protocolSender.c.
use ipk_project.Prelude.{◌≡◌, refl, arith, [], ◌∷◌, Bool, true, false}
use ipk_project.Outcome.{ok}
use ipk_project.Utils.Types.{Fsm}
use ipk_project.Queue.{queue_get_message, queue_get_message_flags, queue_get_message_msg_type}
use ipk_project.Queue.Types.{MsgFlags, MsgType, uchar2msg_type}
use ipk_project.Program.{ProgramInterface}
use ipk_project.Sender.{logic_fsm, later_logic, Waited, filter_resent_messages, filter_loop}
use ipk_project.Sender.Filtering.{Ends, filter_resent_messages-rounds}
use ipk_project.Sender.Laws.{Moves, logic_fsm-Moves, filter_resent_messages-255}
use ipk_project.Tests.Data.{value, udp_program, message_of, queue_of}

-- a CONFIRM of the reply waits to be sent
abbrev replied : ProgramInterface
replied = record udp_program {
  fsm_state = Fsm.w84_reply_conf;
  sending_queue = queue_of (message_of (0 ∷ 7 ∷ 1 ∷ []) MsgFlags.confirm 0 ∷ []);
}

unfoldable after_reply : Waited
after_reply = value (replied, []) (logic_fsm replied [])

logic_fsm-Moves_example :
    Moves Fsm.w84_reply_conf MsgType.conf MsgFlags.confirm after_reply.0.fsm_state
unfolding after_reply logic_fsm later_logic queue_get_message_flags queue_get_message_msg_type
    queue_get_message uchar2msg_type
logic_fsm-Moves_example = logic_fsm-Moves replied MsgFlags.confirm after_reply refl refl

-- a confirmed message before one that is to be sent
abbrev confirmed_first : ProgramInterface
confirmed_first = record udp_program {
  udp_max_retries = 255;
  sending_queue = record {
    messages =
        record (message_of (4 ∷ 0 ∷ 0 ∷ []) MsgFlags.no_flag 4) { confirmed = 1; send_count = 1 }
        ∷ message_of (4 ∷ 1 ∷ 0 ∷ []) MsgFlags.no_flag 4
        ∷ [];
    lock = true;
  };
}

unfoldable filtered : ProgramInterface × Bool
filtered = value (confirmed_first, false) (filter_resent_messages confirmed_first)

filter_resent_messages-255_example :
    (p : ProgramInterface) × (filter_resent_messages confirmed_first ≡ ok (p, false))
    × (p.fsm_state ≡ Fsm.open_state)
filter_resent_messages-255_example =
    filter_resent_messages-255 confirmed_first (omega arith, (omega arith, tt)) refl

filter_resent_messages-rounds_example :
    (filter_loop 5 confirmed_first false ≡ filter_resent_messages confirmed_first)
    × Ends confirmed_first (filter_resent_messages confirmed_first)
filter_resent_messages-rounds_example =
    filter_resent_messages-rounds 5 confirmed_first (omega arith)
