-- ===== src/Sender/Laws.antt =====
-- The state machine of the sender, logicFSM() of src/protocolSender.c, and its filter for messages
-- that are sent again.
use ipk_project.Prelude.{
  ℕ, zero, suc, ◌+◌, ◌≡◌, ◌≢◌, ◌<◌, ◌≤◌, refl, subst, Bool-cases, ◌⊎◌, inl, inr, Bool, true, false,
  arith, List, [], ◌∷◌, All, ◌^◌, none, some, leb, ltb, ◌==◌, ◌||◌, length,
}
use ipk_project.Outcome.{ok, blocked, >>=-Between}
use ipk_project.Memory.{or_fault}
use ipk_project.Utils.Types.{Fsm, fsm_code}
use ipk_project.Queue.{
  Message, queue_get_message, queue_get_message_flags, queue_get_message_msg_type, queue_lock,
  queue_unlock, queue_pop_message,
}
use ipk_project.Queue.Types.{MsgFlags, flags_eq, MsgType}
use ipk_project.Program.{ProgramInterface}
use ipk_project.Receiver.Frame.{send_bye-state, send_error-state}
use ipk_project.Sender.{
  logic_fsm, later_logic, auth_state, gate, Gate, Waited, filter_resent_messages, filter_loop,
  timed_out, pop,
}
use ipk_project.Sender.Limit.{OverLimit}

-- The state changes of logicFSM() without a wait, for a first message of this type and flags.
abbrev pub Moves : Fsm → MsgType → MsgFlags → Fsm → Type 0
Moves s type flags t =
    (t ≡ s)
    ⊎ ((flags ≡ MsgFlags.auth) × (fsm_code s ≤ 1) × (t ≡ Fsm.auth_sended))
    ⊎ ((s ≡ Fsm.w84_reply_conf) × (type ≡ MsgType.conf) × (t ≡ Fsm.open_state))
    ⊎ ((s ≡ Fsm.open_state) × (type ≡ MsgType.join) × (t ≡ Fsm.join_atempt))
    ⊎ (((s ≡ Fsm.err_state) ⊎ (s ≡ Fsm.err_w84_conf))
        × (((flags ≡ MsgFlags.bye) × ((t ≡ Fsm.end_w84_conf) ⊎ (t ≡ Fsm.end_state)))
            ⊎ ((flags ≡ MsgFlags.err_flag) × (t ≡ Fsm.err_w84_conf))))

auth_state-Moves :
    (prog : ProgramInterface) (type : MsgType) (flags : MsgFlags)
    → Moves prog.fsm_state type flags (auth_state prog flags).fsm_state
unfolding auth_state
auth_state-Moves prog type flags = ground arith

later_logic-Moves :
    (prog : ProgramInterface) (type : MsgType) (flags : MsgFlags) (p : ProgramInterface)
    → later_logic prog type flags ≡ ok p
    → Moves prog.fsm_state type flags p.fsm_state
unfolding later_logic
later_logic-Moves prog type flags p h = ground arith

passed :
    (prog : ProgramInterface) (type : MsgType) (flags : MsgFlags) (m : Message) (w : Waited)
    → elim (gate type flags m) [ Gate.pass ↦ ok (auth_state prog flags, []) | _ ↦ blocked ] ≡ ok w
    → (auth_state prog flags).fsm_state ≡ w.0.fsm_state
passed prog type flags m w h = ground arith

-- Where logicFSM() returns without a wait, the state is as before or has moved as `Moves` says for
-- the type and the flags of the first message: to OPEN only from W84_REPLY_CONF with a CONFIRM.
pub logic_fsm-Moves :
    (prog : ProgramInterface) (flags : MsgFlags) (w : Waited)
    → queue_get_message_flags prog.sending_queue ≡ ok flags
    → logic_fsm prog [] ≡ ok w
    → Moves prog.fsm_state (queue_get_message_msg_type prog.sending_queue) flags w.0.fsm_state
unfolding logic_fsm
logic_fsm-Moves prog flags w e h =
    let type = queue_get_message_msg_type prog.sending_queue in
    let (flags', e', k) = >>=-Between (queue_get_message_flags prog.sending_queue) _ h in
    let same : flags' ≡ flags = cc in
    subst (λ f. Moves prog.fsm_state type f w.0.fsm_state) same
      (elim (Bool-cases (leb 4 (fsm_code prog.fsm_state))) [
        | inl late ↦
            let (p, k1, k2) = >>=-Between (later_logic prog type flags') _ (rw late at k) in
            let s : p.fsm_state ≡ w.0.fsm_state = ground arith in
            subst (λ t. Moves prog.fsm_state type flags' t) s
              (later_logic-Moves prog type flags' p k1)
        | inr early ↦
            let (m, k1, k2) =
              >>=-Between (or_fault (queue_get_message prog.sending_queue)) _ (rw early at k) in
            subst (λ t. Moves prog.fsm_state type flags' t) (passed prog type flags' m w k2)
              (auth_state-Moves prog type flags')
      ])

-- the timeout
pub timed_out-state :
    (prog p : ProgramInterface)
    → timed_out prog ≡ ok p
    → (p.fsm_state ≡ Fsm.err_state) × (p.sending_queue.lock ≡ true)
unfolding timed_out queue_lock queue_unlock
timed_out-state prog p h = grind (arith, send_bye-state, send_error-state)

-- What filterResentMessages() leaves where it does not time out: the head of the queue may be sent.
abbrev pub MayBeSent : ProgramInterface → Type 0
MayBeSent prog =
    (m : Message)
    → queue_get_message prog.sending_queue ≡ some m
    → (m.send_count ≤ prog.udp_max_retries)
      × (m.msg_flags ≢ MsgFlags.rejected)
      × ((m.msg_flags ≡ MsgFlags.auth) ⊎ (m.confirmed ≡ 0))

-- The filter of `prog` ends in `r` with a first message that may be sent, or with the timeout for a
-- message over the limit; the lock is held.
abbrev pub Ready : ProgramInterface → ProgramInterface → Type 0
Ready prog r =
    (MayBeSent r ⊎ ((p : ProgramInterface) × OverLimit prog p × (timed_out p ≡ ok r)))
    × (r.sending_queue.lock ≡ true)

-- the counters are bytes
abbrev pub CountersAreBytes : List Message → Type 0
CountersAreBytes ms = All (λ (m : Message). m.send_count < 2 ^ 8) ms

head_nil :
    (prog : ProgramInterface)
    → prog.sending_queue.messages ≡ []
    → queue_get_message prog.sending_queue ≡ none
unfolding queue_get_message
head_nil prog e = ground arith

head_cons :
    (prog : ProgramInterface) (m : Message) (ms : List Message)
    → prog.sending_queue.messages ≡ m ∷ ms
    → (queue_get_message prog.sending_queue ≡ some m) × ((pop prog).sending_queue.messages ≡ ms)
unfolding queue_get_message queue_pop_message
head_cons prog m ms e = ground arith

filter_loop-255 :
    (rounds : ℕ) (prog : ProgramInterface) (reset : Bool) (ms : List Message)
    → prog.sending_queue.messages ≡ ms
    → CountersAreBytes ms
    → prog.udp_max_retries ≡ 255
    → length ms < rounds
    → (p : ProgramInterface) × (filter_loop rounds prog reset ≡ ok (p, reset))
      × (p.fsm_state ≡ prog.fsm_state)
unfolding filter_loop
filter_loop-255 zero prog reset ms e b n less = absurd (omega arith)
filter_loop-255 (suc rounds) prog reset [] e b n less =
    let none_left = head_nil prog e in (prog, rw (none_left, filter_loop) refl, refl)
filter_loop-255 (suc rounds) prog reset (m ∷ ms) e b n less =
    let head = head_cons prog m ms e in
    let few : ltb prog.udp_max_retries m.send_count ≡ false = ground arith in
    let (p, rest, same) = filter_loop-255 rounds (pop prog) reset ms (head.1) b.1 n (omega arith) in
    elim (Bool-cases (flags_eq m.msg_flags MsgFlags.rejected)) [
      | inl gone ↦ (p, rw (head.0, filter_loop, few, gone) rest, same)
      | inr kept ↦ elim (Bool-cases (flags_eq m.msg_flags MsgFlags.auth || m.confirmed == 0)) [
        | inl first ↦ (prog, rw (head.0, filter_loop, few, kept, first) refl, refl)
        | inr confirmed ↦ (p, rw (head.0, filter_loop, few, kept, confirmed) rest, same)
      ]
    ]

-- With 255 retransmissions allowed the filter never times out: the counter is a byte, so none is
-- greater than 255. The state stays, and no reset is asked for.
pub filter_resent_messages-255 :
    (prog : ProgramInterface)
    → CountersAreBytes prog.sending_queue.messages
    → prog.udp_max_retries ≡ 255
    → (p : ProgramInterface) × (filter_resent_messages prog ≡ ok (p, false))
      × (p.fsm_state ≡ prog.fsm_state)
unfolding filter_resent_messages
filter_resent_messages-255 prog b n =
    filter_loop-255 (length prog.sending_queue.messages + 1) prog false prog.sending_queue.messages
      refl b n (omega arith)
