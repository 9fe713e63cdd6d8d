-- ===== src/Receiver/Step.antt =====
-- receiverFSM() of src/protocolReceiver.c as a whole: the moves of the state machine.
use ipk_project.Prelude.{ℕ, ◌≡◌, ap, subst, ◌∙◌, ◌⊎◌, inl, Bool, true, false, arith}
use ipk_project.Outcome.{ok, >>=-Between}
use ipk_project.Utils.Types.{Fsm}
use ipk_project.Queue.{MessageQueue, queue_unlock, queue_lock}
use ipk_project.Queue.Types.{MsgFlags, MsgType, uchar2msg_type}
use ipk_project.Program.{ProgramInterface, is_udp, is_tcp, Protocol}
use ipk_project.Protocol.Blocks.{ProtocolBlocks}
use ipk_project.Receiver.Handlers.{receiver_fsm, receive_by_type, filter_repetitive, on_reply}
use ipk_project.Receiver.Handlers.Moves.{
  Answered, AnsweredTcp, confirmed_state, handle_confirm_udp-state, locked_confirm-state,
  on_bye-state, on_err-state, on_unknown-state, handle_reply_udp-state, handle_reply_tcp-state,
  on_msg-state,
}

-- The moves of the receiver in the UDP variant, by the type of the message and, for a reply, its
-- result.
abbrev pub UdpMove : MsgType → ProtocolBlocks → Fsm → Fsm → Type 0
UdpMove MsgType.conf bs s t = (t ≡ confirmed_state s) ⊎ (t ≡ s)
UdpMove MsgType.reply bs s t = Answered bs s t
UdpMove MsgType.msg bs s t = t ≡ s
UdpMove MsgType.bye bs s t = t ≡ Fsm.end_state
UdpMove _ bs s t = t ≡ Fsm.err_state

udp_of : (prog : ProgramInterface) → prog.protocol ≡ Protocol.udp → is_udp prog ≡ true
udp_of prog u = ap (λ x. elim x [ Protocol.udp ↦ true | _ ↦ false ]) u

pub filter-state :
    (prog : ProgramInterface) (bs : ProtocolBlocks) (r : ProgramInterface × Bool)
    → filter_repetitive prog bs ≡ ok r
    → (r.0.fsm_state ≡ prog.fsm_state)
      × (r.0.sending_queue.lock ≡ false)
      × (r.0.protocol ≡ prog.protocol)
unfolding filter_repetitive queue_unlock queue_lock
filter-state prog bs r h = ground arith

on_reply-udp :
    (prog : ProgramInterface) (id : ℕ) (bs : ProtocolBlocks) (again : Bool) (p : ProgramInterface)
    → is_udp prog ≡ true
    → prog.sending_queue.lock ≡ false
    → on_reply prog id bs again ≡ ok p
    → Answered bs prog.fsm_state p.fsm_state × (p.sending_queue.lock ≡ false)
unfolding on_reply
on_reply-udp prog id bs true p u l h =
    let s = locked_confirm-state prog MsgFlags.confirm p (rw u at h) in (inl s.0, s.1)
on_reply-udp prog id bs false p u l h =
    let s = handle_reply_udp-state prog id bs p (rw u at h) in (s.0, s.1 l)

by_type-udp :
    (type : MsgType) (prog : ProgramInterface) (id : ℕ) (bs : ProtocolBlocks) (again : Bool)
    (p : ProgramInterface)
    → prog.protocol ≡ Protocol.udp
    → prog.sending_queue.lock ≡ false
    → receive_by_type type prog id bs again ≡ ok p
    → UdpMove type bs prog.fsm_state p.fsm_state × (p.sending_queue.lock ≡ false)
unfolding receive_by_type
by_type-udp MsgType.conf prog id bs again p u l h = grind (arith, handle_confirm_udp-state)
by_type-udp MsgType.reply prog id bs again p u l h =
    on_reply-udp prog id bs again p (udp_of prog u) l h
by_type-udp MsgType.msg prog id bs again p u l h = on_msg-state prog bs again p l h
by_type-udp MsgType.bye prog id bs again p u l h = on_bye-state prog p l h
by_type-udp MsgType.err prog id bs again p u l h = on_err-state prog bs p h
by_type-udp MsgType.auth prog id bs again p u l h = on_unknown-state prog p h
by_type-udp MsgType.join prog id bs again p u l h = on_unknown-state prog p h
by_type-udp MsgType.unknown prog id bs again p u l h = on_unknown-state prog p h
by_type-udp MsgType.corrupted prog id bs again p u l h = on_unknown-state prog p h

-- In the UDP variant a handled message moves the state as `UdpMove` says for its type: a reply only
-- from W84_REPLY or JOIN_ATEMPT, to W84_REPLY_CONF only with the result 1, and to START, or from
-- JOIN_ATEMPT to OPEN, only with another result. The lock of the sending queue is free at the end.
pub receiver_fsm-UdpMove :
    (prog : ProgramInterface) (id : ℕ) (bs : ProtocolBlocks) (p : ProgramInterface)
    → prog.protocol ≡ Protocol.udp
    → receiver_fsm prog id bs ≡ ok p
    → UdpMove (uchar2msg_type bs.type) bs prog.fsm_state p.fsm_state
      × (p.sending_queue.lock ≡ false)
unfolding receiver_fsm
receiver_fsm-UdpMove prog id bs p u h =
    let udp = udp_of prog u in
    let (r, e, k) = >>=-Between (filter_repetitive prog bs) _ (rw udp at h) in
    let s = filter-state prog bs r e in
    subst (λ t. UdpMove (uchar2msg_type bs.type) bs t p.fsm_state × (p.sending_queue.lock ≡ false))
      s.0 (by_type-udp (uchar2msg_type bs.type) r.0 id bs r.1 p (s.2 ∙ u) s.1 k)

-- The moves of the receiver in the TCP variant, by the type of the message and the result of a
-- reply; a confirmation is an error there.
abbrev pub TcpMove : MsgType → Bool → Fsm → Fsm → Type 0
TcpMove MsgType.conf result s t = ⊥
TcpMove MsgType.reply result s t = AnsweredTcp result s t
TcpMove MsgType.msg result s t = t ≡ s
TcpMove MsgType.bye result s t = t ≡ Fsm.end_state
TcpMove _ result s t = t ≡ Fsm.err_state

on_reply-tcp :
    (prog : ProgramInterface) (id : ℕ) (bs : ProtocolBlocks) (p : ProgramInterface)
    → prog.protocol ≡ Protocol.tcp
    → prog.sending_queue.lock ≡ false
    → on_reply prog id bs false ≡ ok p
    → TcpMove MsgType.reply bs.reply_result_bool prog.fsm_state p.fsm_state
      × (p.sending_queue.lock ≡ false)
unfolding on_reply
on_reply-tcp prog id bs p u l h =
    let not_udp : is_udp prog ≡ false = ap (λ x. elim x [ Protocol.udp ↦ true | _ ↦ false ]) u in
    let tcp : is_tcp prog ≡ true = ap (λ x. elim x [ Protocol.tcp ↦ true | _ ↦ false ]) u in
    let s = handle_reply_tcp-state prog bs p (rw (not_udp, tcp) at h) in
    (s.0, ap (λ (q : MessageQueue). q.lock) s.1 ∙ l)

by_type-tcp :
    (type : MsgType) (prog : ProgramInterface) (id : ℕ) (bs : ProtocolBlocks) (p : ProgramInterface)
    → prog.protocol ≡ Protocol.tcp
    → prog.sending_queue.lock ≡ false
    → receive_by_type type prog id bs false ≡ ok p
    → TcpMove type bs.reply_result_bool prog.fsm_state p.fsm_state × (p.sending_queue.lock ≡ false)
unfolding receive_by_type
by_type-tcp MsgType.conf prog id bs p u l h = ground arith
by_type-tcp MsgType.reply prog id bs p u l h = on_reply-tcp prog id bs p u l h
by_type-tcp MsgType.msg prog id bs p u l h = on_msg-state prog bs false p l h
by_type-tcp MsgType.bye prog id bs p u l h = on_bye-state prog p l h
by_type-tcp MsgType.err prog id bs p u l h = on_err-state prog bs p h
by_type-tcp MsgType.auth prog id bs p u l h = on_unknown-state prog p h
by_type-tcp MsgType.join prog id bs p u l h = on_unknown-state prog p h
by_type-tcp MsgType.unknown prog id bs p u l h = on_unknown-state prog p h
by_type-tcp MsgType.corrupted prog id bs p u l h = on_unknown-state prog p h

-- In the TCP variant, with the lock of the sending queue free, a handled message moves the state
-- as `TcpMove` says for its type: a reply only from AUTH_SENDED, to OPEN if its result is OK and to
-- START if not, or from JOIN_ATEMPT, to OPEN. The lock is free at the end.
pub receiver_fsm-TcpMove :
    (prog : ProgramInterface) (id : ℕ) (bs : ProtocolBlocks) (p : ProgramInterface)
    → prog.protocol ≡ Protocol.tcp
    → prog.sending_queue.lock ≡ false
    → receiver_fsm prog id bs ≡ ok p
    → TcpMove (uchar2msg_type bs.type) bs.reply_result_bool prog.fsm_state p.fsm_state
      × (p.sending_queue.lock ≡ false)
unfolding receiver_fsm
receiver_fsm-TcpMove prog id bs p u l h =
    let tcp : is_udp prog ≡ false = ap (λ x. elim x [ Protocol.udp ↦ true | _ ↦ false ]) u in
    by_type-tcp (uchar2msg_type bs.type) prog id bs p u l (rw tcp at h)
