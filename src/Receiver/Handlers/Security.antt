-- ===== src/Receiver/Handlers/Security.antt =====
-- receiverFSM() of src/protocolReceiver.c: a client becomes connected only by a positive reply.
use ipk_project.Prelude.{
  ℕ, ◌≡◌, refl, inl, inr, ◌⊎◌, Bool, true, false, arith, if◌then◌else◌, Bool-cases,
}
use ipk_project.Outcome.{ok, >>=-Between}
use ipk_project.Queue.{queue_lock}
use ipk_project.Queue.Types.{MsgFlags, MsgType, uchar2msg_type}
use ipk_project.Program.{ProgramInterface, is_udp, is_tcp, Protocol}
use ipk_project.Program.Accepted.{connected, Unconnected}
use ipk_project.Protocol.Blocks.{ProtocolBlocks}
use ipk_project.Receiver.Handlers.{
  receiver_fsm, receive_by_type, filter_repetitive, on_reply, on_msg, handle_confirm_udp,
  locked_confirm, print_incoming_message, wake_sender, on_bye,
}
use ipk_project.Receiver.Handlers.Moves.{
  locked_confirm-state, on_err-state, on_unknown-state, print-state, Awaits, Positive, Refused,
  Answered, AnsweredTcp, handle_reply_udp-state, handle_reply_tcp-state,
}
use ipk_project.Receiver.Step.{filter-state}
use ipk_project.Utils.Types.{Fsm}

handle_confirm_udp-Unconnected :
    (prog p : ProgramInterface) (id : ℕ)
    → handle_confirm_udp prog id ≡ ok p
    → Unconnected prog
    → Unconnected p
unfolding handle_confirm_udp queue_lock
handle_confirm_udp-Unconnected prog p id h s = ground arith

locked_confirm-Unconnected :
    (prog : ProgramInterface) (flags : MsgFlags) (p : ProgramInterface)
    → locked_confirm prog flags ≡ ok p
    → Unconnected prog
    → Unconnected p
locked_confirm-Unconnected prog flags p h s =
    let state = (locked_confirm-state prog flags p h).0 in rw state s

print-Unconnected :
    (prog : ProgramInterface) (bs : ProtocolBlocks) (p : ProgramInterface)
    → print_incoming_message prog bs ≡ ok p
    → Unconnected prog
    → Unconnected p
print-Unconnected prog bs p h s = let state = (print-state prog bs p h).0 in rw state s

-- A positive reply, in a state that waits for one: over UDP the result is 1, over TCP it is OK.
abbrev pub PositiveReply : Protocol → Fsm → ProtocolBlocks → Type 0
PositiveReply protocol s bs =
    (uchar2msg_type bs.type ≡ MsgType.reply)
    × (((protocol ≡ Protocol.udp) × Awaits s × Positive bs)
        ⊎ ((protocol ≡ Protocol.tcp) × (s ≡ Fsm.auth_sended) × (bs.reply_result_bool ≡ true)))

moved : (s t : Fsm) → t ≡ s → connected s ≡ false → connected t ≡ false
moved s t e h = rw e h

after_refusal : (s t : Fsm) → Refused s t → connected s ≡ false → connected t ≡ false
after_refusal s t r h = ground arith

udp_answer :
    (bs : ProtocolBlocks) (s t : Fsm)
    → Answered bs s t
    → ¬ (Awaits s × Positive bs)
    → connected s ≡ false
    → connected t ≡ false
udp_answer bs s t (inl e) n h = moved s t e h
udp_answer bs s t (inr (inl (a, b, e))) n h = absurd (n (a, b))
udp_answer bs s t (inr (inr (a, b, r))) n h = after_refusal s t r h

tcp_answer :
    (result : Bool) (s t : Fsm)
    → AnsweredTcp result s t
    → ¬ ((s ≡ Fsm.auth_sended) × (result ≡ true))
    → connected s ≡ false
    → connected t ≡ false
tcp_answer result s t (inl e) n h = moved s t e h
tcp_answer result s t (inr (inl (a, b, e))) n h = absurd (n (a, b))
tcp_answer result s t (inr (inr (inl (a, b, e)))) n h = rw e refl
tcp_answer result s t (inr (inr (inr (a, e)))) n h = ground arith

same-Unconnected : (q p : ProgramInterface) → ok q ≡ ok p → Unconnected q → Unconnected p
same-Unconnected q p h s = ground arith

protocol-cases :
    (prog : ProgramInterface)
    → ((is_udp prog ≡ true) × (prog.protocol ≡ Protocol.udp))
      ⊎ ((is_udp prog ≡ false) × (is_tcp prog ≡ true) × (prog.protocol ≡ Protocol.tcp))
      ⊎ ((is_udp prog ≡ false) × (is_tcp prog ≡ false))
protocol-cases prog = ground arith

on_reply-Unconnected :
    (prog : ProgramInterface) (id : ℕ) (bs : ProtocolBlocks) (again : Bool) (p : ProgramInterface)
    → on_reply prog id bs again ≡ ok p
    → uchar2msg_type bs.type ≡ MsgType.reply
    → ¬ PositiveReply prog.protocol prog.fsm_state bs
    → Unconnected prog
    → Unconnected p
unfolding on_reply
on_reply-Unconnected prog id bs again p h type n s = elim (protocol-cases prog) [
  | inl (udp, u) ↦ elim (Bool-cases again) [
    | inl repeated ↦ locked_confirm-Unconnected prog MsgFlags.confirm p (rw (udp, repeated) at h) s
    | inr new ↦
        let a = (handle_reply_udp-state prog id bs p (rw (udp, new) at h)).0 in
        udp_answer bs prog.fsm_state p.fsm_state a (λ w. n (type, inl (u, w.0, w.1))) s
  ]
  | inr (inl (no_udp, tcp, t)) ↦
      let a = (handle_reply_tcp-state prog bs p (rw (no_udp, tcp) at h)).0 in
      tcp_answer bs.reply_result_bool prog.fsm_state p.fsm_state a
        (λ w. n (type, inr (t, w.0, w.1))) s
  | inr (inr (no_udp, no_tcp)) ↦ same-Unconnected prog p (rw (no_udp, no_tcp) at h) s
]

printed-Unconnected :
    (prog : ProgramInterface) (bs : ProtocolBlocks) (again : Bool) (p : ProgramInterface)
    → (if again then ok prog else print_incoming_message (wake_sender prog) bs) ≡ ok p
    → Unconnected prog
    → Unconnected p
printed-Unconnected prog bs true p h s = same-Unconnected prog p h s
printed-Unconnected prog bs false p h s = print-Unconnected (wake_sender prog) bs p h s

on_msg-Unconnected :
    (prog : ProgramInterface) (bs : ProtocolBlocks) (again : Bool) (p : ProgramInterface)
    → on_msg prog bs again ≡ ok p
    → Unconnected prog
    → Unconnected p
unfolding on_msg
on_msg-Unconnected prog bs again p h s = elim (Bool-cases (is_udp prog)) [
  | inl udp ↦
      let (q, e, k) = >>=-Between (locked_confirm prog MsgFlags.confirm) _ (rw udp at h) in
      printed-Unconnected q bs again p k (locked_confirm-Unconnected prog MsgFlags.confirm q e s)
  | inr other ↦ print-Unconnected prog bs p (rw other at h) s
]

on_bye-Unconnected : (prog p : ProgramInterface) → on_bye prog ≡ ok p → Unconnected p
unfolding on_bye
on_bye-Unconnected prog p h = ground arith

receive_by_type-Unconnected :
    (type : MsgType) (prog : ProgramInterface) (id : ℕ) (bs : ProtocolBlocks) (again : Bool)
    (p : ProgramInterface)
    → receive_by_type type prog id bs again ≡ ok p
    → uchar2msg_type bs.type ≡ type
    → ¬ PositiveReply prog.protocol prog.fsm_state bs
    → Unconnected prog
    → Unconnected p
unfolding receive_by_type
receive_by_type-Unconnected MsgType.conf prog id bs again p h e n s =
    grind (arith, handle_confirm_udp-Unconnected)
receive_by_type-Unconnected MsgType.reply prog id bs again p h e n s =
    on_reply-Unconnected prog id bs again p h e n s
receive_by_type-Unconnected MsgType.msg prog id bs again p h e n s =
    on_msg-Unconnected prog bs again p h s
receive_by_type-Unconnected MsgType.bye prog id bs again p h e n s = on_bye-Unconnected prog p h
receive_by_type-Unconnected MsgType.err prog id bs again p h e n s =
    rw (on_err-state prog bs p h).0 refl
receive_by_type-Unconnected _ prog id bs again p h e n s = rw (on_unknown-state prog p h).0 refl

-- A client that is not connected is so after a message that is no positive reply.
pub receiver_fsm-Unconnected :
    (prog : ProgramInterface) (id : ℕ) (bs : ProtocolBlocks) (p : ProgramInterface)
    → receiver_fsm prog id bs ≡ ok p
    → ¬ PositiveReply prog.protocol prog.fsm_state bs
    → Unconnected prog
    → Unconnected p
unfolding receiver_fsm
receiver_fsm-Unconnected prog id bs p h n s = elim (Bool-cases (is_udp prog)) [
  | inl udp ↦
      let (r, e, k) = >>=-Between (filter_repetitive prog bs) _ (rw udp at h) in
      let f = filter-state prog bs r e in
      receive_by_type-Unconnected (uchar2msg_type bs.type) r.0 id bs r.1 p k refl (rw (f.0, f.2) n)
        (moved prog.fsm_state r.0.fsm_state f.0 s)
  | inr other ↦
      receive_by_type-Unconnected (uchar2msg_type bs.type) prog id bs false p (rw other at h) refl n
        s
]
