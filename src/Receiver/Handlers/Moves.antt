-- ===== src/Receiver/Handlers/Moves.antt =====
-- The state machine of the receiver: which states a message of the server leads to, and the lock
-- of the sending queue.
use ipk_project.Prelude.{
  ℕ, ◌≡◌, ◌≢◌, ap, subst, sym, ◌∙◌, ◌⊎◌, inl, inr, Bool, true, false, arith, if◌then◌else◌,
  Bool-cases, ◌||◌, ◌==◌, some,
}
use ipk_project.Outcome.{ok, >>=-Between, ◌>>=◌}
use ipk_project.Memory.{CharPtr, or_fault, read}
use ipk_project.Utils.Types.{Fsm, fsm_eq}
use ipk_project.Queue.{queue_lock, queue_unlock, queue_get_message_flags}
use ipk_project.Queue.Types.{MsgFlags}
use ipk_project.Program.{ProgramInterface, is_udp}
use ipk_project.Protocol.Blocks.{ProtocolBlocks}
use ipk_project.Receiver.Handlers.{
  handle_confirm_udp, handle_reply_udp, reply_accepted, reply_rejected, handle_reply_tcp, on_msg,
  on_bye, on_err, on_unknown, print_incoming_message, string_of, locked_confirm, rejected,
  lock_sending, wake_sender,
}
use ipk_project.Receiver.Send.{send_confirm}
use ipk_project.Receiver.Frame.{send_confirm-state, send_bye-state, send_error-state}

-- The state after a CONFIRM of the first message.
abbrev pub confirmed_state : Fsm → Fsm
confirmed_state Fsm.auth_sended = Fsm.w84_reply
confirmed_state Fsm.end_w84_conf = Fsm.end_state
confirmed_state s = s

pub handle_confirm_udp-state :
    (prog p : ProgramInterface) (id : ℕ)
    → handle_confirm_udp prog id ≡ ok p
    → ((p.fsm_state ≡ confirmed_state prog.fsm_state) ⊎ (p.fsm_state ≡ prog.fsm_state))
      × (p.sending_queue.lock ≡ false)
unfolding handle_confirm_udp queue_unlock queue_lock
handle_confirm_udp-state prog p id h = ground arith

pub print-state :
    (prog : ProgramInterface) (blocks : ProtocolBlocks) (p : ProgramInterface)
    → print_incoming_message prog blocks ≡ ok p
    → (p.fsm_state ≡ prog.fsm_state) × (p.sending_queue ≡ prog.sending_queue)
unfolding print_incoming_message
print-state prog blocks p h = ground arith

pub locked_confirm-state :
    (prog : ProgramInterface) (flags : MsgFlags) (p : ProgramInterface)
    → locked_confirm prog flags ≡ ok p
    → (p.fsm_state ≡ prog.fsm_state) × (p.sending_queue.lock ≡ false)
unfolding locked_confirm queue_unlock queue_lock
locked_confirm-state prog flags p h = grind (arith, send_confirm-state)

pub on_bye-state :
    (prog p : ProgramInterface)
    → prog.sending_queue.lock ≡ false
    → on_bye prog ≡ ok p
    → (p.fsm_state ≡ Fsm.end_state) × (p.sending_queue.lock ≡ false)
unfolding on_bye
on_bye-state prog p l h = grind (arith, locked_confirm-state)

pub on_err-state :
    (prog : ProgramInterface) (blocks : ProtocolBlocks) (p : ProgramInterface)
    → on_err prog blocks ≡ ok p
    → (p.fsm_state ≡ Fsm.err_state) × (p.sending_queue.lock ≡ false)
unfolding on_err queue_unlock
on_err-state prog blocks p h = grind (arith, send_bye-state, print-state)

pub on_unknown-state :
    (prog p : ProgramInterface)
    → on_unknown prog ≡ ok p
    → (p.fsm_state ≡ Fsm.err_state) × (p.sending_queue.lock ≡ false)
unfolding on_unknown queue_unlock queue_lock
on_unknown-state prog p h = grind (arith, send_bye-state, send_error-state, send_confirm-state)

-- The states in which a UDP client waits for a reply.
abbrev pub Awaits : Fsm → Type 0
Awaits s = (s ≡ Fsm.w84_reply) ⊎ (s ≡ Fsm.join_atempt)

-- The result of a UDP reply is 1.
abbrev pub Positive : ProtocolBlocks → Type 0
Positive blocks = (p : CharPtr) × (blocks.zeroth.start ≡ some p) × (read p 0 ≡ ok 1)

-- The result of a UDP reply is another byte.
abbrev pub Negative : ProtocolBlocks → Type 0
Negative blocks =
    (p : CharPtr) × (result : ℕ) × (blocks.zeroth.start ≡ some p)
    × (read p 0 ≡ ok result)
    × (result ≢ 1)

-- The moves of a negative reply.
abbrev pub Refused : Fsm → Fsm → Type 0
Refused s t = (t ≡ s) ⊎ (t ≡ Fsm.start) ⊎ ((s ≡ Fsm.join_atempt) × (t ≡ Fsm.open_state))

-- The moves of a UDP reply: none, or from a state that waits for one, to the state that waits for
-- the confirmation of a positive reply, or to where a negative one leads.
abbrev pub Answered : ProtocolBlocks → Fsm → Fsm → Type 0
Answered blocks s t =
    (t ≡ s)
    ⊎ (Awaits s × Positive blocks × (t ≡ Fsm.w84_reply_conf))
    ⊎ (Awaits s × Negative blocks × Refused s t)

reply_accepted-state :
    (prog : ProgramInterface) (blocks : ProtocolBlocks) (p : ProgramInterface)
    → reply_accepted prog blocks ≡ ok p
    → (p.fsm_state ≡ Fsm.w84_reply_conf) × (p.sending_queue.lock ≡ false)
unfolding reply_accepted
reply_accepted-state prog blocks p h = grind (arith, locked_confirm-state)

locked-state : (prog p : ProgramInterface) → lock_sending prog ≡ ok p → p.fsm_state ≡ prog.fsm_state
locked-state prog p h = ground arith

rejected-Refused :
    (prog : ProgramInterface) (flags : MsgFlags)
    → Refused prog.fsm_state (rejected prog flags).fsm_state
unfolding rejected
rejected-Refused prog flags = ground arith

reply_rejected-state :
    (prog : ProgramInterface) (blocks : ProtocolBlocks) (p : ProgramInterface)
    → reply_rejected prog blocks ≡ ok p
    → Refused prog.fsm_state p.fsm_state × (p.sending_queue.lock ≡ false)
unfolding reply_rejected queue_unlock
reply_rejected-state prog blocks p h =
    let (p1, e1, h1) = >>=-Between (lock_sending prog) _ h in
    let (flags, e2, h2) = >>=-Between (queue_get_message_flags p1.sending_queue) _ h1 in
    let (p2, e3, h3) = >>=-Between (send_confirm (rejected p1 flags) MsgFlags.nok_reply) _ h2 in
    let (text, e4, h4) = >>=-Between (string_of blocks.second) _ h3 in
    let s = (send_confirm-state (rejected p1 flags) MsgFlags.nok_reply p2 e3).0 in
    let l : p1.fsm_state ≡ prog.fsm_state = locked-state prog p1 e1 in
    (
      subst (λ t. Refused prog.fsm_state t) (sym s ∙ cc)
          (subst (λ t. Refused t (rejected p1 flags).fsm_state) l (rejected-Refused p1 flags)),
      cc,
    )

awaits : (s : Fsm) → fsm_eq s Fsm.w84_reply || fsm_eq s Fsm.join_atempt ≡ true → Awaits s
unfolding fsm_eq
awaits s e = ground arith

-- with the result read
answer-Answered :
    (prog : ProgramInterface) (blocks : ProtocolBlocks) (q : CharPtr) (result : ℕ)
    (p : ProgramInterface)
    → Awaits prog.fsm_state
    → blocks.zeroth.start ≡ some q
    → read q 0 ≡ ok result
    → (if result == 1 then reply_accepted prog blocks else reply_rejected prog blocks) ≡ ok p
    → Answered blocks prog.fsm_state p.fsm_state × (p.sending_queue.lock ≡ false)
answer-Answered prog blocks q result p a e r h = elim (Bool-cases (result == 1)) [
  | inl one ↦
      let s = reply_accepted-state prog blocks p (rw one at h) in
      let is_one : result ≡ 1 = ground arith in
      (inr (inl (a, (q, e, r ∙ ap (λ n. ok n) is_one), s.0)), s.1)
  | inr other ↦
      let s = reply_rejected-state prog blocks p (rw other at h) in
      let not_one : result ≢ 1 = λ i. ground arith in
      (inr (inr (a, (q, result, e, r, not_one), s.0)), s.1)
]

pub handle_reply_udp-state :
    (prog : ProgramInterface) (id : ℕ) (blocks : ProtocolBlocks) (p : ProgramInterface)
    → handle_reply_udp prog id blocks ≡ ok p
    → Answered blocks prog.fsm_state p.fsm_state
      × (prog.sending_queue.lock ≡ false → p.sending_queue.lock ≡ false)
unfolding handle_reply_udp
handle_reply_udp-state prog id blocks p h =
    elim (Bool-cases
      (fsm_eq prog.fsm_state Fsm.w84_reply || fsm_eq prog.fsm_state Fsm.join_atempt)) [
        | inl waits ↦
            let (result, e, k) =
              >>=-Between (or_fault blocks.zeroth.start >>= λ q. read q 0) _ (rw waits at h) in
            let (q, e1, r) = >>=-Between (or_fault blocks.zeroth.start) _ e in
            let (p1, e2, k2) =
              >>=-Between
                (if result == 1 then reply_accepted prog blocks else reply_rejected prog blocks) _
                k in
            let set : blocks.zeroth.start ≡ some q = ground arith in
            let s =
              answer-Answered prog blocks q result p1 (awaits prog.fsm_state waits) set r e2 in
            let same : p.fsm_state ≡ p1.fsm_state = ground arith in
            let same' : p.sending_queue.lock ≡ p1.sending_queue.lock = ground arith in
            (subst (λ t. Answered blocks prog.fsm_state t) (sym same) s.0, λ l. same' ∙ s.1)
        | inr idle ↦
            let same : prog ≡ p = ground arith in
            (
              inl (ap (λ (x : ProgramInterface). x.fsm_state) (sym same)),
              λ l. ap (λ (x : ProgramInterface). x.sending_queue.lock) (sym same) ∙ l,
            )
      ]

-- The moves of a TCP reply with this result: none, or from a state that waits for one.
abbrev pub AnsweredTcp : Bool → Fsm → Fsm → Type 0
AnsweredTcp result s t =
    (t ≡ s)
    ⊎ ((s ≡ Fsm.auth_sended) × (result ≡ true) × (t ≡ Fsm.open_state))
    ⊎ ((s ≡ Fsm.auth_sended) × (result ≡ false) × (t ≡ Fsm.start))
    ⊎ ((s ≡ Fsm.join_atempt) × (t ≡ Fsm.open_state))

pub handle_reply_tcp-state :
    (prog : ProgramInterface) (blocks : ProtocolBlocks) (p : ProgramInterface)
    → handle_reply_tcp prog blocks ≡ ok p
    → AnsweredTcp blocks.reply_result_bool prog.fsm_state p.fsm_state
      × (p.sending_queue ≡ prog.sending_queue)
unfolding handle_reply_tcp fsm_eq
handle_reply_tcp-state prog blocks p h = ground arith

pub on_msg-state :
    (prog : ProgramInterface) (blocks : ProtocolBlocks) (repetitive : Bool) (p : ProgramInterface)
    → prog.sending_queue.lock ≡ false
    → on_msg prog blocks repetitive ≡ ok p
    → (p.fsm_state ≡ prog.fsm_state) × (p.sending_queue.lock ≡ false)
unfolding on_msg
on_msg-state prog blocks repetitive p l h = elim (Bool-cases (is_udp prog)) [
  | inl udp ↦ go (>>=-Between (locked_confirm prog MsgFlags.confirm) _ (rw udp at h))
  | inr other ↦ let s = print-state prog blocks p (rw other at h) in (s.0, ground arith)
]
  where
    go :
        (q : ProgramInterface) × (locked_confirm prog MsgFlags.confirm ≡ ok q)
          × ((if repetitive then ok q else print_incoming_message (wake_sender q) blocks) ≡ ok p)
        → (p.fsm_state ≡ prog.fsm_state) × (p.sending_queue.lock ≡ false)
    go (q, e, k) =
        let s = locked_confirm-state prog MsgFlags.confirm q e in
        elim (Bool-cases repetitive) [
          | inl again ↦ ground arith
          | inr new ↦ let r = print-state (wake_sender q) blocks p (rw new at k) in (cc, cc)
        ]
