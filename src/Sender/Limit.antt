-- ===== src/Sender/Limit.antt =====
-- filterResentMessages() of src/protocolSender.c: the message over the limit of retransmissions.
use ipk_project.Prelude.{
  ◌≡◌, ◌≢◌, ◌<◌, refl, ap, sym, ◌∙◌, ◌++◌, ◌⊎◌, inl, inr, true, false, arith, List, [], ◌∷◌, Option,
  none, some, ltb,
}
use ipk_project.Utils.Types.{Fsm, fsm_eq}
use ipk_project.Queue.{Message, queue_get_message, queue_pop_message}
use ipk_project.Program.{ProgramInterface}
use ipk_project.Sender.{pop}

-- The filter of `prog` has come to the program `p`, whose first message was sent more often than the
-- retries allow: a message of `prog`, after those that were popped.
abbrev pub OverLimit : ProgramInterface → ProgramInterface → Type 0
OverLimit prog p =
    (popped : List Message) × (m : Message) × (ms : List Message) × (prog.sending_queue.messages
      ≡ popped ++ m ∷ ms)
    × (p.sending_queue.messages ≡ m ∷ ms)
    × (p.udp_max_retries < m.send_count)
    × (p.fsm_state ≢ Fsm.err_w84_conf)
    × (p.fsm_state ≢ Fsm.end_w84_conf)

messages-pop :
    (prog : ProgramInterface) (m : Message)
    → queue_get_message prog.sending_queue ≡ some m
    → prog.sending_queue.messages ≡ m ∷ (pop prog).sending_queue.messages
unfolding queue_get_message queue_pop_message
messages-pop prog m e = ground arith

pub OverLimit-pop :
    (prog q p : ProgramInterface) (m : Message)
    → queue_get_message prog.sending_queue ≡ some m
    → q.sending_queue.messages ≡ (pop prog).sending_queue.messages
    → OverLimit q p
    → OverLimit prog p
OverLimit-pop prog q p m e same (popped, x, ms, parts, here, over, no_err, no_end) = (
  m ∷ popped,
  x,
  ms,
  messages-pop prog m e ∙ ap (λ l. m ∷ l) (sym same ∙ parts),
  here,
  over,
  no_err,
  no_end,
)

pub OverLimit-first :
    (prog : ProgramInterface) (m : Message)
    → queue_get_message prog.sending_queue ≡ some m
    → ltb prog.udp_max_retries m.send_count ≡ true
    → fsm_eq prog.fsm_state Fsm.err_w84_conf ≡ false
    → fsm_eq prog.fsm_state Fsm.end_w84_conf ≡ false
    → OverLimit prog prog
unfolding fsm_eq
OverLimit-first prog m e many no_err other =
    let parts = messages-pop prog m e in
    (
      [],
      m,
      (pop prog).sending_queue.messages,
      parts,
      parts,
      ground arith,
      (λ i. ground (arith, ap (λ s. fsm_eq s Fsm.err_w84_conf) i)),
      λ i. ground (arith, ap (λ s. fsm_eq s Fsm.end_w84_conf) i),
    )

pub Option-cases : (o : Option Message) → (o ≡ none) ⊎ ((m : Message) × (o ≡ some m))
Option-cases none = inl refl
Option-cases (some m) = inr (m, refl)
