-- ===== src/Sender/Filtering.antt =====
-- filterResentMessages() of src/protocolSender.c: its loop comes to an end.
use ipk_project.Prelude.{
  ℕ, zero, suc, ◌+◌, ◌≡◌, refl, Bool, true, false, arith, Option, none, some, ◌<◌, length, ltb,
  ◌==◌, ◌||◌, ◌⊎◌, inl, inr, Bool-cases,
}
use ipk_project.Outcome.{Outcome, ok, ◌>>=◌}
use ipk_project.Utils.Types.{Fsm, fsm_eq}
use ipk_project.Queue.{Message, MessageQueue, queue_get_message, queue_pop_message}
use ipk_project.Queue.Types.{MsgFlags, flags_eq}
use ipk_project.Program.{ProgramInterface, Condition, signal, set_program_state}
use ipk_project.Sender.{filter_loop, filter_resent_messages, timed_out, pop}
use ipk_project.Sender.Limit.{OverLimit, OverLimit-pop, OverLimit-first, Option-cases}

-- Branches that are equal where they are taken.
same_branches {ℓ} :
    {A : Type ℓ} (b : Bool) {x x' y y' : A}
    → x ≡ x'
    → y ≡ y'
    → elim b [ true ↦ x | false ↦ y ] ≡ elim b [ true ↦ x' | false ↦ y' ]
same_branches true e f = e
same_branches false e f = f

same_messages {ℓ} :
    {A : Type ℓ} (o : Option Message) (x : A) {y y' : Message → A}
    → ((m : Message) → o ≡ some m → y m ≡ y' m)
    → elim o [ none ↦ x | some m ↦ y m ] ≡ elim o [ none ↦ x | some m ↦ y' m ]
same_messages none x f = refl
same_messages (some m) x f = f m refl

length-pop :
    (q : MessageQueue) (m : Message) (rounds : ℕ)
    → queue_get_message q ≡ some m
    → length q.messages < suc rounds
    → length (queue_pop_message q).messages < rounds
unfolding queue_get_message queue_pop_message
length-pop q m rounds e h = ground arith

filter_loop-rounds :
    (n n' : ℕ) (prog : ProgramInterface) (reset : Bool)
    → length prog.sending_queue.messages < n
    → length prog.sending_queue.messages < n'
    → filter_loop n prog reset ≡ filter_loop n' prog reset
unfolding filter_loop
filter_loop-rounds zero n' prog reset h h' = absurd (omega arith)
filter_loop-rounds (suc n) zero prog reset h h' = absurd (omega arith)
filter_loop-rounds (suc n) (suc n') prog reset h h' =
    same_messages (queue_get_message prog.sending_queue) _ λ m e.
      let less = length-pop prog.sending_queue m n e h in
      let less' = length-pop prog.sending_queue m n' e h' in
      let popped = filter_loop-rounds n n' (pop prog) reset less less' in
      let ended =
        filter_loop-rounds n n'
          (pop (signal (set_program_state prog Fsm.end_state) Condition.main_cond)) true less
          less' in
      same_branches (ltb prog.udp_max_retries m.send_count)
        (same_branches (fsm_eq prog.fsm_state Fsm.err_w84_conf) popped
          (same_branches (fsm_eq prog.fsm_state Fsm.end_w84_conf) ended refl))
        (same_branches (flags_eq m.msg_flags MsgFlags.rejected) popped
          (same_branches (flags_eq m.msg_flags MsgFlags.auth || m.confirmed == 0) refl popped))

-- The loop of the filter of `prog` returns, or comes to the timeout for a message over the limit.
abbrev pub Ends : ProgramInterface → Outcome (ProgramInterface × Bool) → Type 0
Ends prog o =
    ((r : ProgramInterface × Bool) × (o ≡ ok r))
    ⊎ ((p : ProgramInterface) × (reset : Bool) × OverLimit prog p
        × (o ≡ (timed_out p >>= λ q. ok (q, reset))))

Ends-pop :
    (prog q : ProgramInterface) (m : Message) (o : Outcome (ProgramInterface × Bool))
    → queue_get_message prog.sending_queue ≡ some m
    → q.sending_queue.messages ≡ (pop prog).sending_queue.messages
    → Ends q o
    → Ends prog o
Ends-pop prog q m o e same (inl r) = inl r
Ends-pop prog q m o e same (inr (p, reset, over, t)) =
    inr (p, reset, OverLimit-pop prog q p m e same over, t)

filter_loop-Ends :
    (rounds : ℕ) (prog : ProgramInterface) (reset : Bool)
    → length prog.sending_queue.messages < rounds
    → Ends prog (filter_loop rounds prog reset)
unfolding filter_loop
filter_loop-Ends zero prog reset less = absurd (omega arith)
filter_loop-Ends (suc rounds) prog reset less =
    elim (Option-cases (queue_get_message prog.sending_queue)) [
      | inl e ↦ inl ((prog, reset), rw (e, filter_loop) refl)
      | inr (m, e) ↦
          let shorter = length-pop prog.sending_queue m rounds e less in
          let again =
            Ends-pop prog (pop prog) m (filter_loop rounds (pop prog) reset) e refl
              (filter_loop-Ends rounds (pop prog) reset shorter) in
          elim (Bool-cases (ltb prog.udp_max_retries m.send_count)) [
            | inl many ↦ elim (Bool-cases (fsm_eq prog.fsm_state Fsm.err_w84_conf)) [
              | inl err ↦ rw (filter_loop, e, many, err) again
              | inr no_err ↦ elim (Bool-cases (fsm_eq prog.fsm_state Fsm.end_w84_conf)) [
                | inl ending ↦
                    let q =
                      pop (signal (set_program_state prog Fsm.end_state) Condition.main_cond) in
                    rw (filter_loop, e, many, no_err, ending)
                      (Ends-pop prog q m (filter_loop rounds q true) e refl
                        (filter_loop-Ends rounds q true shorter))
                | inr other ↦ inr (
                  prog,
                  reset,
                  OverLimit-first prog m e many no_err other,
                  rw (filter_loop, e, many, no_err, other) refl,
                )
              ]
            ]
            | inr few ↦ elim (Bool-cases (flags_eq m.msg_flags MsgFlags.rejected)) [
              | inl gone ↦ rw (filter_loop, e, few, gone) again
              | inr kept ↦
                  elim (Bool-cases (flags_eq m.msg_flags MsgFlags.auth || m.confirmed == 0)) [
                    | inl first ↦ inl ((prog, reset), rw (filter_loop, e, few, kept, first) refl)
                    | inr confirmed ↦ rw (filter_loop, e, few, kept, confirmed) again
                  ]
            ]
          ]
    ]

-- The loop of filterResentMessages() does not run out of rounds: with any number of rounds greater
-- than the number of messages in the queue the result is the same, and the filter returns, or its
-- result is that of the timeout of a program that it comes to, whose queue begins with a message over
-- the limit.
pub filter_resent_messages-rounds :
    (rounds : ℕ) (prog : ProgramInterface)
    → length prog.sending_queue.messages < rounds
    → (filter_loop rounds prog false ≡ filter_resent_messages prog)
      × Ends prog (filter_resent_messages prog)
unfolding filter_resent_messages
filter_resent_messages-rounds rounds prog h =
    let enough = length prog.sending_queue.messages + 1 in
    (
      filter_loop-rounds rounds enough prog false h (omega arith),
      filter_loop-Ends enough prog false (omega arith),
    )
