-- ===== src/Sender/Security.antt =====
-- The sender of src/protocolSender.c keeps a client that is not connected so.
use ipk_project.Prelude.{
  ℕ, zero, suc, ◌+◌, ◌≡◌, refl, subst, Bool, true, false, arith, if◌then◌else◌, ◌||◌, ◌==◌, Option,
  some, none, [], ◌∷◌, All, ltb, length,
}
use ipk_project.Outcome.{
  Outcome, ok, blocked, >>=-Between, ◌>>=◌, Ensures, Ensures-then, Ensures-bind, Ensures-if,
  Ensures-ok, Ensures-intro, Ensures-elim, returns, hangs,
}
use ipk_project.Memory.{or_fault}
use ipk_project.Utils.Types.{Fsm, fsm_eq}
use ipk_project.Queue.{
  Message, queue_lock, queue_get_message, queue_get_message_flags, queue_get_message_msg_type,
  queue_is_empty, queue_message_sended, queue_set_message_id,
}
use ipk_project.Queue.Types.{MsgFlags, MsgType, flags_eq}
use ipk_project.Program.{ProgramInterface, is_udp, Condition, signal, set_program_state}
use ipk_project.Program.Accepted.{Unconnected}
use ipk_project.Sender.{
  Others, Waited, Gate, gate, auth_state, later_logic, logic_fsm, filter_loop,
  filter_resent_messages, timed_out, send_first, empty_round, sender_round, wait, udp_sent,
  used_cells, pop, lock_sending, unlock_sending,
}
use ipk_project.Sender.Laws.{timed_out-state}

-- What the other threads do in a wait keeps a client that is not connected so.
abbrev pub AllUnconnected : Others → Type 0
AllUnconnected others =
    All
      (λ (f : ProgramInterface → ProgramInterface).
        (q : ProgramInterface) → Unconnected q → Unconnected (f q))
      others

locked-Unconnected :
    (prog p : ProgramInterface) → lock_sending prog ≡ ok p → Unconnected prog → Unconnected p
unfolding queue_lock
locked-Unconnected prog p h s = ground arith

auth_state-Unconnected :
    (prog : ProgramInterface) (flags : MsgFlags)
    → Unconnected prog
    → Unconnected (auth_state prog flags)
unfolding auth_state
auth_state-Unconnected prog flags s = ground arith

later_logic-Unconnected :
    (prog : ProgramInterface) (type : MsgType) (flags : MsgFlags) (p : ProgramInterface)
    → later_logic prog type flags ≡ ok p
    → Unconnected prog
    → Unconnected p
unfolding later_logic
later_logic-Unconnected prog type flags p h s = ground arith

-- A run of the sender leaves the client not connected, and waits that do so.
abbrev pub UnconnectedWaited : Waited → Type 0
UnconnectedWaited w = Unconnected w.0 × AllUnconnected w.1

later-Unconnected :
    (prog : ProgramInterface) (type : MsgType) (flags : MsgFlags) (others : Others)
    → Unconnected prog
    → AllUnconnected others
    → Ensures UnconnectedWaited (later_logic prog type flags >>= λ prog. ok (prog, others))
later-Unconnected prog type flags others s a =
    Ensures-bind
      (Ensures-intro (later_logic prog type flags)
        λ p h. later_logic-Unconnected prog type flags p h s)
      λ p s'. returns (s', a)

gated :
    (g : Gate) (x y z : Outcome Waited)
    → Ensures UnconnectedWaited x
    → Ensures UnconnectedWaited y
    → Ensures UnconnectedWaited z
    → Ensures UnconnectedWaited
        (elim g [ Gate.pass ↦ x | Gate.wait_once ↦ y | Gate.wait_again ↦ z ])
gated Gate.pass x y z a b c = a
gated Gate.wait_once x y z a b c = b
gated Gate.wait_again x y z a b c = c

-- the lock taken again after a wait
woken-Unconnected :
    (prog : ProgramInterface) (other : ProgramInterface → ProgramInterface)
    → Unconnected prog
    → ((q : ProgramInterface) → Unconnected q → Unconnected (other q))
    → Ensures Unconnected (lock_sending (other (unlock_sending prog)))
woken-Unconnected prog other s f =
    Ensures-intro (lock_sending (other (unlock_sending prog)))
      λ p h. locked-Unconnected (other (unlock_sending prog)) p h (f (unlock_sending prog) s)

pub logic_fsm-Unconnected :
    (prog : ProgramInterface) (others : Others)
    → Unconnected prog
    → AllUnconnected others
    → Ensures UnconnectedWaited (logic_fsm prog others)
unfolding logic_fsm
logic_fsm-Unconnected prog [] s a =
    Ensures-then (queue_get_message_flags prog.sending_queue) _ λ flags.
      Ensures-if _ _ _ (later-Unconnected prog _ flags [] s tt) (
        Ensures-then (or_fault (queue_get_message prog.sending_queue)) _ λ m.
          gated (gate (queue_get_message_msg_type prog.sending_queue) flags m)
            (ok (auth_state prog flags, [])) blocked blocked
            (returns (auth_state-Unconnected prog flags s, tt)) hangs hangs)
logic_fsm-Unconnected prog (other ∷ others) s a =
    Ensures-then (queue_get_message_flags prog.sending_queue) _ λ flags.
      Ensures-if _ _ _ (later-Unconnected prog _ flags (other ∷ others) s a) (
        Ensures-then (or_fault (queue_get_message prog.sending_queue)) _ λ m.
          let s' = auth_state-Unconnected prog flags s in
          gated (gate (queue_get_message_msg_type prog.sending_queue) flags m)
            (ok (auth_state prog flags, other ∷ others))
            (lock_sending (other (unlock_sending (auth_state prog flags))) >>= λ p. ok (p, others))
            (lock_sending (other (unlock_sending (auth_state prog flags))) >>= λ p.
              logic_fsm p others)
            (returns (s', a))
            (Ensures-bind (woken-Unconnected (auth_state prog flags) other s' a.0)
              λ p s''. returns (s'', a.1))
            (Ensures-bind (woken-Unconnected (auth_state prog flags) other s' a.0)
              λ p s''. logic_fsm-Unconnected p others s'' a.1))

pop-Unconnected : (prog : ProgramInterface) → Unconnected prog → Unconnected (pop prog)
pop-Unconnected prog s = s

with_message {ℓ} :
    {A : Type ℓ} {P : A → Type 0} (o : Option Message) (x : Outcome A) (y : Message → Outcome A)
    → Ensures P x
    → ((m : Message) → Ensures P (y m))
    → Ensures P (elim o [ none ↦ x | some m ↦ y m ])
with_message none x y a b = a
with_message (some m) x y a b = b m

timed_out-Unconnected :
    (prog : ProgramInterface) (reset : Bool)
    → Ensures
        (λ (r : ProgramInterface × Bool). Unconnected r.0)
        (timed_out prog >>= λ prog. ok (prog, reset))
timed_out-Unconnected prog reset =
    Ensures-bind {P = Unconnected}
      (Ensures-intro (timed_out prog) λ p h. rw (timed_out-state prog p h).0 refl) λ p s. returns s

filter_loop-Unconnected :
    (rounds : ℕ) (prog : ProgramInterface) (reset : Bool)
    → Unconnected prog
    → Ensures (λ r. Unconnected r.0) (filter_loop rounds prog reset)
unfolding filter_loop
filter_loop-Unconnected zero prog reset s = hangs
filter_loop-Unconnected (suc rounds) prog reset s =
    with_message (queue_get_message prog.sending_queue) _ _ (returns s) λ m.
      Ensures-elim (ltb prog.udp_max_retries m.send_count) _ _
        (Ensures-elim (fsm_eq prog.fsm_state Fsm.err_w84_conf) _ _
          (filter_loop-Unconnected rounds (pop prog) reset s)
          (Ensures-elim (fsm_eq prog.fsm_state Fsm.end_w84_conf) _ _
            (filter_loop-Unconnected rounds
              (pop (signal (set_program_state prog Fsm.end_state) Condition.main_cond)) true refl)
            (timed_out-Unconnected prog reset)))
        (Ensures-elim (flags_eq m.msg_flags MsgFlags.rejected) _ _
          (filter_loop-Unconnected rounds (pop prog) reset s)
          (Ensures-elim (flags_eq m.msg_flags MsgFlags.auth || m.confirmed == 0) _ _ (returns s)
            (filter_loop-Unconnected rounds (pop prog) reset s)))

udp_sent-Unconnected :
    (prog p : ProgramInterface) → udp_sent prog ≡ ok p → Unconnected prog → Unconnected p
unfolding udp_sent queue_message_sended
udp_sent-Unconnected prog p h s = ground arith

send_first-Unconnected :
    (prog : ProgramInterface) (delivered : Bool) (p : ProgramInterface)
    → send_first prog delivered ≡ ok p
    → Unconnected prog
    → Unconnected p
unfolding send_first
send_first-Unconnected prog delivered p h s =
    let numbered =
      if is_udp prog
      then queue_set_message_id prog.sending_queue prog.msg_counter
      else ok prog.sending_queue in
    let (q, e1, h1) = >>=-Between numbered _ h in
    let (m, e2, h2) = >>=-Between (or_fault (queue_get_message q)) _ h1 in
    let (b, e3, h3) = >>=-Between (or_fault m.buffer) _ h2 in
    let (cells, e4, h4) = >>=-Between (used_cells b) _ h3 in grind (arith, udp_sent-Unconnected)

wait-Unconnected :
    (prog : ProgramInterface) (others : Others) (w : Waited)
    → wait prog others ≡ ok w
    → Unconnected prog
    → AllUnconnected others
    → UnconnectedWaited w
wait-Unconnected prog [] w h s a = absurd cc
wait-Unconnected prog (other ∷ others) w h s a =
    let same : (other prog, others) ≡ w = ground arith in
    subst UnconnectedWaited same (a.0 prog s, a.1)

ended :
    (prog : ProgramInterface) (others : Others)
    → AllUnconnected others
    → UnconnectedWaited
        (signal (unlock_sending (set_program_state prog Fsm.end_state)) Condition.main_cond, others)
ended prog others a = (refl, a)

returned : (v w : Waited) → ok v ≡ ok w → v ≡ w
returned v w h = ground arith

empty_round-Unconnected :
    (b : Bool) (prog : ProgramInterface) (others : Others) (w : Waited)
    → (if b
        then ok (
          signal (unlock_sending (set_program_state prog Fsm.end_state)) Condition.main_cond,
          others,
        )
        else wait (unlock_sending prog) others)
      ≡ ok w
    → Unconnected prog
    → AllUnconnected others
    → UnconnectedWaited w
empty_round-Unconnected true prog others w h s a =
    subst UnconnectedWaited (returned _ w h) (ended prog others a)
empty_round-Unconnected false prog others w h s a =
    wait-Unconnected (unlock_sending prog) others w h s a

filtered-Unconnected :
    (prog : ProgramInterface) (udp : Bool) (r : ProgramInterface × Bool)
    → (if udp then (lock_sending prog >>= filter_resent_messages) else ok (prog, false)) ≡ ok r
    → Unconnected prog
    → Unconnected r.0
unfolding filter_resent_messages
filtered-Unconnected prog true r h s =
    let (p, e, k) = >>=-Between (lock_sending prog) _ h in
    Ensures-ok
      (filter_loop-Unconnected (length p.sending_queue.messages + 1) p false
        (locked-Unconnected prog p e s))
      k
filtered-Unconnected prog false r h s = ground arith

-- From the second lock on.
sending_round :
    (prog : ProgramInterface) (delivered empty : Bool) (others : Others) (w : Waited)
    → (if empty
        then empty_round prog others
        else (lock_sending (unlock_sending prog) >>= λ prog. logic_fsm prog others >>= λ v.
            send_first v.0 delivered >>= λ prog. wait (unlock_sending prog) v.1))
      ≡ ok w
    → Unconnected prog
    → AllUnconnected others
    → UnconnectedWaited w
unfolding empty_round
sending_round prog delivered true others w h s a =
    empty_round-Unconnected
      (fsm_eq prog.fsm_state Fsm.empty_q_bye || fsm_eq prog.fsm_state Fsm.sigint_bye) prog others w
      h s a
sending_round prog delivered false others w h s a =
    let (p1, e1, h1) = >>=-Between (lock_sending (unlock_sending prog)) _ h in
    let (v, e2, h2) = >>=-Between (logic_fsm p1 others) _ h1 in
    let (p2, e3, h3) = >>=-Between (send_first v.0 delivered) _ h2 in
    let t =
      Ensures-ok
        (logic_fsm-Unconnected p1 others (locked-Unconnected (unlock_sending prog) p1 e1 s) a) e2 in
    wait-Unconnected (unlock_sending p2) v.1 w h3 (send_first-Unconnected v.0 delivered p2 e3 t.0)
      t.1

-- A round of the sender that returns keeps a client that is not connected so, where the other threads do so in its
-- waits.
pub sender_round-Unconnected :
    (prog : ProgramInterface) (delivered : Bool) (others : Others) (w : Waited)
    → sender_round prog delivered others ≡ ok w
    → Unconnected prog
    → AllUnconnected others
    → UnconnectedWaited w
unfolding sender_round
sender_round-Unconnected prog delivered others w h s a =
    let filtered =
      if is_udp prog then (lock_sending prog >>= filter_resent_messages) else ok (prog, false) in
    let (r, e, k) = >>=-Between filtered _ h in
    go r.0 r.1 (filtered-Unconnected prog (is_udp prog) r e s) k
  where
    go :
        (p : ProgramInterface) (reset : Bool)
        → Unconnected p
        → (if reset
            then ok (p, others)
            else if queue_is_empty p.sending_queue
            then empty_round p others
            else (lock_sending (unlock_sending p) >>= λ prog. logic_fsm prog others >>= λ v.
                send_first v.0 delivered >>= λ prog. wait (unlock_sending prog) v.1))
          ≡ ok w
        → UnconnectedWaited w
    go p true t k = subst UnconnectedWaited (returned _ w k) (t, a)
    go p false t k = sending_round p delivered (queue_is_empty p.sending_queue) others w k t a
