-- ===== src/System/Reaching.antt =====
-- What holds in every reachable state of the threads together.
use ipk_project.Prelude.{ℕ, zero, suc, ◌≡◌, ◌≢◌, refl, false, List, [], ◌∷◌, arith, take}
use ipk_project.Outcome.{
  ok, >>=-Between, Ensures, Ensures-then, Ensures-bind, Ensures-if, Ensures-intro, Ensures-ok,
  returns,
}
use ipk_project.Program.{ProgramInterface, program_interface_init}
use ipk_project.Program.Accepted.{Unconnected, connected}
use ipk_project.Receiver.{ReceiverLocals, receive_into, disasseble, receiver_start, receiver_round}
use ipk_project.Receiver.Handlers.{receiver_fsm}
use ipk_project.Receiver.Handlers.Security.{PositiveReply, receiver_fsm-Unconnected}
use ipk_project.Sender.{Others}
use ipk_project.Sender.Security.{AllUnconnected, sender_round-Unconnected}
use ipk_project.Main.{CliOption, process_arguments, check_arguments}
use ipk_project.Main.Options.{InRange, process_arguments-InRange}
use ipk_project.Main.Security.{
  user_command_round-Unconnected, sigint_handler-Unconnected, err_handling-Unconnected,
}
use ipk_project.System.{Move, Run, Turns, Reachable, main_start}

-- The round handled what it received, and that was a positive reply.
abbrev pub HandledPositive : ProgramInterface → List ℕ → ReceiverLocals → Type 0
HandledPositive prog received locals =
    (received ≢ []) × PositiveReply prog.protocol prog.fsm_state locals.blocks

receiver_round-Ensures :
    (prog : ProgramInterface) (locals : ReceiverLocals) (received : List ℕ)
    → Unconnected prog
    → Ensures
        (λ (r : ProgramInterface × ReceiverLocals).
          ¬ PositiveReply prog.protocol prog.fsm_state r.1.blocks → Unconnected r.0)
        (receiver_round prog locals received)
unfolding receiver_round
receiver_round-Ensures prog locals received s =
    Ensures-then (receive_into prog.server_response received) _ λ b.
      let p : ProgramInterface = record prog { server_response = b } in
      Ensures-if _ _ _ (returns λ n. s) (
        Ensures-then (disasseble p locals) _ λ l. Ensures-if _ _ _ (returns λ n. s) (
          Ensures-bind
            (Ensures-intro
              {P = λ q. ¬ PositiveReply prog.protocol prog.fsm_state l.blocks → Unconnected q}
              (receiver_fsm p l.msg_id l.blocks)
              λ q h n. receiver_fsm-Unconnected p l.msg_id l.blocks q h n s)
            λ q t. returns t))

take_nil : (n : ℕ) → take {A = ℕ} n [] ≡ []
take_nil zero = refl
take_nil (suc n) = refl

-- a round that received nothing
timeout-Unconnected :
    (prog : ProgramInterface) (locals : ReceiverLocals)
    → Unconnected prog
    → Ensures
        (λ (r : ProgramInterface × ReceiverLocals). Unconnected r.0)
        (receiver_round prog locals [])
unfolding receiver_round
timeout-Unconnected prog locals s =
    Ensures-then (receive_into prog.server_response []) _
      λ b. rw (take_nil prog.server_response.allocated) (returns s)

received-Unconnected :
    (prog : ProgramInterface) (locals : ReceiverLocals) (received : List ℕ)
    (r : ProgramInterface × ReceiverLocals)
    → receiver_round prog locals received ≡ ok r
    → ¬ HandledPositive prog received r.1
    → Unconnected prog
    → Unconnected r.0
received-Unconnected prog locals [] r h n s = Ensures-ok (timeout-Unconnected prog locals s) h
received-Unconnected prog locals (c ∷ cs) r h n s =
    Ensures-ok (receiver_round-Ensures prog locals (c ∷ cs) s) h λ t. n ((λ e. cc), t)

initial-InRange : InRange program_interface_init
initial-InRange = record { port = omega arith; timeout = omega arith; retries = omega arith }

starts_disconnected :
    (options : List CliOption) (p : ProgramInterface) → main_start options ≡ ok p → Unconnected p
unfolding main_start check_arguments
starts_disconnected options p h =
    let (q, e, k) = >>=-Between (process_arguments program_interface_init options) _ h in
    let state = (process_arguments-InRange program_interface_init options q initial-InRange e).1 in
    let same : p.fsm_state ≡ q.fsm_state = ground arith in rw (same, state) refl

unfoldable mutual
  -- No round of the receiver in the move, its waits included, handled a positive reply in a state
  -- that waits for one.
  pub UnansweredMove : {p q : ProgramInterface} → Move p q → Type 0
  UnansweredMove Move.receiver_starts = Unit
  UnansweredMove (Move.receive {prog} locals received r go h) = ¬ HandledPositive prog received r.1
  UnansweredMove (Move.send delivered others r go t h) = UnansweredTurns t
  UnansweredMove (Move.command loop others r go t h) = UnansweredTurns t
  UnansweredMove (Move.fail msg code others r t h) = UnansweredTurns t
  UnansweredMove (Move.interrupt others r t h) = UnansweredTurns t

  pub Unanswered : {p q : ProgramInterface} → Run p q → Type 0
  Unanswered Run.stay = Unit
  Unanswered (Run.move r m) = Unanswered r × UnansweredMove m

  -- In a wait, whatever program the other threads find.
  pub UnansweredTurns : {others : Others} → Turns others → Type 0
  UnansweredTurns Turns.no_more = Unit
  UnansweredTurns (Turns.turn f t) = ((q : ProgramInterface) → Unanswered (f q)) × UnansweredTurns t

mutual
  unfolding receiver_start UnansweredMove

  Move-Unconnected :
      {p q : ProgramInterface} (m : Move p q) → UnansweredMove m → Unconnected p → Unconnected q
  Move-Unconnected Move.receiver_starts n s = s
  Move-Unconnected (Move.receive {prog} locals received r go h) n s =
      received-Unconnected prog locals received r h n s
  Move-Unconnected (Move.send {prog} delivered others r go t h) n s =
      (sender_round-Unconnected prog delivered others r h s (Turns-Unconnected t n)).0
  Move-Unconnected (Move.command loop others r go t h) n s =
      (user_command_round-Unconnected loop others r h s (Turns-Unconnected t n)).0
  Move-Unconnected (Move.fail {prog} msg code others r t h) n s =
      (err_handling-Unconnected prog msg code others r h s (Turns-Unconnected t n)).0
  Move-Unconnected (Move.interrupt {prog} others r t h) n s =
      (sigint_handler-Unconnected prog others r h (Turns-Unconnected t n)).0

  Run-Unconnected :
      {p q : ProgramInterface} (r : Run p q) → Unanswered r → Unconnected p → Unconnected q
  Run-Unconnected Run.stay n s = s
  Run-Unconnected (Run.move r m) n s = Move-Unconnected m n.1 (Run-Unconnected r n.0 s)

  Turns-Unconnected :
      {others : Others} (t : Turns others) → UnansweredTurns t → AllUnconnected others
  Turns-Unconnected Turns.no_more n = tt
  Turns-Unconnected (Turns.turn f t) n =
      ((λ q s. Run-Unconnected (f q) (n.0 q) s), Turns-Unconnected t n.1)

-- Where the threads come from the options of the command line by a run in which no round of the
-- receiver handles a positive reply in a state that waits for one, the client does not wait for the
-- confirmation of a reply, is not OPEN and does not join. A reply is positive over UDP with the
-- result 1 in W84_REPLY or JOIN_ATEMPT, over TCP with the result OK in AUTH_SENDED; in a wait no such
-- reply is handled whatever program the other threads find.
pub Reachable-Unanswered :
    (prog : ProgramInterface) (r : Reachable prog)
    → Unanswered r.run
    → connected prog.fsm_state ≡ false
Reachable-Unanswered prog r n =
    Run-Unconnected r.run n (starts_disconnected r.options r.started r.processed)
