-- ===== src/Main/Options.antt =====
-- processArguments() and the checks of main() in src/main.c.
use ipk_project.Prelude.{◌≡◌, ◌<◌, ◌^◌, sym, subst, ◌∙◌, true, false, ltb, ap, List, [], ◌∷◌, arith}
use ipk_project.Outcome.{ok, >>=-Between}
use ipk_project.Utils.Types.{Fsm, fsm_code}
use ipk_project.Program.{ProgramInterface}
use ipk_project.Main.{
  CliOption, process_arguments, process_option, MainLoop, eof_round, user_command_round,
  user_command_test,
}
use ipk_project.Sender.{Others}
use ipk_project.Receiver.Frame.{send_bye-state}

-- The numbers of the configuration are those of their types.
pub record InRange (prog : ProgramInterface) : Type 0 where
  pub port : prog.port_number < 2 ^ 16
  pub timeout : prog.udp_timeout < 2 ^ 16
  pub retries : prog.udp_max_retries < 2 ^ 8

done : (prog p : ProgramInterface) → ok prog ≡ ok p → prog ≡ p
done prog p h = ground arith

option-InRange :
    (prog : ProgramInterface) (o : CliOption) (p : ProgramInterface)
    → InRange prog
    → process_option prog o ≡ ok p
    → InRange p × (p.fsm_state ≡ prog.fsm_state)
unfolding process_option
option-InRange prog o p r h =
    let port = r.port in
    let timeout = r.timeout in
    let retries = r.retries in
    (record { port = ground arith; timeout = ground arith; retries = ground arith }, ground arith)

-- With the numbers in the ranges of their types before, a command line that is accepted leaves them
-- in these ranges, whatever the options are, and the state as it was.
pub process_arguments-InRange :
    (prog : ProgramInterface) (options : List CliOption) (p : ProgramInterface)
    → InRange prog
    → process_arguments prog options ≡ ok p
    → InRange p × (p.fsm_state ≡ prog.fsm_state)
unfolding process_arguments
process_arguments-InRange prog [] p r h =
    let same = done prog p h in
    (subst InRange same r, ap (λ (x : ProgramInterface). x.fsm_state) (sym same))
process_arguments-InRange prog (o ∷ options) p r h =
    let (q, e, k) = >>=-Between (process_option prog o) _ h in
    let first = option-InRange prog o q r e in
    let rest = process_arguments-InRange q options p first.0 k in (rest.0, rest.1 ∙ first.1)

eof_round-state :
    (loop q : MainLoop)
    → eof_round loop ≡ ok q
    → (q.program.fsm_state ≡ Fsm.empty_q_bye) × (q.program.sending_queue.lock ≡ false)
unfolding eof_round
eof_round-state loop q h = grind (arith, send_bye-state)

-- After the end of the input a round of the main loop that returns leaves the state EMPTY_Q_BYE and
-- the lock of the sending queue free, and the loop ends.
pub user_command_round-eof :
    (loop : MainLoop) (others : Others) (r : MainLoop × Others)
    → loop.eof_detected ≡ true
    → user_command_round loop others ≡ ok r
    → (r.0.program.fsm_state ≡ Fsm.empty_q_bye)
      × (r.0.program.sending_queue.lock ≡ false)
      × (user_command_test r.0.program ≡ false)
unfolding user_command_round user_command_test
user_command_round-eof loop others r eof h =
    let (q, e, k) =
      >>=-Between (eof_round loop) (λ loop. ok (loop, others))
        (rw (user_command_round, eof) at h) in
    let s = eof_round-state loop q e in
    let same : q ≡ r.0 = ground arith in
    subst
      (λ (x : MainLoop).
        (x.program.fsm_state ≡ Fsm.empty_q_bye)
        × (x.program.sending_queue.lock ≡ false)
        × (user_command_test x.program ≡ false))
      same (s.0, s.1, ap (λ f. ltb (fsm_code f) 7) s.0)
