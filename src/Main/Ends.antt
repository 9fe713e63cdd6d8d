-- ===== src/Main/Ends.antt =====
-- errHandling() of src/main.c and sigintHandler() of src/libs/cleanUpMaster.c: how the program is
-- brought to its end.
use ipk_project.Prelude.{◌≡◌, false, arith, ◌∷◌}
use ipk_project.Outcome.{ok}
use ipk_project.Utils.Types.{Fsm}
use ipk_project.Queue.{queue_lock, queue_unlock}
use ipk_project.Program.{ProgramInterface}
use ipk_project.Receiver.Frame.{send_bye-state}
use ipk_project.Sender.{Others}
use ipk_project.Main.{sigint_handler}

-- Where sigintHandler() comes to its wait, and nothing happens in it, the state is SIGINT_BYE and
-- the lock of the sending queue is free.
pub sigint_handler-state :
    (prog : ProgramInterface) (others : Others) (r : ProgramInterface × Others)
    → sigint_handler prog ((λ p. p) ∷ others) ≡ ok r
    → (r.0.fsm_state ≡ Fsm.sigint_bye) × (r.0.sending_queue.lock ≡ false)
unfolding sigint_handler queue_lock queue_unlock
sigint_handler-state prog others r h = grind (arith, send_bye-state)
