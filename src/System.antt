-- ===== src/System.antt =====
-- The threads of the program together, from the options of the command line on: src/main.c,
-- src/protocolReceiver.c, src/protocolSender.c and src/libs/cleanUpMaster.c. A move is a whole round
-- of a thread's loop, and what the other threads do while it waits is a run of moves again. The
-- locals of a thread, and what the network and the user deliver, are arbitrary in each move.
pub mod Reaching
pub mod Exchange
use Prim.Native.String.{String}
use ipk_project.Prelude.{ℕ, ◌≡◌, Bool, true, not, List, [], ◌∷◌}
use ipk_project.Outcome.{Outcome, ok, ErrorCode, ◌>>=◌}
use ipk_project.Utils.Types.{Fsm, fsm_eq}
use ipk_project.Program.{ProgramInterface, program_interface_init}
use ipk_project.Receiver.{ReceiverLocals, receiver_round, receiver_start}
use ipk_project.Sender.{Others, sender_round}
use ipk_project.Main.{
  MainLoop, user_command_round, user_command_test, err_handling, sigint_handler, CliOption,
  process_arguments, check_arguments,
}

-- whether the loops of the receiver and of the sender go on
unfoldable pub thread_test : ProgramInterface → Bool
thread_test prog = not (fsm_eq prog.fsm_state Fsm.end_state)

-- main() up to the socket and the threads
unfoldable pub main_start : List CliOption → Outcome ProgramInterface
main_start options = do
  prog ← process_arguments program_interface_init options
  check_arguments prog

mutual
  -- One round of a thread, the start of the receiver, or one of the ways to the end.
  pub data Move : ProgramInterface → ProgramInterface → Type 0 where
    receiver_starts : {prog : ProgramInterface} → Move prog (receiver_start prog)
    receive :
        {prog : ProgramInterface} (locals : ReceiverLocals) (received : List ℕ)
        (r : ProgramInterface × ReceiverLocals)
        → thread_test prog ≡ true
        → receiver_round prog locals received ≡ ok r
        → Move prog r.0
    send :
        {prog : ProgramInterface} (delivered : Bool) (others : Others)
        (r : ProgramInterface × Others)
        → thread_test prog ≡ true
        → Turns others
        → sender_round prog delivered others ≡ ok r
        → Move prog r.0
    command :
        (loop : MainLoop) (others : Others) (r : MainLoop × Others)
        → user_command_test loop.program ≡ true
        → Turns others
        → user_command_round loop others ≡ ok r
        → Move loop.program r.0.program
    fail :
        {prog : ProgramInterface} (msg : String) (code : ErrorCode) (others : Others)
        (r : ProgramInterface × Others)
        → Turns others
        → err_handling prog msg code others ≡ ok r
        → Move prog r.0
    interrupt :
        {prog : ProgramInterface} (others : Others) (r : ProgramInterface × Others)
        → Turns others
        → sigint_handler prog others ≡ ok r
        → Move prog r.0

  pub data Run : ProgramInterface → ProgramInterface → Type 0 where
    stay : {prog : ProgramInterface} → Run prog prog
    move : {p q r : ProgramInterface} → Run p q → Move q r → Run p r

  -- In every wait the other threads make a run.
  pub data Turns : Others → Type 0 where
    no_more : Turns []
    turn :
        {other : ProgramInterface → ProgramInterface} {others : Others}
        → ((q : ProgramInterface) → Run q (other q))
        → Turns others
        → Turns (other ∷ others)

-- a program that the options and a run lead to
pub record Reachable (prog : ProgramInterface) : Type 0 where
  pub options : List CliOption
  pub started : ProgramInterface
  pub processed : main_start options ≡ ok started
  pub run : Run started prog
