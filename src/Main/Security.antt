-- ===== src/Main/Security.antt =====
-- The main thread of src/main.c, by its loop and by its ends, keeps a client that is not connected so.
use ipk_project.Prelude.{◌≡◌, refl, ap, Bool, true, false, arith, if◌then◌else◌, not, [], ◌∷◌}
use ipk_project.Outcome.{
  Outcome, ok, ErrorCode, ◌>>=◌, Ensures, Ensures-weaken, Ensures-then, Ensures-bind, Ensures-if,
  Ensures-intro, Ensures-elim, Ensures-ok, returns, hangs,
}
use Prim.Native.String.{String}
use ipk_project.Utils.Types.{Fsm}
use ipk_project.Buffer.{Buffer, load_buffer_from_stdin}
use ipk_project.Queue.{queue_lock, queue_unlock}
use ipk_project.Program.{ProgramInterface, Condition, signal, set_program_state, print_stderr}
use ipk_project.Program.Accepted.{kept, Unconnected, Logged}
use ipk_project.Protocol.Blocks.{ProtocolBlocks}
use ipk_project.Protocol.Assemble.{Assembled}
use ipk_project.Protocol.Assemble.Frame.{Keeps}
use ipk_project.Protocol.Input.{user_input_to_cmds}
use ipk_project.Receiver.Frame.{assemble-Keeps, send_bye-Same}
use ipk_project.Receiver.Send.{assemble, send_bye}
use ipk_project.Queue.Types.{MsgFlags}
use ipk_project.Sender.{Others, wait}
use ipk_project.Sender.Security.{AllUnconnected, UnconnectedWaited}
use ipk_project.Main.{
  filter_commands_by_fsm, Filtered, enqueue, after_assembly, eof_round, user_command_round,
  MainLoop, add_events, sigint_handler, err_handling, clear_queue,
}

filter-Unconnected :
    (blocks : ProtocolBlocks) (prog : ProgramInterface) (flags : MsgFlags) (f : Filtered)
    → filter_commands_by_fsm blocks prog flags ≡ ok f
    → Unconnected prog
    → Unconnected f.program
unfolding filter_commands_by_fsm
filter-Unconnected blocks prog flags f h s = ground arith

-- Assembling and its like keep the state.
Logged-Unconnected : {prog p : ProgramInterface} → Logged prog p → Unconnected prog → Unconnected p
Logged-Unconnected {prog} {p} k s =
    let state : p.fsm_state ≡ prog.fsm_state = ap (λ (x : ProgramInterface). x.fsm_state) k.same in
    rw state s

assemble-Unconnected :
    (bs : ProtocolBlocks) (b : Buffer) (prog : ProgramInterface) (neither : Outcome Assembled)
    → Ensures (Keeps prog) neither
    → Unconnected prog
    → Ensures (λ a. Unconnected a.program) (assemble bs b prog neither)
assemble-Unconnected bs b prog neither h s =
    Ensures-weaken (assemble-Keeps bs b prog neither h) λ a k. Logged-Unconnected k s

enqueue-Unconnected :
    (prog : ProgramInterface) (a : Assembled) (flags : MsgFlags) (p : ProgramInterface)
    → enqueue prog a flags ≡ ok p
    → Unconnected prog
    → Unconnected p
unfolding enqueue queue_lock queue_unlock
enqueue-Unconnected prog a flags p h s = ground arith

wait-Unconnected :
    (prog : ProgramInterface) (others : Others)
    → Unconnected prog
    → AllUnconnected others
    → Ensures UnconnectedWaited (wait prog others)
wait-Unconnected prog [] s a = hangs
wait-Unconnected prog (other ∷ others) s a = returns (a.0 prog s, a.1)

abbrev UnconnectedLoop : MainLoop × Others → Type 0
UnconnectedLoop r = Unconnected r.0.program × AllUnconnected r.1

leaving-Unconnected :
    (prog : ProgramInterface) (leaves : Bool)
    → Unconnected prog
    → Unconnected (
        if leaves
        then signal (set_program_state prog Fsm.empty_q_bye) Condition.sender_empty_queue
        else prog)
leaving-Unconnected prog true s = refl
leaving-Unconnected prog false s = s

after_assembly-Unconnected :
    (loop : MainLoop) (a : Assembled) (flags : MsgFlags) (others : Others)
    → Unconnected a.program
    → AllUnconnected others
    → Ensures UnconnectedLoop (after_assembly loop a flags others)
unfolding after_assembly
after_assembly-Unconnected loop a flags others s all =
    let prog : ProgramInterface = record a.program { sended_by_main = a.buffer } in
    Ensures-bind
      (Ensures-intro {P = Unconnected} (enqueue prog a flags)
        λ p h. enqueue-Unconnected prog a flags p h s)
      λ p s'.
        Ensures-bind (wait-Unconnected _ others (leaving-Unconnected p _ s') all) λ w t. returns t

bye-Unconnected : (prog : ProgramInterface) → Unconnected prog → Ensures Unconnected (send_bye prog)
bye-Unconnected prog s =
    Ensures-weaken (send_bye-Same prog) λ p k. let state = k.state in rw state s

eof_round-Unconnected :
    (loop : MainLoop) → Ensures (λ (l : MainLoop). Unconnected l.program) (eof_round loop)
unfolding eof_round
eof_round-Unconnected loop =
    Ensures-bind (bye-Unconnected (set_program_state loop.program Fsm.empty_q_bye) refl)
      λ p s. returns s

round-Unconnected :
    (loop : MainLoop) (others : Others)
    → Unconnected loop.program
    → AllUnconnected others
    → Ensures UnconnectedLoop (user_command_round loop others)
unfolding user_command_round
round-Unconnected loop others s all =
    Ensures-elim loop.eof_detected _ _
      (Ensures-bind (eof_round-Unconnected loop) λ l s'. returns (s', all))
      (Ensures-then (load_buffer_from_stdin loop.program.client_input false loop.input) _ λ r.
        let filled : Buffer = record r.0 { used = r.1 } in
        Ensures-then (user_input_to_cmds filled loop.blocks MsgFlags.no_flag) _ λ p.
          let read : ProgramInterface =
            add_events p.events (record loop.program { client_input = filled }) in
          Ensures-bind
            (Ensures-intro (filter_commands_by_fsm p.blocks read p.flags)
              λ f h. filter-Unconnected p.blocks read p.flags f h s)
            λ f fs. Ensures-if (not f.can_be_sended) _ _ (returns (fs, all)) (
              Ensures-bind
                (assemble-Unconnected p.blocks f.program.sended_by_main f.program _ (returns kept)
                  fs)
                λ a t. Ensures-if (not a.can_be_sended) _ _ (returns (t, all)) (
                  after_assembly-Unconnected
                    record {
                      program = f.program;
                      input = r.3;
                      eof_detected = r.2;
                      blocks = p.blocks;
                    }
                    a f.flags others t all)))

-- A round of the main thread that returns keeps a client that is not connected so, where the other threads do so in
-- its wait.
pub user_command_round-Unconnected :
    (loop : MainLoop) (others : Others) (r : MainLoop × Others)
    → user_command_round loop others ≡ ok r
    → Unconnected loop.program
    → AllUnconnected others
    → UnconnectedLoop r
user_command_round-Unconnected loop others r h s all =
    Ensures-ok (round-Unconnected loop others s all) h

clear-state :
    (prog p : ProgramInterface)
    → clear_queue prog ≡ ok p
    → (p.fsm_state ≡ prog.fsm_state) × (p.trace ≡ prog.trace)
unfolding clear_queue queue_lock queue_unlock
clear-state prog p h = ground arith

-- SIGINT leaves no client connected.
pub sigint_handler-Unconnected :
    (prog : ProgramInterface) (others : Others) (r : ProgramInterface × Others)
    → sigint_handler prog others ≡ ok r
    → AllUnconnected others
    → UnconnectedWaited r
unfolding sigint_handler
sigint_handler-Unconnected prog others r h all =
    let stopped = signal (set_program_state prog Fsm.sigint_bye) Condition.main_cond in
    Ensures-ok
      (Ensures-bind
        (Ensures-intro {P = Unconnected} (clear_queue stopped)
          λ p e. rw (clear-state stopped p e).0 refl)
        λ p s. Ensures-bind (bye-Unconnected p s) λ p' s'. wait-Unconnected _ others s' all)
      h

internal-Unconnected :
    (prog : ProgramInterface) (msg : String) (others : Others)
    → AllUnconnected others
    → Ensures UnconnectedWaited (
        clear_queue
          (signal (print_stderr (set_program_state prog Fsm.err_state) msg) Condition.main_cond)
        >>= λ prog. send_bye prog >>= λ prog. wait prog others)
internal-Unconnected prog msg others all =
    let failed =
      signal (print_stderr (set_program_state prog Fsm.err_state) msg) Condition.main_cond in
    Ensures-bind
      (Ensures-intro {P = Unconnected} (clear_queue failed)
        λ p e. rw (clear-state failed p e).0 refl)
      λ p s. Ensures-bind (bye-Unconnected p s) λ p' s'. wait-Unconnected p' others s' all

-- An error leaves no client connected, or the state as it was.
pub err_handling-Unconnected :
    (prog : ProgramInterface) (msg : String) (code : ErrorCode) (others : Others)
    (r : ProgramInterface × Others)
    → err_handling prog msg code others ≡ ok r
    → Unconnected prog
    → AllUnconnected others
    → UnconnectedWaited r
unfolding err_handling
err_handling-Unconnected prog msg ErrorCode.internal_unexpected_result others r h s all =
    Ensures-ok (internal-Unconnected prog msg others all) h
err_handling-Unconnected prog msg ErrorCode.internal_bad_arg others r h s all =
    Ensures-ok (internal-Unconnected prog msg others all) h
err_handling-Unconnected prog msg _ others r h s all =
    Ensures-ok {P = UnconnectedWaited} (returns {a = (print_stderr prog msg, others)} (s, all)) h
