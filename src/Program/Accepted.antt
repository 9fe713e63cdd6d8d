-- ===== src/Program/Accepted.antt =====
-- The states of a client that the server accepted, and whether "Success: " was printed.
use Prim.Native.String.{String}
use Prim.Native.Char.{code}
use ipk_project.Prelude.{ℕ, ◌≡◌, refl, Bool, true, false, ◌&&◌, ◌||◌, List, [], ◌∷◌, ◌==◌}
use ipk_project.Utils.Types.{Fsm}
use ipk_project.Program.{Event, Stream, ProgramInterface, print_stderr}

abbrev same_string : String → String → Bool
same_string String.[] String.[] = true
same_string (String.◌∷◌ c s) (String.◌∷◌ d t) = code c == code d && same_string s t
same_string _ _ = false

abbrev pub is_success : Event → Bool
is_success (Event.printed_string stream prefix text) = same_string prefix "Success: "
is_success _ = false

abbrev pub success_printed : List Event → Bool
success_printed [] = false
success_printed (e ∷ es) = is_success e || success_printed es

-- Another trace, with as much success in it.
pub record Logged (prog prog' : ProgramInterface) : Type 0 where
  pub same : prog' ≡ record prog { trace = prog'.trace }
  pub success : success_printed prog'.trace ≡ success_printed prog.trace

pub kept : {prog : ProgramInterface} → Logged prog prog
kept = record { same = refl; success = refl }

pub printed : {prog : ProgramInterface} (text : String) → Logged prog (print_stderr prog text)
printed text = record { same = refl; success = refl }

test_success :
    (text : List ℕ) (es : List Event)
    → success_printed (Event.printed_string Stream.stderr "Success: " text ∷ es) ≡ true
test_success text es = refl

test_failure :
    (text : List ℕ) (es : List Event)
    → success_printed (Event.printed_string Stream.stderr "Failure: " text ∷ es)
      ≡ success_printed es
test_failure text es = refl

-- the states of a client that the server accepted
abbrev pub connected : Fsm → Bool
connected Fsm.w84_reply_conf = true
connected Fsm.open_state = true
connected Fsm.join_atempt = true
connected _ = false

-- The client is in none of these states.
abbrev pub Unconnected : ProgramInterface → Type 0
Unconnected prog = connected prog.fsm_state ≡ false
