-- ===== src/Tests/Setup.antt =====
-- Examples for the start and the end of the program: the options, the connection and the memory.
use ipk_project.Prelude.{◌≡◌, refl, List, [], ◌∷◌, some, arith, true, All}
use ipk_project.Outcome.{ok}
use ipk_project.Memory.{store, read_cell}
use ipk_project.Utils.{string_replace, copy_loop}
use ipk_project.Buffer.{buffer_resize, put_byte}
use ipk_project.Program.{ProgramInterface, program_interface_init}
use ipk_project.Protocol.Blocks.{codes}
use ipk_project.Main.{CliOption, process_arguments, process_option, set_address, check_arguments}
use ipk_project.System.{main_start}
use ipk_project.Network.{NetworkCalls}
use ipk_project.Network.Options.{Configured, IsText, config_of, process_arguments-Configured}
use ipk_project.Network.Setup.{
  main_setup, main_setup-connected, defaults, address_at, start-Configured,
}
use ipk_project.Lifetime.Interfaces.{Interface, interface_init, interface_destroy}
use ipk_project.Lifetime.{Allocator}
use ipk_project.Lifetime.Usage.{Usage, BufferUse, QueueUse, Which, use_all}
use ipk_project.Lifetime.Destroy.{no_block, use_all-interface_destroy}
use ipk_project.Tests.Data.{value}

-- the command line -t tcp -s host -p 70000 -s me
abbrev options : List CliOption
options =
    CliOption.transport (codes "tcp")
    ∷ CliOption.server_address (codes "host")
    ∷ CliOption.port 70000
    ∷ CliOption.server_address (codes "me")
    ∷ []

options-IsText : All IsText options
options-IsText = (
  tt,
  (
    ((refl, (refl, (refl, (refl, tt)))), omega arith),
    (tt, (((refl, (refl, tt)), omega arith), tt)),
  ),
)

unfoldable started : ProgramInterface
started = value program_interface_init (main_start options)

abbrev calls : NetworkCalls
calls = record {
  socket = λ kind. some 3;
  gethostbyname = λ name. some (127 ∷ 0 ∷ 0 ∷ 1 ∷ []);
  connect = λ s address. true;
}

main_setup-connected_example :
    main_setup calls options
    ≡ ok (record {
      program = started;
      opened_socket = 3;
      server_address = address_at (config_of defaults options) (127 ∷ 0 ∷ 0 ∷ 1 ∷ []);
      connections = (3, address_at (config_of defaults options) (127 ∷ 0 ∷ 0 ∷ 1 ∷ [])) ∷ [];
    })
unfolding started main_start process_arguments process_option set_address check_arguments
    buffer_resize put_byte store string_replace copy_loop read_cell
main_setup-connected_example =
    main_setup-connected calls options started (codes "me") (127 ∷ 0 ∷ 0 ∷ 1 ∷ []) 3 options-IsText
      refl refl refl refl refl (λ tcp. refl)

unfoldable processed : ProgramInterface
processed = value program_interface_init (process_arguments program_interface_init options)

process_arguments-Configured_example : Configured processed (config_of defaults options)
unfolding processed process_arguments process_option set_address buffer_resize put_byte store
    string_replace copy_loop read_cell
process_arguments-Configured_example =
    process_arguments-Configured program_interface_init processed options defaults start-Configured
      options-IsText refl

-- what is done to the buffers and the queues in a short run
abbrev usage : List Usage
usage =
    Usage.of_buffer Which.client_input (BufferUse.resize 256)
    ∷ Usage.of_buffer Which.display_name (BufferUse.resize 3)
    ∷ Usage.of_sending (QueueUse.add 20)
    ∷ Usage.of_sending (QueueUse.add_priority 3)
    ∷ Usage.of_confirmed (QueueUse.add_only_id 8)
    ∷ Usage.of_sending QueueUse.pop
    ∷ Usage.of_buffer Which.client_input (BufferUse.resize 512)
    ∷ []

use_all-interface_destroy_example :
    (i : Interface) × (s : Allocator) × (s' : Allocator) × (use_all usage
        (interface_init no_block).0
        (interface_init no_block).1
      ≡ ok (i, s))
    × (interface_destroy i s ≡ ok s')
    × (s'.live ≡ [])
use_all-interface_destroy_example =
    use_all-interface_destroy usage (tt, (tt, (tt, (tt, (omega arith, (tt, (tt, tt)))))))
