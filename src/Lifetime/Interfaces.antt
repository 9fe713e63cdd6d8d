-- ===== src/Lifetime/Interfaces.antt =====
-- programInterfaceInit() and programInterfaceDestroy() of src/libs/cleanUpMaster.c: the blocks of
-- memory that the program holds.
use ipk_project.Prelude.{[]}
use ipk_project.Outcome.{Outcome, ◌>>=◌}
use ipk_project.Lifetime.{
  Allocator, Block, malloc, free_block, DataBlock, data_block_init, data_destroy, OwnedQueue,
  owned_destroy,
}

-- the blocks that a ProgramInterface points to
pub record Interface : Type 0 where
  pub interface_at : Block
  -- ThreadCommunication
  pub threads : Block
  pub sending_queue : OwnedQueue
  pub sender_empty_queue_cond : Block
  pub sender_empty_queue_mutex : Block
  pub rec_to_sender_cond : Block
  pub rec_to_sender_mutex : Block
  pub main_cond : Block
  pub main_mutex : Block
  pub fsm_mutex : Block
  pub stdout_mutex : Block
  pub net_config : Block
  -- CommunicationDetails
  pub com_details : Block
  pub display_name : DataBlock
  pub channel_id : DataBlock
  -- CleanUp
  pub clean_up : Block
  pub client_input : DataBlock
  pub sended_by_main : DataBlock
  pub sended_by_receiver : DataBlock
  pub sended_by_sender : DataBlock
  pub server_response : DataBlock
  pub confirmed_messages : OwnedQueue

-- The calloc() of main() and programInterfaceInit().
unfoldable pub interface_init : Allocator → Interface × Allocator
interface_init s =
    let (interface_at, s) = malloc s in
    let (threads, s) = malloc s in
    let (queue, s) = malloc s in
    let (cond0, s) = malloc s in
    let (cond1, s) = malloc s in
    let (cond2, s) = malloc s in
    let (mutex0, s) = malloc s in
    let (mutex1, s) = malloc s in
    let (mutex2, s) = malloc s in
    let (mutex3, s) = malloc s in
    let (mutex4, s) = malloc s in
    let (net_config, s) = malloc s in
    let (com_details, s) = malloc s in
    let (clean_up, s) = malloc s in
    let (confirmed, s) = malloc s in
    (
      record {
        interface_at = interface_at;
        threads = threads;
        sending_queue = record { queue_at = queue; owners = [] };
        sender_empty_queue_cond = cond0;
        sender_empty_queue_mutex = mutex0;
        rec_to_sender_cond = cond1;
        rec_to_sender_mutex = mutex1;
        main_cond = cond2;
        main_mutex = mutex2;
        fsm_mutex = mutex3;
        stdout_mutex = mutex4;
        net_config = net_config;
        com_details = com_details;
        display_name = data_block_init;
        channel_id = data_block_init;
        clean_up = clean_up;
        client_input = data_block_init;
        sended_by_main = data_block_init;
        sended_by_receiver = data_block_init;
        sended_by_sender = data_block_init;
        server_response = data_block_init;
        confirmed_messages = record { queue_at = confirmed; owners = [] };
      },
      s,
    )

-- programInterfaceDestroy()
unfoldable pub interface_destroy : Interface → Allocator → Outcome Allocator
interface_destroy i s = do
  s ← data_destroy i.client_input s
  s ← data_destroy i.sended_by_main s
  s ← data_destroy i.sended_by_receiver s
  s ← data_destroy i.sended_by_sender s
  s ← data_destroy i.server_response s
  s ← owned_destroy i.confirmed_messages s
  s ← free_block i.clean_up s
  s ← data_destroy i.display_name s
  s ← data_destroy i.channel_id s
  s ← free_block i.com_details s
  s ← free_block i.net_config s
  s ← free_block i.fsm_mutex s
  s ← free_block i.stdout_mutex s
  s ← free_block i.main_mutex s
  s ← free_block i.main_cond s
  s ← free_block i.rec_to_sender_mutex s
  s ← free_block i.rec_to_sender_cond s
  s ← free_block i.sender_empty_queue_mutex s
  s ← free_block i.sender_empty_queue_cond s
  s ← owned_destroy i.sending_queue s
  s ← free_block i.threads s
  free_block i.interface_at s
