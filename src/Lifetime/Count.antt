-- ===== src/Lifetime/Count.antt =====
-- The blocks of a ProgramInterface (src/libs/programInterface.h), counted.
use ipk_project.Prelude.{◌≡◌, refl, ◌+◌, List, [], ◌∷◌, ◌++◌, arith}
use ipk_project.Lifetime.Interfaces.{Interface}
use ipk_project.Lifetime.{Block, DataBlock, data_block_init, OwnedQueue}
use ipk_project.Lifetime.Owns.{optional, count, count-append}
use ipk_project.Lifetime.Queue.{queue_blocks}
use ipk_project.Lifetime.Usage.{Which, get_buffer, set_buffer}

-- what is destroyed between the buffers of CommunicationDetails and the sending queue
abbrev pub structures : Interface → List Block
structures i =
    i.com_details ∷ i.net_config ∷ i.fsm_mutex ∷ i.stdout_mutex ∷ i.main_mutex ∷ i.main_cond
    ∷ i.rec_to_sender_mutex ∷ i.rec_to_sender_cond ∷ i.sender_empty_queue_mutex
    ∷ i.sender_empty_queue_cond ∷ []

-- the blocks of a ProgramInterface, in the order in which it is destroyed
abbrev pub interface_blocks : Interface → List Block
interface_blocks i =
    optional i.client_input.data_at
    ++ (optional i.sended_by_main.data_at
        ++ (optional i.sended_by_receiver.data_at
            ++ (optional i.sended_by_sender.data_at
                ++ (optional i.server_response.data_at
                    ++ (queue_blocks i.confirmed_messages
                        ++ (i.clean_up
                            ∷ (optional i.display_name.data_at
                                ++ (optional i.channel_id.data_at
                                    ++ (structures i
                                        ++ (queue_blocks i.sending_queue
                                            ++ (i.threads ∷ i.interface_at ∷ [])))))))))))

-- the blocks that are never replaced
unfoldable pub fixed_blocks : Interface → List Block
fixed_blocks i = i.clean_up ∷ (structures i ++ (i.threads ∷ i.interface_at ∷ []))

buffers_blocks : Interface → List Block
buffers_blocks i =
    optional i.client_input.data_at
    ++ (optional i.sended_by_main.data_at
        ++ (optional i.sended_by_receiver.data_at
            ++ (optional i.sended_by_sender.data_at
                ++ (optional i.server_response.data_at
                    ++ (optional i.display_name.data_at ++ optional i.channel_id.data_at)))))

-- all blocks but those of one of the queues; `q` is the other
pub beside : OwnedQueue → Interface → List Block
beside q i = buffers_blocks i ++ (queue_blocks q ++ fixed_blocks i)

count_buffers :
    (a : Block) (i : Interface)
    → count a (buffers_blocks i)
      ≡ count a (optional i.client_input.data_at)
        + count a (optional i.sended_by_main.data_at)
        + count a (optional i.sended_by_receiver.data_at)
        + count a (optional i.sended_by_sender.data_at)
        + count a (optional i.server_response.data_at)
        + count a (optional i.display_name.data_at)
        + count a (optional i.channel_id.data_at)
unfolding buffers_blocks
count_buffers a i =
    let channel = optional i.channel_id.data_at in
    let t1 = optional i.display_name.data_at ++ channel in
    let t2 = optional i.server_response.data_at ++ t1 in
    let t3 = optional i.sended_by_sender.data_at ++ t2 in
    let t4 = optional i.sended_by_receiver.data_at ++ t3 in
    let t5 = optional i.sended_by_main.data_at ++ t4 in
    omega (
      arith,
      count-append a (optional i.display_name.data_at) channel,
      count-append a (optional i.server_response.data_at) t1,
      count-append a (optional i.sended_by_sender.data_at) t2,
      count-append a (optional i.sended_by_receiver.data_at) t3,
      count-append a (optional i.sended_by_main.data_at) t4,
      count-append a (optional i.client_input.data_at) t5,
    )

pub count-beside :
    (a : Block) (p q : OwnedQueue) (i : Interface)
    → count a (queue_blocks p ++ beside q i)
      ≡ count a (queue_blocks p)
        + count a (queue_blocks q)
        + count a (fixed_blocks i)
        + (count a (optional i.client_input.data_at)
            + count a (optional i.sended_by_main.data_at)
            + count a (optional i.sended_by_receiver.data_at)
            + count a (optional i.sended_by_sender.data_at)
            + count a (optional i.server_response.data_at)
            + count a (optional i.display_name.data_at)
            + count a (optional i.channel_id.data_at))
unfolding beside
count-beside a p q i = omega (
  arith,
  count_buffers a i,
  count-append a (queue_blocks p) (beside q i),
  count-append a (buffers_blocks i) (queue_blocks q ++ fixed_blocks i),
  count-append a (queue_blocks q) (fixed_blocks i),
)

pub count_interface :
    (a : Block) (i : Interface)
    → count a (interface_blocks i)
      ≡ count a (optional i.client_input.data_at)
        + count a (optional i.sended_by_main.data_at)
        + count a (optional i.sended_by_receiver.data_at)
        + count a (optional i.sended_by_sender.data_at)
        + count a (optional i.server_response.data_at)
        + count a (queue_blocks i.confirmed_messages)
        + count a (optional i.display_name.data_at)
        + count a (optional i.channel_id.data_at)
        + count a (queue_blocks i.sending_queue)
        + count a (fixed_blocks i)
unfolding fixed_blocks
count_interface a i =
    let tail = i.threads ∷ i.interface_at ∷ [] in
    let t1 = queue_blocks i.sending_queue ++ tail in
    let t2 = structures i ++ t1 in
    let t3 = optional i.channel_id.data_at ++ t2 in
    let t4 = optional i.display_name.data_at ++ t3 in
    let t5 = queue_blocks i.confirmed_messages ++ (i.clean_up ∷ t4) in
    let t6 = optional i.server_response.data_at ++ t5 in
    let t7 = optional i.sended_by_sender.data_at ++ t6 in
    let t8 = optional i.sended_by_receiver.data_at ++ t7 in
    let t9 = optional i.sended_by_main.data_at ++ t8 in
    omega (
      arith,
      count-append a (queue_blocks i.sending_queue) tail,
      count-append a (structures i) t1,
      count-append a (optional i.channel_id.data_at) t2,
      count-append a (optional i.display_name.data_at) t3,
      count-append a (queue_blocks i.confirmed_messages) (i.clean_up ∷ t4),
      count-append a (optional i.server_response.data_at) t5,
      count-append a (optional i.sended_by_sender.data_at) t6,
      count-append a (optional i.sended_by_receiver.data_at) t7,
      count-append a (optional i.sended_by_main.data_at) t8,
      count-append a (optional i.client_input.data_at) t9,
      count-append a (structures i) tail,
    )

pub counted :
    (w : Which) (i : Interface) (b : DataBlock) (a : Block)
    → count a (interface_blocks (set_buffer w i b))
      ≡ count a (optional b.data_at) + count a (interface_blocks (set_buffer w i data_block_init))
unfolding fixed_blocks
counted Which.client_input i b a = omega (
  arith,
  count_interface a (set_buffer Which.client_input i b),
  count_interface a (set_buffer Which.client_input i data_block_init),
)
counted Which.by_main i b a = omega (
  arith,
  count_interface a (set_buffer Which.by_main i b),
  count_interface a (set_buffer Which.by_main i data_block_init),
)
counted Which.by_receiver i b a = omega (
  arith,
  count_interface a (set_buffer Which.by_receiver i b),
  count_interface a (set_buffer Which.by_receiver i data_block_init),
)
counted Which.by_sender i b a = omega (
  arith,
  count_interface a (set_buffer Which.by_sender i b),
  count_interface a (set_buffer Which.by_sender i data_block_init),
)
counted Which.server_response i b a = omega (
  arith,
  count_interface a (set_buffer Which.server_response i b),
  count_interface a (set_buffer Which.server_response i data_block_init),
)
counted Which.display_name i b a = omega (
  arith,
  count_interface a (set_buffer Which.display_name i b),
  count_interface a (set_buffer Which.display_name i data_block_init),
)
counted Which.channel_id i b a = omega (
  arith,
  count_interface a (set_buffer Which.channel_id i b),
  count_interface a (set_buffer Which.channel_id i data_block_init),
)

pub set-get : (w : Which) (i : Interface) → set_buffer w i (get_buffer w i) ≡ i
set-get Which.client_input i = refl
set-get Which.by_main i = refl
set-get Which.by_receiver i = refl
set-get Which.by_sender i = refl
set-get Which.server_response i = refl
set-get Which.display_name i = refl
set-get Which.channel_id i = refl
