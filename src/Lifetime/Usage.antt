-- ===== src/Lifetime/Usage.antt =====
-- What the program does with the memory of its buffers and queues: src/libs/buffer.c and
-- src/libs/msgQueue.c called on the parts of the ProgramInterface.
use ipk_project.Prelude.{◌≤◌, ℕ, List, [], ◌∷◌}
use ipk_project.Outcome.{ok, ◌>>=◌}
use ipk_project.Lifetime.Interfaces.{Interface}
use ipk_project.Lifetime.{
  Allocator, Allocating, DataBlock, data_resize, data_copy, OwnedQueue, owned_add_message,
  owned_add_message_priority, owned_add_message_only_id, owned_pop_message, owned_pop_all_messages,
}

-- a buffer of the program
pub data Which : Type 0 where
  client_input by_main by_receiver by_sender server_response display_name channel_id : Which

-- what is done to a buffer
pub data BufferUse : Type 0 where
  resize : ℕ → BufferUse
  copy : ℕ → BufferUse

abbrev pub use_buffer : BufferUse → DataBlock → Allocator → Allocating DataBlock
use_buffer (BufferUse.resize n) b s = data_resize b n s
use_buffer (BufferUse.copy used) b s = data_copy b used s

-- what is done to a queue
pub data QueueUse : Type 0 where
  add : ℕ → QueueUse
  add_priority : ℕ → QueueUse
  add_only_id : ℕ → QueueUse
  pop : QueueUse
  pop_all : QueueUse

abbrev pub use_queue : QueueUse → OwnedQueue → Allocator → Allocating OwnedQueue
use_queue (QueueUse.add used) q s = owned_add_message q used s
use_queue (QueueUse.add_priority used) q s = owned_add_message_priority q used s
use_queue (QueueUse.add_only_id used) q s = owned_add_message_only_id q used s
use_queue QueueUse.pop q s = owned_pop_message q s
use_queue QueueUse.pop_all q s = owned_pop_all_messages q s

pub data Usage : Type 0 where
  of_buffer : Which → BufferUse → Usage
  of_sending : QueueUse → Usage
  of_confirmed : QueueUse → Usage

abbrev pub get_buffer : Which → Interface → DataBlock
get_buffer Which.client_input i = i.client_input
get_buffer Which.by_main i = i.sended_by_main
get_buffer Which.by_receiver i = i.sended_by_receiver
get_buffer Which.by_sender i = i.sended_by_sender
get_buffer Which.server_response i = i.server_response
get_buffer Which.display_name i = i.display_name
get_buffer Which.channel_id i = i.channel_id

abbrev pub set_buffer : Which → Interface → DataBlock → Interface
set_buffer Which.client_input i b = record i { client_input = b }
set_buffer Which.by_main i b = record i { sended_by_main = b }
set_buffer Which.by_receiver i b = record i { sended_by_receiver = b }
set_buffer Which.by_sender i b = record i { sended_by_sender = b }
set_buffer Which.server_response i b = record i { server_response = b }
set_buffer Which.display_name i b = record i { display_name = b }
set_buffer Which.channel_id i b = record i { channel_id = b }

abbrev pub use_once : Usage → Interface → Allocator → Allocating Interface
use_once (Usage.of_buffer w u) i s =
    use_buffer u (get_buffer w i) s >>= (λ r. ok (set_buffer w i r.0, r.1))
use_once (Usage.of_sending u) i s =
    use_queue u i.sending_queue s >>= (λ r. ok (record i { sending_queue = r.0 }, r.1))
use_once (Usage.of_confirmed u) i s =
    use_queue u i.confirmed_messages s >>= (λ r. ok (record i { confirmed_messages = r.0 }, r.1))

unfoldable pub use_all : List Usage → Interface → Allocator → Allocating Interface
use_all [] i s = ok (i, s)
use_all (u ∷ us) i s = use_once u i s >>= (λ r. use_all us r.0 r.1)

-- queueAddMessageOnlyID() gets a buffer with an ID.
abbrev pub HasId : QueueUse → Type 0
HasId (QueueUse.add_only_id used) = 3 ≤ used
HasId _ = Unit

abbrev pub Allowed : Usage → Type 0
Allowed (Usage.of_buffer w u) = Unit
Allowed (Usage.of_sending u) = HasId u
Allowed (Usage.of_confirmed u) = HasId u
