-- ===== src/Tests/Linked.antt =====
-- Examples for the linked list of msgQueue.c.
use ipk_project.Prelude.{◌≡◌, refl, List, [], ◌∷◌}
use ipk_project.Outcome.{ok}
use ipk_project.Memory.{store, read, read_cell}
use ipk_project.Utils.{copy_loop, break_u16_int_to_bytes}
use ipk_project.Buffer.{buffer_copy, buffer_resize, put_byte}
use ipk_project.Queue.{
  MessageQueue, queue_init, create_message, id_message, queue_add_message,
  queue_add_message_priority, queue_add_message_only_id, queue_pop_message, queue_length,
  queue_get_message, contains_id, buffer_at, queue_message_sended, queue_set_message_id,
  queue_set_message_flags, write_id, queue_get_sended_counter, queue_get_message_id,
  queue_get_message_flags, queue_get_message_msg_type,
}
use ipk_project.Queue.Types.{MsgFlags}
use ipk_project.Queue.Linked.{
  Linked, empty_heap, linked_queue_init, linked_get_message, linked_contains,
  linked_get_sended_counter, linked_get_message_id, linked_get_message_flags,
  linked_get_message_msg_type,
}
use ipk_project.Queue.Linked.First.{Represents}
use ipk_project.Queue.Linked.Refinement.{
  Operation, list_run, run_on_list, nodes_run, nodes_run-Represents, reads-Represents,
}
use ipk_project.Tests.Data.{value, full}

abbrev operations : List Operation
operations =
    Operation.add_message (full (4 ∷ 7 ∷ 1 ∷ [])) MsgFlags.no_flag 4
    ∷ Operation.set_message_id 300
    ∷ Operation.message_sended
    ∷ Operation.add_message_only_id (full (4 ∷ 7 ∷ 1 ∷ [])) 4
    ∷ Operation.add_message_priority (full (0 ∷ 9 ∷ 9 ∷ [])) MsgFlags.confirm 0
    ∷ Operation.pop_message
    ∷ Operation.set_message_flags MsgFlags.rejected
    ∷ []

unfoldable listed : MessageQueue
listed = value queue_init (list_run operations queue_init)

nodes_run-Represents_example :
    (l : Linked) × (nodes_run operations (empty_heap, linked_queue_init) ≡ ok l)
    × Represents l listed
unfolding listed list_run run_on_list queue_add_message queue_add_message_priority
    queue_add_message_only_id queue_pop_message id_message create_message buffer_copy buffer_resize
    queue_message_sended queue_set_message_id queue_set_message_flags write_id
    break_u16_int_to_bytes put_byte buffer_at store read read_cell copy_loop
nodes_run-Represents_example = nodes_run-Represents operations listed refl

-- the queue of nodes that this leaves, and its list
built :
    (l : Linked) × (nodes_run operations (empty_heap, linked_queue_init) ≡ ok l)
    × Represents l listed
unfolding listed list_run run_on_list queue_add_message queue_add_message_priority
    queue_add_message_only_id queue_pop_message id_message create_message buffer_copy buffer_resize
    queue_message_sended queue_set_message_id queue_set_message_flags write_id
    break_u16_int_to_bytes put_byte buffer_at store read read_cell copy_loop
built = nodes_run-Represents operations listed refl

reads-Represents_example :
    (built.0.1.len ≡ queue_length listed)
    × (linked_get_message built.0 ≡ ok (queue_get_message listed))
    × (linked_contains built.0 7 1 4 ≡ ok (contains_id listed.messages 7 1 4))
    × (linked_get_sended_counter built.0 ≡ queue_get_sended_counter listed)
    × (linked_get_message_id built.0 ≡ queue_get_message_id listed)
    × (linked_get_message_flags built.0 ≡ queue_get_message_flags listed)
    × (linked_get_message_msg_type built.0 ≡ ok (queue_get_message_msg_type listed))
reads-Represents_example = reads-Represents built.0 listed 7 1 4 built.2
