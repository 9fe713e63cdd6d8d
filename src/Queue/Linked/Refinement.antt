-- ===== src/Queue/Linked/Refinement.antt =====
-- The linked list of msgQueue.c implements the list of messages.
use ipk_project.Prelude.{
  ℕ, ◌≡◌, refl, sym, ap, ◌∙◌, false, List, [], ◌∷◌, ◌++◌, ◌==◌, arith, length, length-map,
}
use ipk_project.Outcome.{Outcome, ok, ◌>>=◌, >>=-Between}
use ipk_project.Buffer.{Buffer}
use ipk_project.Queue.{
  Message, MessageQueue, queue_init, create_message, id_message, queue_add_message,
  queue_add_message_priority, queue_add_message_only_id, queue_pop_message, queue_pop_all_messages,
  queue_get_message, queue_length, contains_id, queue_message_sended, queue_set_message_id,
  queue_set_message_flags, queue_get_sended_counter, queue_get_message_id, queue_get_message_flags,
  queue_get_message_msg_type,
}
use ipk_project.Queue.Types.{MsgFlags}
use ipk_project.Queue.Linked.{
  Linked, empty_heap, linked_queue_init, linked_add_message, linked_add_message_priority,
  linked_pop_message, linked_pop_all_messages, linked_get_message, linked_contains, contains_walk,
  linked_message_sended, linked_set_message_id, linked_set_message_flags, linked_get_sended_counter,
  linked_get_message_id, linked_get_message_flags, linked_get_message_msg_type,
}
use ipk_project.Queue.Linked.Chain.{Cells, IsQueue, messages_of}
use ipk_project.Queue.Linked.Add.{linked_add_message-IsQueue, linked_add_message_priority-IsQueue}
use ipk_project.Queue.Linked.First.{
  Represents, sended-Represents, set_id-Represents, flags-Represents, first-Represents,
}
use ipk_project.Queue.Linked.Remove.{
  rest_of, linked_pop_message-IsQueue, linked_pop_all_messages-IsQueue, contains_walk-contains_id,
}

-- the operations that change a queue
pub data Operation : Type 0 where
  add_message add_message_priority : Buffer → MsgFlags → ℕ → Operation
  add_message_only_id : Buffer → ℕ → Operation
  pop_message pop_all_messages message_sended : Operation
  set_message_id : ℕ → Operation
  set_message_flags : MsgFlags → Operation

unfoldable pub run_on_list : Operation → MessageQueue → Outcome MessageQueue
run_on_list (Operation.add_message b flags type) q = queue_add_message q b flags type
run_on_list (Operation.add_message_priority b flags type) q =
    queue_add_message_priority q b flags type
run_on_list (Operation.add_message_only_id b type) q = queue_add_message_only_id q b type
run_on_list Operation.pop_message q = ok (queue_pop_message q)
run_on_list Operation.pop_all_messages q = ok (queue_pop_all_messages q)
run_on_list Operation.message_sended q = queue_message_sended q
run_on_list (Operation.set_message_id counter) q = queue_set_message_id q counter
run_on_list (Operation.set_message_flags flags) q = ok (queue_set_message_flags q flags)

unfoldable pub run_on_nodes : Operation → Linked → Outcome Linked
run_on_nodes (Operation.add_message b flags type) l =
    create_message b flags type >>= λ m. linked_add_message l m
run_on_nodes (Operation.add_message_priority b flags type) l =
    create_message b flags type >>= λ m. linked_add_message_priority l m
run_on_nodes (Operation.add_message_only_id b type) l =
    id_message b type >>= λ m. linked_add_message_priority l m
run_on_nodes Operation.pop_message l = linked_pop_message l
run_on_nodes Operation.pop_all_messages l = linked_pop_all_messages l
run_on_nodes Operation.message_sended l = linked_message_sended l
run_on_nodes (Operation.set_message_id counter) l = linked_set_message_id l counter
run_on_nodes (Operation.set_message_flags flags) l = linked_set_message_flags l flags

unfoldable pub list_run : List Operation → MessageQueue → Outcome MessageQueue
list_run [] q = ok q
list_run (o ∷ os) q = run_on_list o q >>= λ q'. list_run os q'

unfoldable pub nodes_run : List Operation → Linked → Outcome Linked
nodes_run [] l = ok l
nodes_run (o ∷ os) l = run_on_nodes o l >>= λ l'. nodes_run os l'

messages-snoc :
    (cs : Cells) (c : ℕ × Message) → messages_of (cs ++ c ∷ []) ≡ messages_of cs ++ c.1 ∷ []
messages-snoc [] c = refl
messages-snoc (d ∷ cs) c = ap (◌∷◌ d.1) (messages-snoc cs c)

changed :
    (q : MessageQueue) (ms : List Message) (q' : MessageQueue)
    → ok (record q { messages = ms }) ≡ ok q'
    → ms ≡ q'.messages
changed q ms q' h = ground arith

same_messages : (q q' : MessageQueue) → ok q ≡ ok q' → q.messages ≡ q'.messages
same_messages q q' h = ground arith

messages-pop :
    (cs : Cells) (q : MessageQueue)
    → messages_of cs ≡ q.messages
    → messages_of (rest_of cs) ≡ (queue_pop_message q).messages
unfolding queue_pop_message
messages-pop [] q e = rw (← e) refl
messages-pop (c ∷ cs) q e = rw (← e) refl

-- An operation that returns on the list returns on the nodes that represent it, and they represent
-- its result.
step-Represents :
    (o : Operation) (l : Linked) (q q' : MessageQueue)
    → Represents l q
    → run_on_list o q ≡ ok q'
    → (l' : Linked) × (run_on_nodes o l ≡ ok l') × Represents l' q'
unfolding run_on_list run_on_nodes queue_add_message queue_add_message_priority
    queue_add_message_only_id queue_pop_all_messages
step-Represents (Operation.add_message b flags type) l q q' (cs, r, e) h =
    let (m, k, rest) = >>=-Between (create_message b flags type) _ h in
    let (l', run, r') = linked_add_message-IsQueue l cs m r in
    (
      l',
      rw k run,
      (
        _,
        r',
        messages-snoc cs (l.0.next, m)
            ∙ ap (λ ms. ms ++ m ∷ []) e
            ∙ changed q (q.messages ++ m ∷ []) q' rest,
      ),
    )
step-Represents (Operation.add_message_priority b flags type) l q q' (cs, r, e) h =
    let (m, k, rest) = >>=-Between (create_message b flags type) _ h in
    let (l', run, r') = linked_add_message_priority-IsQueue l cs m r in
    (l', rw k run, (_, r', ap (◌∷◌ m) e ∙ changed q (m ∷ q.messages) q' rest))
step-Represents (Operation.add_message_only_id b type) l q q' (cs, r, e) h =
    let (m, k, rest) = >>=-Between (id_message b type) _ h in
    let (l', run, r') = linked_add_message_priority-IsQueue l cs m r in
    (l', rw k run, (_, r', ap (◌∷◌ m) e ∙ changed q (m ∷ q.messages) q' rest))
step-Represents Operation.pop_message l q q' (cs, r, e) h =
    let (l', run, r') = linked_pop_message-IsQueue l cs r in
    (l', run, (_, r', messages-pop cs q e ∙ same_messages (queue_pop_message q) q' h))
step-Represents Operation.pop_all_messages l q q' (cs, r, e) h =
    let (l', run, r') = linked_pop_all_messages-IsQueue l cs r in
    (l', run, ([], r', same_messages (queue_pop_all_messages q) q' h))
step-Represents Operation.message_sended l q q' r h = sended-Represents l q q' r h
step-Represents (Operation.set_message_id counter) l q q' r h = set_id-Represents l q q' counter r h
step-Represents (Operation.set_message_flags flags) l q q' r h =
    let (l', run, (cs, i, e)) = flags-Represents l q flags r in
    (l', run, (cs, i, e ∙ same_messages (queue_set_message_flags q flags) q' h))

runs-Represent :
    (os : List Operation) (l : Linked) (q q' : MessageQueue)
    → Represents l q
    → list_run os q ≡ ok q'
    → (l' : Linked) × (nodes_run os l ≡ ok l') × Represents l' q'
unfolding list_run nodes_run
runs-Represent [] l q q' r h = (l, refl, (r.0, r.1, r.2 ∙ same_messages q q' h))
runs-Represent (o ∷ os) l q q' r h =
    let (q1, k, rest) = >>=-Between (run_on_list o q) _ h in
    let (l1, run, r1) = step-Represents o l q q1 r k in
    let (l2, runs, r2) = runs-Represent os l1 q1 q' r1 rest in (l2, rw run runs, r2)

-- Operations that return on the empty list of messages, one after the other, return on the empty
-- queue of nodes, and its nodes then hold the messages of the list, in order.
pub nodes_run-Represents :
    (os : List Operation) (q : MessageQueue)
    → list_run os queue_init ≡ ok q
    → (l : Linked) × (nodes_run os (empty_heap, linked_queue_init) ≡ ok l) × Represents l q
nodes_run-Represents os q h =
    runs-Represent os (empty_heap, linked_queue_init) queue_init q
      ([], record { chain = tt; first = refl; last = refl; len = refl }, refl) h

-- What the code reads from nodes that represent a list is what the list says: its length, its first
-- message with its counter, ID, flags and type, and whether an ID is in it. The walk along the nodes
-- ends.
pub reads-Represents :
    (l : Linked) (q : MessageQueue) (high low type : ℕ)
    → Represents l q
    → (l.1.len ≡ queue_length q)
      × (linked_get_message l ≡ ok (queue_get_message q))
      × (linked_contains l high low type ≡ ok (contains_id q.messages high low type))
      × (linked_get_sended_counter l ≡ queue_get_sended_counter q)
      × (linked_get_message_id l ≡ queue_get_message_id q)
      × (linked_get_message_flags l ≡ queue_get_message_flags q)
      × (linked_get_message_msg_type l ≡ ok (queue_get_message_msg_type q))
unfolding queue_length linked_contains linked_get_message queue_get_message
reads-Represents l q high low type (cs, r, e) =
    let of_first = first-Represents l q (cs, r, e) in
    (
      r.len ∙ sym (length-map (λ (c : ℕ × Message). c.1) cs) ∙ ap length e,
      first_message cs r e,
      ap (λ p. contains_walk l.1.len l.0 p high low type) r.first
          ∙ contains_walk-contains_id l.0 cs l.1.len high low type r.chain (omega (arith, r.len))
          ∙ ap (λ ms. ok (contains_id ms high low type)) e,
      of_first.0,
      of_first.1,
      of_first.2,
      of_first.3,
    )
  where
    first_message :
        (cs : Cells)
        → IsQueue l cs
        → messages_of cs ≡ q.messages
        → linked_get_message l ≡ ok (queue_get_message q)
    first_message [] r e = rw (r.first, ← e) refl
    first_message ((a, m) ∷ cs) r e =
        let more : (l.1.len == 0) ≡ false = ground (arith, r.len) in
        rw (r.first, more, r.chain.0, ← e) refl
