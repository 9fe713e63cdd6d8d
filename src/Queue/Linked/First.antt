-- ===== src/Queue/Linked/First.antt =====
-- Reading and changing the first message of a linked queue.
use ipk_project.Prelude.{
  ℕ, ◌+◌, ◌%◌, ◌^◌, ◌≡◌, refl, sym, ap, ◌∙◌, not, ◌&&◌, Bool, true, false, Option, none, some, List,
  [], ◌∷◌, arith, if◌then◌else◌,
}
use ipk_project.Outcome.{Outcome, ok, fault, ◌>>=◌, >>=-Between}
use ipk_project.Queue.{
  Message, MessageQueue, update_first, queue_get_message, queue_message_sended,
  queue_get_sended_counter, queue_set_message_id, queue_get_message_id, queue_get_message_flags,
  queue_set_message_flags, queue_get_message_msg_type, write_id,
}
use ipk_project.Queue.Types.{MsgFlags, flags_eq}
use ipk_project.Queue.Linked.{
  Address, Linked, write, linked_first, linked_update_first, linked_message_sended,
  linked_get_sended_counter, linked_set_message_id, linked_get_message_id, linked_get_message_flags,
  linked_set_message_flags, linked_get_message_msg_type,
}
use ipk_project.Queue.Linked.Chain.{
  Cells, IsQueue, head_address, last_address, messages_of, Chain-frame, same-write,
}

-- The nodes hold the messages of the list, in order.
abbrev pub Represents : Linked → MessageQueue → Type 0
Represents l q = (cs : Cells) × IsQueue l cs × (messages_of cs ≡ q.messages)

last-changed :
    (a : Address) (m m' : Message) (cs : Cells)
    → last_address ((a, m) ∷ cs) ≡ last_address ((a, m') ∷ cs)
last-changed a m m' [] = refl
last-changed a m m' (c ∷ cs) = refl

-- Changing the first message changes nothing else of the queue.
linked_update_first-IsQueue :
    (l : Linked) (a : Address) (m m' : Message) (cs : Cells) (f : Message → Outcome Message)
    → IsQueue l ((a, m) ∷ cs)
    → f m ≡ ok m'
    → (l' : Linked) × (linked_update_first l f ≡ ok l') × IsQueue l' ((a, m') ∷ cs)
unfolding linked_update_first
linked_update_first-IsQueue l a m m' cs f q e =
    let n = some (record { message = m'; behind_me = some (head_address cs) }) in
    let here : (write l.0 a n).cell a ≡ n = ground arith in
    (
      (write l.0 a n, l.1),
      rw (q.first, q.chain.0, e) refl,
      record {
        chain = (
          here,
          q.chain.1,
          q.chain.2,
          Chain-frame l.0 (write l.0 a n) cs q.chain.3 (omega arith)
              (same-write l.0 a n cs q.chain.2),
        );
        first = q.first;
        last = q.last ∙ last-changed a m m' cs;
        len = q.len;
      },
    )

update_first-cons :
    (q : MessageQueue) (m : Message) (ms : List Message) (f : Message → Outcome Message)
    → q.messages ≡ m ∷ ms
    → update_first q f ≡ (f m >>= λ m'. ok (record q { messages = m' ∷ ms }))
update_first-cons q m ms f e = rw e refl

update_first-nil :
    (q : MessageQueue) (f : Message → Outcome Message) → q.messages ≡ [] → update_first q f ≡ fault
update_first-nil q f e = rw e refl

updated :
    (q q' : MessageQueue) (ms : List Message)
    → ok (record q { messages = ms }) ≡ ok q'
    → ms ≡ q'.messages
updated q q' ms h = ground arith

-- The update of the first message, where it returns on the list.
pub update-Represents :
    (l : Linked) (q q' : MessageQueue) (f : Message → Outcome Message)
    → Represents l q
    → update_first q f ≡ ok q'
    → (l' : Linked) × (linked_update_first l f ≡ ok l') × Represents l' q'
update-Represents l q q' f ([], r, e) h =
    absurd (let none_first = update_first-nil q f (sym e) in cc)
update-Represents l q q' f ((a, m) ∷ cs, r, e) h =
    let (m', k, rest) =
      >>=-Between (f m) _ (sym (update_first-cons q m (messages_of cs) f (sym e)) ∙ h) in
    let (l', run, r') = linked_update_first-IsQueue l a m m' cs f r k in
    (l', run, ((a, m') ∷ cs, r', updated q q' (m' ∷ messages_of cs) rest))

pub sended-Represents :
    (l : Linked) (q q' : MessageQueue)
    → Represents l q
    → queue_message_sended q ≡ ok q'
    → (l' : Linked) × (linked_message_sended l ≡ ok l') × Represents l' q'
unfolding queue_message_sended linked_message_sended
sended-Represents l q q' r h =
    update-Represents l q q' (λ m. ok (record m { send_count = (m.send_count + 1) % 2 ^ 8 })) r h

set_flags-some :
    (l : Linked) (a : Address) (flags : MsgFlags)
    → l.1.first ≡ some a
    → linked_set_message_flags l flags
      ≡ linked_update_first l (λ m. ok (record m { msg_flags = flags }))
unfolding linked_set_message_flags
set_flags-some l a flags e = rw e refl

pub flags-Represents :
    (l : Linked) (q : MessageQueue) (flags : MsgFlags)
    → Represents l q
    → (l' : Linked) × (linked_set_message_flags l flags ≡ ok l')
      × Represents l' (queue_set_message_flags q flags)
unfolding queue_set_message_flags linked_set_message_flags
flags-Represents l q flags ([], r, e) = (l, rw r.first refl, ([], r, rw (← e) refl))
flags-Represents l q flags ((a, m) ∷ cs, r, e) =
    let (l', run, r') =
      linked_update_first-IsQueue l a m (record m { msg_flags = flags }) cs
        (λ m. ok (record m { msg_flags = flags })) r refl in
    (
      l',
      set_flags-some l a flags r.first ∙ run,
      ((a, record m { msg_flags = flags }) ∷ cs, r', rw (← e) refl),
    )

-- whether queueSetMessageID() writes the ID into a message
abbrev has_id : Message → Bool
has_id m =
    not (flags_eq m.msg_flags MsgFlags.confirm) && not (flags_eq m.msg_flags MsgFlags.nok_reply)

linked_first-ok :
    (l : Linked) (a : Address) (m : Message) (cs : Cells)
    → IsQueue l ((a, m) ∷ cs)
    → linked_first l ≡ ok m
unfolding linked_first
linked_first-ok l a m cs r = rw (r.first, r.chain.0) refl

same_queue : (q q' : MessageQueue) → ok q ≡ ok q' → q.messages ≡ q'.messages
same_queue q q' h = ground arith

numbered-Represents :
    (l : Linked) (a : Address) (m : Message) (cs : Cells) (q q' : MessageQueue) (counter : ℕ)
    (b : Bool)
    → IsQueue l ((a, m) ∷ cs)
    → m ∷ messages_of cs ≡ q.messages
    → (if b then update_first q (write_id counter) else ok q) ≡ ok q'
    → (l' : Linked) × ((if b then linked_update_first l (write_id counter) else ok l) ≡ ok l')
      × Represents l' q'
numbered-Represents l a m cs q q' counter true r e h =
    update-Represents l q q' (write_id counter) ((a, m) ∷ cs, r, e) h
numbered-Represents l a m cs q q' counter false r e h =
    (l, refl, ((a, m) ∷ cs, r, e ∙ same_queue q q' h))

set_id-cons :
    (q : MessageQueue) (m : Message) (ms : List Message) (counter : ℕ)
    → q.messages ≡ m ∷ ms
    → queue_set_message_id q counter
      ≡ (if has_id m then update_first q (write_id counter) else ok q)
unfolding queue_set_message_id
set_id-cons q m ms counter e = rw e refl

set_id-nil :
    (q : MessageQueue) (counter : ℕ) → q.messages ≡ [] → queue_set_message_id q counter ≡ ok q
unfolding queue_set_message_id
set_id-nil q counter e = rw e refl

linked_set_id-some :
    (l : Linked) (a : Address) (m : Message) (counter : ℕ)
    → l.1.first ≡ some a
    → linked_first l ≡ ok m
    → linked_set_message_id l counter
      ≡ (if has_id m then linked_update_first l (write_id counter) else ok l)
unfolding linked_set_message_id
linked_set_id-some l a m counter e k =
    ap
      (λ (o : Option Address). elim o [
        | none ↦ ok l
        | some x ↦ linked_first l >>= λ m.
            if has_id m then linked_update_first l (write_id counter) else ok l
      ])
      e
    ∙ ap
        (λ (o : Outcome Message).
          o >>= λ m. if has_id m then linked_update_first l (write_id counter) else ok l)
        k

pub set_id-Represents :
    (l : Linked) (q q' : MessageQueue) (counter : ℕ)
    → Represents l q
    → queue_set_message_id q counter ≡ ok q'
    → (l' : Linked) × (linked_set_message_id l counter ≡ ok l') × Represents l' q'
unfolding linked_set_message_id
set_id-Represents l q q' counter ([], r, e) h =
    (l, rw r.first refl, ([], r, e ∙ same_queue q q' (sym (set_id-nil q counter (sym e)) ∙ h)))
set_id-Represents l q q' counter ((a, m) ∷ cs, r, e) h =
    let (l', run, r') =
      numbered-Represents l a m cs q q' counter (has_id m) r e
        (sym (set_id-cons q m (messages_of cs) counter (sym e)) ∙ h) in
    (l', linked_set_id-some l a m counter r.first (linked_first-ok l a m cs r) ∙ run, r')

-- What is read of the first message from the nodes is what the list says.
pub first-Represents :
    (l : Linked) (q : MessageQueue)
    → Represents l q
    → (linked_get_sended_counter l ≡ queue_get_sended_counter q)
      × (linked_get_message_id l ≡ queue_get_message_id q)
      × (linked_get_message_flags l ≡ queue_get_message_flags q)
      × (linked_get_message_msg_type l ≡ ok (queue_get_message_msg_type q))
unfolding linked_get_sended_counter linked_get_message_id linked_get_message_flags
    linked_get_message_msg_type queue_get_sended_counter queue_get_message_id
    queue_get_message_flags queue_get_message_msg_type queue_get_message linked_first
first-Represents l q ([], r, e) =
    (rw (r.first, ← e) refl, rw (r.first, ← e) refl, rw (r.first, ← e) refl, rw (r.first, ← e) refl)
first-Represents l q ((a, m) ∷ cs, r, e) = (
  rw (r.first, r.chain.0, ← e) refl,
  rw (r.first, r.chain.0, ← e) refl,
  rw (r.first, r.chain.0, ← e) refl,
  rw (r.first, r.chain.0, ← e) refl,
)
