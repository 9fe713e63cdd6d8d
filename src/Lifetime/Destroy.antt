-- ===== src/Lifetime/Destroy.antt =====
-- programInterfaceDestroy() of src/libs/cleanUpMaster.c after any use of the buffers and queues that
-- the ProgramInterface owns.
use ipk_project.Prelude.{◌≡◌, refl, sym, ◌∙◌, All, List, [], ◌∷◌, ◌++◌, arith, ap}
use ipk_project.Outcome.{Outcome, ok, ◌>>=◌}
use ipk_project.Lifetime.Interfaces.{Interface, interface_init, interface_destroy}
use ipk_project.Lifetime.{
  Allocator, Block, DataBlock, data_block_init, OwnedQueue, free_block, data_destroy, owned_destroy,
}
use ipk_project.Lifetime.Owns.{
  Owns, Frees, Frees-then, Frees-free, Frees-free_block, optional, count, count-append, one_if_self,
}
use ipk_project.Lifetime.Buffers.{Trades, data_resize-Owns, data_copy-Owns}
use ipk_project.Lifetime.Queue.{
  queue_blocks, Frees-owned_destroy, owned_add_message-Owns, owned_add_message_priority-Owns,
  owned_add_message_only_id-Owns, owned_pop_message-Owns, owned_pop_all_messages-Owns,
}
use ipk_project.Lifetime.Usage.{
  BufferUse, QueueUse, Usage, use_buffer, use_queue, get_buffer, set_buffer, use_once, use_all,
  HasId, Allowed,
}
use ipk_project.Lifetime.Count.{
  interface_blocks, fixed_blocks, beside, count_interface, count-beside, counted, set-get,
}

then_data :
    (b : DataBlock) (g : Allocator → Outcome Allocator) (ys : List Block)
    → Frees g ys
    → Frees (λ s. data_destroy b s >>= g) (optional b.data_at ++ ys)
then_data b g ys h = Frees-then (data_destroy b) g (optional b.data_at) ys (Frees-free b.data_at) h

then_queue :
    (q : OwnedQueue) (g : Allocator → Outcome Allocator) (ys : List Block)
    → Frees g ys
    → Frees (λ s. owned_destroy q s >>= g) (queue_blocks q ++ ys)
then_queue q g ys h = Frees-then (owned_destroy q) g (queue_blocks q) ys (Frees-owned_destroy q) h

then_block :
    (a : Block) (g : Allocator → Outcome Allocator) (ys : List Block)
    → Frees g ys
    → Frees (λ s. free_block a s >>= g) (a ∷ ys)
then_block a g ys h = Frees-then (free_block a) g (a ∷ []) ys (Frees-free_block a) h

Frees-interface_destroy : (i : Interface) → Frees (interface_destroy i) (interface_blocks i)
unfolding interface_destroy
Frees-interface_destroy i = then_data i.client_input _ _ (
    then_data i.sended_by_main _ _ (
      then_data i.sended_by_receiver _ _ (
        then_data i.sended_by_sender _ _ (
          then_data i.server_response _ _ (
            then_queue i.confirmed_messages _ _ (
              then_block i.clean_up _ _ (
                then_data i.display_name _ _ (
                  then_data i.channel_id _ _ (
                    then_block i.com_details _ _ (
                      then_block i.net_config _ _ (
                        then_block i.fsm_mutex _ _ (
                          then_block i.stdout_mutex _ _ (
                            then_block i.main_mutex _ _ (
                              then_block i.main_cond _ _ (
                                then_block i.rec_to_sender_mutex _ _ (
                                  then_block i.rec_to_sender_cond _ _ (
                                    then_block i.sender_empty_queue_mutex _ _ (
                                      then_block i.sender_empty_queue_cond _ _ (
                                        then_queue i.sending_queue _ _ (
                                          then_block i.threads _ _
                                            (Frees-free_block i.interface_at)))))))))))))))))))))

use_buffer-Owns :
    (u : BufferUse) (b : DataBlock) (rest : List Block) (s : Allocator)
    → Owns (optional b.data_at ++ rest) s
    → Trades (use_buffer u b s) (λ b. optional b.data_at) rest s
use_buffer-Owns (BufferUse.resize n) b rest s h = data_resize-Owns b n rest s h
use_buffer-Owns (BufferUse.copy used) b rest s h = data_copy-Owns b used rest s h

use_queue-Owns :
    (u : QueueUse) (q : OwnedQueue) (rest : List Block) (s : Allocator)
    → HasId u
    → Owns (queue_blocks q ++ rest) s
    → Trades (use_queue u q s) queue_blocks rest s
use_queue-Owns (QueueUse.add used) q rest s d h = owned_add_message-Owns q used rest s h
use_queue-Owns (QueueUse.add_priority used) q rest s d h =
    owned_add_message_priority-Owns q used rest s h
use_queue-Owns (QueueUse.add_only_id used) q rest s d h =
    owned_add_message_only_id-Owns q used rest s d h
use_queue-Owns QueueUse.pop q rest s d h = owned_pop_message-Owns q rest s h
use_queue-Owns QueueUse.pop_all q rest s d h = owned_pop_all_messages-Owns q rest s h

abbrev Kept : Outcome (Interface × Allocator) → Type 0
Kept run = (i : Interface) × (s : Allocator) × (run ≡ ok (i, s)) × Owns (interface_blocks i) s

use_once-Owns :
    (u : Usage) (i : Interface) (s : Allocator)
    → Allowed u
    → Owns (interface_blocks i) s
    → Kept (use_once u i s)
unfolding fixed_blocks
use_once-Owns (Usage.of_buffer w u) i s d h =
    let rest = interface_blocks (set_buffer w i data_block_init) in
    let b = get_buffer w i in
    let (b', s', e, o) = use_buffer-Owns u b rest s (λ a. omega (
      arith,
      h a,
      count-append a (optional b.data_at) rest,
      ap (λ x. count a (interface_blocks x)) (sym (set-get w i)) ∙ counted w i b a,
    )) in
    (
      set_buffer w i b',
      s',
      rw e refl,
      λ a. omega (arith, o a, counted w i b' a, count-append a (optional b'.data_at) rest),
    )
use_once-Owns (Usage.of_sending u) i s d h =
    let q = i.sending_queue in
    let rest = beside i.confirmed_messages i in
    let (q', s', e, o) =
      use_queue-Owns u q rest s d
        (λ a. omega (arith, h a, count-beside a q i.confirmed_messages i, count_interface a i)) in
    (
      record i { sending_queue = q' },
      s',
      rw e refl,
      λ a. omega (
        arith,
        o a,
        count-beside a q' i.confirmed_messages i,
        count_interface a (record i { sending_queue = q' }),
      ),
    )
use_once-Owns (Usage.of_confirmed u) i s d h =
    let q = i.confirmed_messages in
    let rest = beside i.sending_queue i in
    let (q', s', e, o) =
      use_queue-Owns u q rest s d
        (λ a. omega (arith, h a, count-beside a q i.sending_queue i, count_interface a i)) in
    (
      record i { confirmed_messages = q' },
      s',
      rw e refl,
      λ a. omega (
        arith,
        o a,
        count-beside a q' i.sending_queue i,
        count_interface a (record i { confirmed_messages = q' }),
      ),
    )

use_all-Owns :
    (us : List Usage) (i : Interface) (s : Allocator)
    → All Allowed us
    → Owns (interface_blocks i) s
    → Kept (use_all us i s)
unfolding use_all
use_all-Owns [] i s d h = (i, s, refl, h)
use_all-Owns (u ∷ us) i s d h =
    let (i1, s1, e, h1) = use_once-Owns u i s d.0 h in
    let (i2, s2, f, h2) = use_all-Owns us i1 s1 d.1 h1 in (i2, s2, rw (e, f) refl, h2)

abbrev pub no_block : Allocator
no_block = record { live = []; next = 0 }

interface_init-Owns :
    Owns (interface_blocks (interface_init no_block).0) (interface_init no_block).1
unfolding interface_init
interface_init-Owns a = omega arith

nothing : (bs : List Block) → ((a : Block) → count a bs ≡ 0) → bs ≡ []
nothing [] h = refl
nothing (b ∷ bs) h = absurd (omega (arith, h b, one_if_self b))

-- Whatever is done to the seven buffers and the two queues of the initialized ProgramInterface, each
-- buffer that queueAddMessageOnlyID() gets having an ID, returns, and programInterfaceDestroy() then
-- returns, too: it frees no block that is not live, and no block is live after it.
pub use_all-interface_destroy :
    (us : List Usage)
    → All Allowed us
    → let (i0, s0) = interface_init no_block in
      (i : Interface) × (s : Allocator) × (s' : Allocator) × (use_all us i0 s0 ≡ ok (i, s))
      × (interface_destroy i s ≡ ok s')
      × (s'.live ≡ [])
use_all-interface_destroy us d =
    let (i0, s0) = interface_init no_block in
    let (i, s, e, h) = use_all-Owns us i0 s0 d interface_init-Owns in
    let (s', f, h') =
      (Frees-interface_destroy i).frees [] s
        (λ a. omega (arith, h a, count-append a (interface_blocks i) [])) in
    (i, s, s', e, f, nothing s'.live h')
