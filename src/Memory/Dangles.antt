-- ===== src/Memory/Dangles.antt =====
-- A pointer to a sent message when the receive thread completes the message: `find_old_messages` of
-- src/cbcast/send.c collects such pointers and gives the lock back.
use view_sync.Prelude.{
  ℕ, ◌≡◌, refl, true, false, some, [], ◌∷◌, get_elem?, arrdel, find_index, map, ◌==◌, exists_in,
  arith,
}
use view_sync.Prelude.Outcome.{done, fault, Returns, Returns-bind}
use view_sync.Prelude.Bits.{shl_one}
use view_sync.Message.{Message, is_ack}
use view_sync.Receive.Acks.{with_ack, fully_acked, has_clock}
use view_sync.Memory.Heap.{Heap, reads, often, Holds-as, total-arrdel}
use view_sync.Memory.Objects.{SentPtr, sent_value, sent_weight}
use view_sync.Memory.Blocks.{one_self, cbc_sent_msg_free-Holds}
use view_sync.Memory.Context.{Context, Owned}
use view_sync.Memory.Reads.{looked, sent_blocks, often-sent}
use view_sync.Memory.Controls.{beside}
use view_sync.Memory.Looks.{looks_lem}
use view_sync.Memory.Arriving.{with_ack_in, ack_at_in, register_ack_in}

exists-none : (a : ℕ) (xs : _) → often a xs ≡ 0 → exists_in (λ x. x == a) xs ≡ false
exists-none a [] h = refl
exists-none a (x ∷ xs) h = ground (arith, exists-none a xs)

reads-fault : (h : Heap) (a : ℕ) → often a h.live ≡ 0 → reads h a ≡ fault
unfolding reads
reads-fault h a none = rw (exists-none a h.live none) refl

-- In a context that owns its blocks, let `p` be the pointer of the sent buffer that an ack is for,
-- and let the ack be the last that the message waits for. Then `register_ack` returns, and
-- reading what `p` points to is undefined from then on.
pub register_ack_in-dangles :
    (e : ℕ → ℕ) (st : Context) (ack : Message) (pid mask i : ℕ) (p : SentPtr)
    → Owned e st
    → is_ack ack.header.kind ≡ true
    → find_index (has_clock ack.header.clock) (map sent_value st.sent_msg_buffer) ≡ some i
    → get_elem? st.sent_msg_buffer i ≡ some p
    → shl_one pid ≡ done mask
    → fully_acked (with_ack mask (sent_value p)) ≡ true
    → Returns (λ st'. reads st'.heap p.at ≡ fault) (register_ack_in st ack pid)
unfolding register_ack_in ack_at_in sent_weight
register_ack_in-dangles e st ack pid mask i p owned kind finds at shifts full =
    let left : Context = record st { sent_msg_buffer = arrdel st.sent_msg_buffer i } in
    let among = total-arrdel sent_weight p.at st.sent_msg_buffer i p at in
    rw
      (
        kind,
        looks_lem e st (looked sent_blocks st.sent_msg_buffer)
            (λ a. omega (arith, often-sent st.sent_msg_buffer a)) owned,
        finds,
        at,
        shifts,
        full,
      )
      (Returns-bind
        (cbc_sent_msg_free-Holds st.heap (with_ack_in mask p) (beside e left) (
          Holds-as st.heap _ _
            (λ a. omega (arith, total-arrdel sent_weight a st.sent_msg_buffer i p at)) owned))
        λ h o. (
          _,
          refl,
          reads-fault h p.at
              (omega (arith, o.same p.at, owned.once p.at, owned.same p.at, among, one_self p.at)),
        ))
