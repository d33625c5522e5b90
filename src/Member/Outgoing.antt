-- ===== src/Member/Outgoing.antt =====
-- A round of the send thread in a well-formed member: `broadcast` and `cbc_send_thread` of
-- src/cbcast/send.c.
use view_sync.Prelude.{
  ℕ, suc, ◌+◌, ◌≡◌, refl, sym, ap, subst, ◌∙◌, inl, inr, Bool, true, false, Bool-cases, Option,
  none, some, List, [], ◌∷◌, ◌++◌, take, All, All-append, arith,
}
use view_sync.Prelude.Outcome.{done, result_ok}
use view_sync.Prelude.Safe.{Safe, fine, Safe-bind}
use view_sync.Message.{
  Kind, cbc_data, cbc_ack, cbc_retransmit_req, cbc_retransmit, unknown, Message, SockAddr,
  OutgoingMessage, cbc_sent_msg_create,
}
use view_sync.Message.Wire.{header_size, cbc_msg_serialize, cbc_msg_deserialize}
use view_sync.Message.Laws.{IsMessage, Shape}
use view_sync.Message.RoundTrip.{RoundTrip, deserialize-serialize}
use view_sync.State.{Peer, Cbcast, Stats}
use view_sync.Send.Thread.{
  Packet, Broadcast, is_alive, is_dropped, offer, broadcast_to, broadcast, sendto, with_stats,
  send_control, send_as, send_first, send_round,
}
use view_sync.Send.Loops.{IsShiftable, shl_one_lem}
use view_sync.Send.Resend.{IsResendable}
use view_sync.Send.Total.{shifts_of}
use view_sync.Member.{Promises, CarriesAs, Carries, Speaks, IsSendable, IsHealthy}

result_ok-injective : (a b : Message) → done (result_ok a) ≡ done (result_ok b) → a ≡ b
result_ok-injective a b e = ground arith

-- The datagram of a message says what the message does.
serialize-Speaks :
    (P : ℕ → Option (List ℕ) → Type 0) (m : Message)
    → IsMessage m
    → Carries P m
    → (bytes : List ℕ) × (cbc_msg_serialize m ≡ done (some bytes)) × Speaks P bytes
serialize-Speaks P m w c = (
  trip.0,
  trip.1,
  λ m' e.
      subst (Carries P)
        (result_ok-injective m m' (
          sym (ap (λ n. cbc_msg_deserialize (some (take (header_size + n) trip.0))) trip.3 ∙ trip.2)
          ∙ e))
        c,
)
  where
    trip : RoundTrip m
    trip = deserialize-serialize m w

module _ (rand : ℕ → ℕ) (bytes : List ℕ) where
  -- All packets carry the bytes.
  abbrev Same : List Packet → Type 0
  Same = All (λ p. p.bytes ≡ bytes)

  offer-Safe :
      (p : Peer) (b : Broadcast)
      → IsShiftable p.pid
      → Same b.packets
      → Safe (λ b'. Same b'.packets) (offer rand p (some bytes) b)
  unfolding offer
  offer-Safe p b small s = elim (Bool-cases (is_dropped (rand b.draws))) [
    | inl drop ↦ rw (shl_one_lem p.pid small, drop) (fine s)
    | inr kept ↦
        rw (shl_one_lem p.pid small, kept)
          (fine (All-append (λ q. q.bytes ≡ bytes) b.packets _ s (refl, tt)))
  ]

  broadcast_to-Safe :
      (ps : List Peer) (b : Broadcast)
      → All (λ p. IsShiftable p.pid) ps
      → Same b.packets
      → Safe (λ b'. Same b'.packets) (broadcast_to rand ps (some bytes) b)
  unfolding broadcast_to
  broadcast_to-Safe [] b h s = fine s
  broadcast_to-Safe (p ∷ ps) b h s = elim (Bool-cases (is_alive p.state)) [
    | inl alive ↦ rw alive (Safe-bind (offer-Safe p b h.0 s) λ b' t. broadcast_to-Safe ps b' h.1 t)
    | inr dead ↦ rw dead (broadcast_to-Safe ps b h.1 s)
  ]

module _ (w : Promises) (rand : ℕ → ℕ) where
  with_stats-IsHealthy :
      (cbc : Cbcast) (s : Stats) → IsHealthy w cbc → IsHealthy w (with_stats cbc s)
  with_stats-IsHealthy cbc s h = record {
    own = h.own;
    inside = h.inside;
    clock = h.clock;
    sound = record { known = h.sound.known; resendable = h.sound.resendable };
    outgoing = h.outgoing;
    held = h.held;
    queue = h.queue;
  }

  -- The state and the packets that a round leaves.
  abbrev pub IsRound : Cbcast × List Packet × ℕ → Type 0
  IsRound r = IsHealthy w r.0 × All (λ p. Speaks w.Says p.bytes) r.1

  Same-Speaks :
      (bytes : List ℕ) (ps : List Packet)
      → Speaks w.Says bytes
      → Same rand bytes ps
      → All (λ p. Speaks w.Says p.bytes) ps
  Same-Speaks bytes [] s h = tt
  Same-Speaks bytes (p ∷ ps) s h = (subst (Speaks w.Says) (sym h.0) s, Same-Speaks bytes ps s h.1)

  broadcast-Safe :
      (cbc : Cbcast) (bytes : List ℕ) (draws : ℕ)
      → Speaks w.Says bytes
      → IsHealthy w cbc
      → Safe
          (λ r. IsHealthy w r.0 × All (λ p. Speaks w.Says p.bytes) r.1.packets)
          (broadcast rand cbc (some bytes) draws)
  unfolding broadcast
  broadcast-Safe cbc bytes draws s h =
      Safe-bind
        (broadcast_to-Safe rand bytes cbc.peers _ (shifts_of w.Says w.Knows cbc.peers h.sound.known)
          tt)
        λ b same. fine (with_stats-IsHealthy cbc _ h, Same-Speaks bytes b.packets s same)

  sent-IsHealthy :
      (cbc : Cbcast) (m : Message) (target : ℕ)
      → IsMessage m
      → m.header.kind ≡ cbc_data
      → w.Says m.header.clock m.payload
      → IsHealthy w cbc
      → IsHealthy w (record cbc {
        sent_msg_buffer =
            cbc.sent_msg_buffer
            ++ (record { message = m; ack_target = target; ack_bitmap = 0 } ∷ []);
      })
  sent-IsHealthy cbc m target ok k says h = record {
    own = h.own;
    inside = h.inside;
    clock = h.clock;
    sound = record {
      known = h.sound.known;
      resendable = All-append (IsResendable w.Says) cbc.sent_msg_buffer _ h.sound.resendable (
        (subst (λ j. Shape j m.payload m.header.len) k ok.shape, ok.len_fits, ok.clock_fits, says),
        tt,
      );
    };
    outgoing = h.outgoing;
    held = h.held;
    queue = h.queue;
  }

  sendto-Speaks :
      (o : Option SockAddr) (bytes : List ℕ)
      → Speaks w.Says bytes
      → All (λ p. Speaks w.Says p.bytes) (sendto o (some bytes))
  sendto-Speaks none bytes s = tt
  sendto-Speaks (some addr) bytes s = (s, tt)

  send_control-IsRound :
      (k : Kind) (cbc : Cbcast) (out : OutgoingMessage) (bytes : List ℕ) (b : Bool)
      → Speaks w.Says bytes
      → IsHealthy w cbc
      → IsHealthy w (send_control k cbc out (some bytes) b).0
        × All (λ p. Speaks w.Says p.bytes) (send_control k cbc out (some bytes) b).1
  send_control-IsRound k cbc out bytes true s h = (with_stats-IsHealthy cbc _ h, tt)
  send_control-IsRound k cbc out bytes false s h =
      (with_stats-IsHealthy cbc _ h, sendto-Speaks out.addr bytes s)

  send_as-Safe :
      (k : Kind) (cbc : Cbcast) (out : OutgoingMessage) (bytes : List ℕ) (draws : ℕ)
      → out.message.header.kind ≡ k
      → IsMessage out.message
      → CarriesAs w.Says k out.message.header.clock out.message.payload
      → Speaks w.Says bytes
      → IsHealthy w cbc
      → Safe IsRound (send_as rand k cbc out (some bytes) draws)
  unfolding cbc_sent_msg_create
  send_as-Safe cbc_data cbc out bytes draws e m c s h =
      Safe-bind (broadcast-Safe cbc bytes (suc draws) s h)
        λ r (g, ps). fine (sent-IsHealthy r.0 out.message _ m e c g, ps)
  send_as-Safe cbc_ack cbc out bytes draws e m c s h =
      fine (send_control-IsRound cbc_ack cbc out bytes (is_dropped (rand draws)) s h)
  send_as-Safe cbc_retransmit_req cbc out bytes draws e m c s h =
      fine (send_control-IsRound cbc_retransmit_req cbc out bytes (is_dropped (rand draws)) s h)
  send_as-Safe cbc_retransmit cbc out bytes draws e m c s h =
      fine (send_control-IsRound cbc_retransmit cbc out bytes (is_dropped (rand draws)) s h)
  send_as-Safe (unknown code) cbc out bytes draws e m c s h = fine (h, tt)

  send_first-Safe :
      (cbc : Cbcast) (queue : List OutgoingMessage) (draws : ℕ)
      → All (IsSendable w.Says) queue
      → IsHealthy w cbc
      → Safe IsRound (send_first rand cbc queue draws)
  send_first-Safe cbc [] draws q h = fine (h, tt)
  send_first-Safe cbc (out ∷ rest) draws q h =
      let (bytes, e, s) = serialize-Speaks w.Says out.message q.0.0 q.0.1 in
      rw e (
        send_as-Safe out.message.header.kind (record cbc { send_queue = rest }) out bytes draws refl
          q.0.0 q.0.1 s
          (record {
            own = h.own;
            inside = h.inside;
            clock = h.clock;
            sound = record { known = h.sound.known; resendable = h.sound.resendable };
            outgoing = q.1;
            held = h.held;
            queue = h.queue;
          }))

  -- One round of the send thread.
  pub send_round-Safe :
      (cbc : Cbcast) (draws : ℕ) → IsHealthy w cbc → Safe IsRound (send_round rand cbc draws)
  unfolding send_round
  send_round-Safe cbc draws h = send_first-Safe cbc cbc.send_queue draws h.outgoing h
