-- ===== src/Send/Targets.antt =====
-- Whom a broadcast goes to, and when a sent message counts as acked by all.
use view_sync.Prelude.{
  ℕ, ◌+◌, ◌^◌, ◌≡◌, refl, inl, inr, Bool, true, ◌&&◌, Bool-cases, some, List, [], ◌∷◌, length, keep,
  exists_in, ◌==◌, if◌then◌else◌, All, length-append, arith,
}
use view_sync.Prelude.Outcome.{done}
use view_sync.Prelude.Bits.{bit, bit-le, bit-zero, bit-bit_or, bit-pow}
use view_sync.Message.{Message}
use view_sync.State.{Peer}
use view_sync.Send.Loops.{IsShiftable, shl_one_lem}
use view_sync.Send.Thread.{
  Broadcast, is_alive, is_dropped, offer, broadcast_to, sent_to, dropped_to,
}

-- Bit `j` is asked for exactly when some peer that is alive has the id `j`.
abbrev pub is_target : ℕ → List Peer → Bool
is_target j ps = exists_in (λ p. is_alive p.state && (p.pid == j)) ps

abbrev pub n_alive : List Peer → ℕ
n_alive ps = length (keep (λ p. is_alive p.state) ps)

-- What a broadcast to some peers adds to the locals `b`.
pub record Reaches (ps : List Peer) (b b' : Broadcast) : Type 0 where
  pub targets : (j : ℕ) → bit b'.ack_target j ≡ (if is_target j ps then 1 else bit b.ack_target j)
  pub counted : b'.n_sent + b'.n_dropped ≡ b.n_sent + b.n_dropped + n_alive ps
  pub sent : length b'.packets + b.n_sent ≡ length b.packets + b'.n_sent

module _ (rand : ℕ → ℕ) (bytes : List ℕ) where
  offer_lem :
      (p : Peer) (b : Broadcast)
      → IsShiftable p.pid
      → is_alive p.state ≡ true
      → (b' : Broadcast) × (offer rand p (some bytes) b ≡ done b') × Reaches (p ∷ []) b b'
  unfolding offer
  offer_lem p b h alive = elim (Bool-cases (is_dropped (rand b.draws))) [
    | inl drop ↦ (
      dropped_to (2 ^ p.pid) b,
      rw (shl_one_lem p.pid h, drop),
      record {
        targets = λ j.
            ground (
              arith,
              bit-bit_or b.ack_target (2 ^ p.pid) j,
              bit-pow p.pid j,
              bit-le b.ack_target j,
            );
        counted = ground arith;
        sent = ground arith;
      },
    )
    | inr kept ↦ (
      sent_to p (some bytes) (2 ^ p.pid) b,
      rw (shl_one_lem p.pid h, kept),
      record {
        targets = λ j.
            ground (
              arith,
              bit-bit_or b.ack_target (2 ^ p.pid) j,
              bit-pow p.pid j,
              bit-le b.ack_target j,
            );
        counted = ground arith;
        sent =
            omega (arith, length-append b.packets (record { dest = p.addr; bytes = bytes } ∷ []));
      },
    )
  ]

  broadcast_to_lem :
      (ps : List Peer) (b : Broadcast)
      → All (λ p. IsShiftable p.pid) ps
      → (b' : Broadcast) × (broadcast_to rand ps (some bytes) b ≡ done b') × Reaches ps b b'
  unfolding broadcast_to
  broadcast_to_lem [] b h =
      (b, refl, record { targets = λ j. refl; counted = omega arith; sent = omega arith })
  broadcast_to_lem (p ∷ ps) b h = elim (Bool-cases (is_alive p.state)) [
    | inl alive ↦
        let (b₁, first, r) = offer_lem p b h.0 alive in
        let (b₂, later, q) = broadcast_to_lem ps b₁ h.1 in
        (
          b₂,
          rw (alive, first) later,
          record {
            targets = λ j. ground (arith, r.targets j, q.targets j, alive);
            counted = ground (arith, r.counted, q.counted, alive);
            sent = omega (arith, r.sent, q.sent);
          },
        )
    | inr dead ↦
        let (b₂, later, q) = broadcast_to_lem ps b h.1 in
        (
          b₂,
          rw dead later,
          record {
            targets = λ j. ground (arith, q.targets j, dead);
            counted = ground (arith, q.counted, dead);
            sent = q.sent;
          },
        )
  ]

abbrev pub nothing_sent : ℕ → Broadcast
nothing_sent draws = record {
  ack_target = 0;
  packets = [];
  n_sent = 0;
  n_dropped = 0;
  draws = draws;
}

-- With ids below 31 a broadcast returns, whatever the simulated network drops. Its target has the
-- bits of the alive peers and no other, each alive peer is counted once as sent to or dropped, and
-- as many packets leave as are counted sent.
pub broadcast_to-Reaches :
    (rand : ℕ → ℕ) (bytes : List ℕ) (ps : List Peer) (draws : ℕ)
    → All (λ p. IsShiftable p.pid) ps
    → (b : Broadcast) × (broadcast_to rand ps (some bytes) (nothing_sent draws) ≡ done b)
      × ((j : ℕ) → bit b.ack_target j ≡ (if is_target j ps then 1 else 0))
      × (b.n_sent + b.n_dropped ≡ n_alive ps)
      × (length b.packets ≡ b.n_sent)
broadcast_to-Reaches rand bytes ps draws h =
    let (b, runs, r) = broadcast_to_lem rand bytes ps (nothing_sent draws) h in
    (
      b,
      runs,
      (λ j. ground (arith, r.targets j, bit-zero j)),
      omega (arith, r.counted),
      omega (arith, r.sent),
    )
