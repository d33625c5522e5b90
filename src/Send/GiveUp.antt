-- ===== src/Send/GiveUp.antt =====
-- What giving peers up leaves in the sent buffer.
use view_sync.Prelude.{
  ℕ, ◌+◌, ◌/◌, ◌^◌, ◌<◌, ◌≡◌, ◌⊎◌, refl, Bool, false, List, [], ◌∷◌, map, length, exists_in, ◌==◌,
  if◌then◌else◌, All, arith,
}
use Prim.Native.Nat.{bit_or}
use view_sync.Prelude.Keep.{keep_not}
use view_sync.Prelude.Outcome.{done}
use view_sync.Prelude.Bits.{bit, bit-le, bit-bit_or, bit-pow}
use view_sync.Message.{SentMessage}
use view_sync.State.{Peer, cbc_peer_dead, Cbcast, cbc_disconnected}
use view_sync.Receive.Acks.{with_ack, fully_acked}
use view_sync.Send.Dead.{
  mark_acked, mark_all, mark_peer, handle_dead_peers, disconnect_if, must_disconnect,
}
use view_sync.Send.Loops.{IsShiftable, shl_one_lem, purge_acked_lem}

-- `mark_acked` without the shifts' bounds.
abbrev pub marked : List ℕ → SentMessage → SentMessage
marked [] s = s
marked (d ∷ ds) s = marked ds (record s { ack_bitmap = bit_or s.ack_bitmap (2 ^ d) })

mark_acked_lem :
    (dead : List ℕ) (s : SentMessage)
    → All IsShiftable dead
    → mark_acked dead s ≡ done (marked dead s)
unfolding mark_acked
mark_acked_lem [] s h = refl
mark_acked_lem (d ∷ ds) s h = rw (shl_one_lem d h.0) (mark_acked_lem ds (with_ack (2 ^ d) s) h.1)

pub mark_all_lem :
    (dead : List ℕ) (buffer : List SentMessage)
    → All IsShiftable dead
    → mark_all dead buffer ≡ done (map (marked dead) buffer)
unfolding mark_all
mark_all_lem dead [] h = refl
mark_all_lem dead (s ∷ rest) h = rw (mark_acked_lem dead s h, mark_all_lem dead rest h)

-- The bits of the dead are set, and no other bit changes.
abbrev pub is_among : ℕ → List ℕ → Bool
is_among j dead = exists_in (λ d. d == j) dead

pub marked-bit :
    (dead : List ℕ) (s : SentMessage) (j : ℕ)
    → bit (marked dead s).ack_bitmap j ≡ (if is_among j dead then 1 else bit s.ack_bitmap j)
marked-bit [] s j = refl
marked-bit (d ∷ ds) s j = ground (
  arith,
  marked-bit ds (with_ack (2 ^ d) s) j,
  bit-bit_or s.ack_bitmap (2 ^ d) j,
  bit-pow d j,
  bit-le s.ack_bitmap j,
)

pub handle_dead_peers_value :
    (cbc : Cbcast) (d : ℕ) (ds : List ℕ)
    → 0 < length cbc.peers
    → All IsShiftable (d ∷ ds)
    → handle_dead_peers cbc (d ∷ ds)
      ≡ done (record (disconnect_if (must_disconnect (length cbc.peers) (length (d ∷ ds))) cbc) {
        peers = map (mark_peer (d ∷ ds)) cbc.peers;
        sent_msg_buffer = keep_not fully_acked (map (marked (d ∷ ds)) cbc.sent_msg_buffer);
      })
unfolding handle_dead_peers
handle_dead_peers_value cbc d ds some_left h =
    let none_left : (length cbc.peers == 0) ≡ false = ground arith in
    rw (
      none_left,
      mark_all_lem (d ∷ ds) cbc.sent_msg_buffer h,
      purge_acked_lem (map (marked (d ∷ ds)) cbc.sent_msg_buffer),
    )

-- Fewer than one of the peers remain, or fewer than half of them do.
abbrev pub IsLost : ℕ → ℕ → Type 0
IsLost total dead = (total < dead + 1) ⊎ (total < total / 2 + dead)

abbrev pub dead_or_not : List ℕ → Peer → Peer
dead_or_not dead p = if is_among p.pid dead then record p { state = cbc_peer_dead } else p

-- What giving peers up does.
pub record GivenUp (dead : List ℕ) (cbc cbc' : Cbcast) : Type 0 where
  pub peers : cbc'.peers ≡ map (dead_or_not dead) cbc.peers
  pub sent :
      cbc'.sent_msg_buffer
      ≡ keep_not (λ s. s.ack_bitmap == s.ack_target) (map (marked dead) cbc.sent_msg_buffer)
  pub disconnected : IsLost (length cbc.peers) (length dead) → cbc'.state ≡ cbc_disconnected
  pub still : ¬ IsLost (length cbc.peers) (length dead) → cbc'.state ≡ cbc.state
  pub rest : cbc' ≡ record cbc {
    peers = cbc'.peers;
    sent_msg_buffer = cbc'.sent_msg_buffer;
    state = cbc'.state;
  }
