-- ===== src/Send/Loops.antt =====
-- The search loops of send.c compute filters.
use Prim.Native.Nat.{bit_and}
use mathlib.Core.List.{append_assoc, append-nil}
use native.Mathlib.Decide.{ℕ_discrete}
use view_sync.Prelude.{
  ℕ, zero, suc, ◌^◌, ◌<◌, ◌≡◌, refl, sym, ap, ◌∙◌, inl, inr, Bool-cases, Option, none, some, List,
  [], ◌∷◌, ◌++◌, map, length, arrdel, keep, find_index, length-arrdel, ◌==◌, All, arith,
}
use view_sync.Prelude.Keep.{keep_not, First, find_index-First}
use view_sync.Prelude.Outcome.{done}
use view_sync.Prelude.Bits.{bit, bit-le, shl_one, mask_clear, mask_set}
use view_sync.Message.{SentMessage}
use view_sync.State.{Peer, Cbcast}
use view_sync.Receive.Acks.{fully_acked}
use view_sync.Send.Old.{
  is_dead_msg, filter_rounds, filter_dead_messages, unacked_of, find_unacked_peers,
}
use view_sync.Send.Dead.{purge_rounds, purge_acked}

-- One round of each loop, with what the later rounds compute.
purge_round :
    (fuel : ℕ) (buffer : List SentMessage) (o : Option ℕ)
    → ((rest : List SentMessage)
        → length rest < fuel
        → purge_rounds fuel rest ≡ done (keep_not fully_acked rest))
    → length buffer < suc fuel
    → find_index fully_acked buffer ≡ o
    → First fully_acked buffer o
    → purge_rounds (suc fuel) buffer ≡ done (keep_not fully_acked buffer)
unfolding purge_rounds
purge_round fuel buffer none later h e (_, left) = rw (e, purge_rounds) (ap done (sym left))
purge_round fuel buffer (some i) later h e (x, at, _, same) =
    rw (e, purge_rounds)
      (later (arrdel buffer i) (omega (arith, length-arrdel buffer i x at)) ∙ ap done same)

purge_rounds_lem :
    (fuel : ℕ) (buffer : List SentMessage)
    → length buffer < fuel
    → purge_rounds fuel buffer ≡ done (keep_not fully_acked buffer)
purge_rounds_lem zero buffer h = absurd (omega arith)
purge_rounds_lem (suc fuel) buffer h =
    purge_round fuel buffer (find_index fully_acked buffer) (purge_rounds_lem fuel) h refl
      (find_index-First fully_acked buffer)

-- The loop that deletes fully acked messages one by one always ends, and leaves the others, in
-- their order.
pub purge_acked_lem :
    (buffer : List SentMessage) → purge_acked buffer ≡ done (keep_not fully_acked buffer)
unfolding purge_acked
purge_acked_lem buffer = purge_rounds_lem (suc (length buffer)) buffer (omega arith)

module _ (current : ℕ) where
  abbrev Splits : List SentMessage → List SentMessage → ℕ → Type 0
  Splits dead old fuel =
      filter_rounds fuel current dead old
      ≡ done (dead ++ keep (is_dead_msg current) old, keep_not (is_dead_msg current) old)

  filter_round :
      (fuel : ℕ) (dead old : List SentMessage) (o : Option ℕ)
      → ((dead' rest : List SentMessage) → length rest < fuel → Splits dead' rest fuel)
      → length old < suc fuel
      → find_index (is_dead_msg current) old ≡ o
      → First (is_dead_msg current) old o
      → Splits dead old (suc fuel)
  unfolding filter_rounds
  filter_round fuel dead old none later h e (none_dead, left) =
      rw (e, filter_rounds) (ap done (λ i. (moved i, left' i)))
    where
      moved : dead ≡ dead ++ keep (is_dead_msg current) old
      moved = sym (ap (λ t. dead ++ t) none_dead ∙ append-nil dead)

      left' : old ≡ keep_not (is_dead_msg current) old
      left' = sym left
  filter_round fuel dead old (some i) later h e (x, at, head, same) =
      rw (e, filter_rounds, at)
        (later (dead ++ (x ∷ [])) (arrdel old i) (omega (arith, length-arrdel old i x at))
          ∙ ap done (λ i. (moved i, same i)))
    where
      moved :
          (dead ++ (x ∷ [])) ++ keep (is_dead_msg current) (arrdel old i)
          ≡ dead ++ keep (is_dead_msg current) old
      moved = append_assoc dead (x ∷ []) _ ∙ ap (λ t. dead ++ t) (sym head)

  filter_rounds_lem :
      (fuel : ℕ) (dead old : List SentMessage) → length old < fuel → Splits dead old fuel
  filter_rounds_lem zero dead old h = absurd (omega arith)
  filter_rounds_lem (suc fuel) dead old h =
      filter_round fuel dead old (find_index (is_dead_msg current) old) (filter_rounds_lem fuel) h
        refl (find_index-First (is_dead_msg current) old)

  -- The loop that moves dead messages one by one always ends, with the dead ones and the others,
  -- both in their order.
  pub filter_dead_messages_lem :
      (old : List SentMessage)
      → filter_dead_messages current old
        ≡ done (keep (is_dead_msg current) old, keep_not (is_dead_msg current) old)
  unfolding filter_dead_messages
  filter_dead_messages_lem old = filter_rounds_lem (suc (length old)) [] old (omega arith)

-- Ids that `1 <<` can take.
abbrev pub IsShiftable : ℕ → Type 0
IsShiftable pid = pid < 31

pub shl_one_lem : (pid : ℕ) → IsShiftable pid → shl_one pid ≡ done (2 ^ pid)
unfolding shl_one
shl_one_lem pid h = ground arith

-- The ids of the peers whose bit is clear.
abbrev pub lacking : ℕ → List Peer → List ℕ
lacking bitmap ps = map (λ p. p.pid) (keep (λ p. bit bitmap p.pid == 0) ps)

clear_test : (bitmap pid : ℕ) → (bit_and bitmap (2 ^ pid) == 0) ≡ (bit bitmap pid == 0)
clear_test bitmap pid = elim (ℕ_discrete (bit bitmap pid) 0) [
  | yes e ↦ ground (arith, mask_clear bitmap pid e)
  | no e ↦ ground (arith, mask_set bitmap pid (omega (arith, bit-le bitmap pid)))
]

unacked_of_lem :
    (ps : List Peer) (bitmap : ℕ)
    → All (λ p. IsShiftable p.pid) ps
    → unacked_of ps bitmap ≡ done (lacking bitmap ps)
unfolding unacked_of
unacked_of_lem [] bitmap h = refl
unacked_of_lem (p ∷ ps) bitmap h =
    rw (shl_one_lem p.pid h.0, unacked_of_lem ps bitmap h.1, clear_test bitmap p.pid)
      (elim (Bool-cases (bit bitmap p.pid == 0)) [ inl e ↦ rw e | inr e ↦ rw e ])

-- With ids below 31 the peers that lack a message are exactly those whose bit is clear in its
-- bitmap, alive or dead, in the order of the peers.
pub find_unacked_peers_lem :
    (cbc : Cbcast) (s : SentMessage)
    → All (λ p. IsShiftable p.pid) cbc.peers
    → find_unacked_peers cbc s ≡ done (lacking s.ack_bitmap cbc.peers)
unfolding find_unacked_peers
find_unacked_peers_lem cbc s h = unacked_of_lem cbc.peers s.ack_bitmap h
