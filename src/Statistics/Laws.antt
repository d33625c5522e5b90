-- ===== src/Statistics/Laws.antt =====
-- When collecting the statistics reads within the copy of the clock, and what it reports.
use view_sync.Prelude.{
  ℕ, zero, suc, ◌+◌, ◌≤◌, ◌<◌, ◌≡◌, refl, none, some, List, [], ◌∷◌, length, take, drop, get_elem?,
  arith,
}
use view_sync.Prelude.Outcome.{done, fault}
use view_sync.State.{Cbcast}
use native.Mathlib.Decide.{dec_lt}
use view_sync.Statistics.{
  Key, worker, recv_msg_count, sent_msg_count, sent_ack_count, sent_retransmit_req_count,
  sent_retransmit_count, dropped_msg_count, dropped_ack_count, dropped_retransmit_req_count,
  dropped_retransmit_count, delivered_msg_count, delivery_queue_size, sent_msg_buffer_size,
  held_msg_buffer_size, CJson, reported_peers, add_clocks, cbc_collect_statistics,
}

-- The counters of a member and the sizes of its buffers, each with its key.
abbrev pub numbers_of : Cbcast → List (Key × ℕ)
numbers_of cbc =
    (worker, cbc.pid)
    ∷ (recv_msg_count, cbc.stats.recv_msg_count)
    ∷ (sent_msg_count, cbc.stats.sent_msg_count)
    ∷ (sent_ack_count, cbc.stats.sent_ack_count)
    ∷ (sent_retransmit_req_count, cbc.stats.sent_retransmit_req_count)
    ∷ (sent_retransmit_count, cbc.stats.sent_retransmit_count)
    ∷ (dropped_msg_count, cbc.stats.dropped_msg_count)
    ∷ (dropped_ack_count, cbc.stats.dropped_ack_count)
    ∷ (dropped_retransmit_req_count, cbc.stats.dropped_retransmit_req_count)
    ∷ (dropped_retransmit_count, cbc.stats.dropped_retransmit_count)
    ∷ (delivered_msg_count, cbc.stats.delivered_msg_count)
    ∷ (delivery_queue_size, length cbc.delivery_queue)
    ∷ (sent_msg_buffer_size, length cbc.sent_msg_buffer)
    ∷ (held_msg_buffer_size, length cbc.held_msg_buffer)
    ∷ []

-- The elements from an index on.
drop-elem :
    (xs : List ℕ) (i : ℕ)
    → i < length xs
    → (x : ℕ) × (get_elem? xs i ≡ some x) × (drop i xs ≡ x ∷ drop (suc i) xs)
drop-elem [] i h = absurd (omega arith)
drop-elem (x ∷ xs) zero h = (x, refl, refl)
drop-elem (x ∷ xs) (suc i) h = drop-elem xs i (omega arith)

get_elem?-end : (xs : List ℕ) (i : ℕ) → length xs ≤ i → get_elem? xs i ≡ none
get_elem?-end [] i h = refl
get_elem?-end (x ∷ xs) zero h = absurd (omega arith)
get_elem?-end (x ∷ xs) (suc i) h = get_elem?-end xs i (omega arith)

module _ {Json : Type 0} (c : CJson Json) where
  -- The array with some numbers put at its end.
  abbrev pub with_numbers : Json → List ℕ → Json
  with_numbers array [] = array
  with_numbers array (n ∷ ns) = with_numbers (c.add_item_to_array array (c.create_number n)) ns

  -- The object with some numbers put into it.
  abbrev pub with_fields : Json → List (Key × ℕ) → Json
  with_fields object [] = object
  with_fields object ((k, n) ∷ rest) = with_fields (c.add_number_to_object object k n) rest

  add_clocks_lem :
      (n i : ℕ) (array : Json) (clocks : List ℕ)
      → i + n ≤ length clocks
      → add_clocks c n i array clocks ≡ done (with_numbers array (take n (drop i clocks)))
  unfolding add_clocks
  add_clocks_lem zero i array clocks h = refl
  add_clocks_lem (suc n) i array clocks h =
      let (x, at, rest) = drop-elem clocks i (omega arith) in
      rw (at, rest)
        (add_clocks_lem n (suc i) (c.add_item_to_array array (c.create_number x)) clocks
          (omega arith))

  add_clocks-fault :
      (n i : ℕ) (array : Json) (clocks : List ℕ)
      → i ≤ length clocks
      → length clocks < i + n
      → add_clocks c n i array clocks ≡ fault
  unfolding add_clocks
  add_clocks-fault zero i array clocks h k = absurd (omega arith)
  add_clocks-fault (suc n) i array clocks h k = elim (dec_lt i (length clocks)) [
    | no out ↦ rw (get_elem?-end clocks i (omega arith))
    | yes inside ↦
        let (x, at, rest) = drop-elem clocks i inside in
        rw at (
          add_clocks-fault n (suc i) (c.add_item_to_array array (c.create_number x)) clocks inside
            (omega arith))
  ]

  -- Collecting the statistics of a group of at least four members returns. It changes nothing but
  -- the statistics, which get the lengths of the three buffers, a copy of the clock and the number
  -- 4, and makes an object with the member's id, its eleven counters and the lengths, each under
  -- its key, and with the clocks of the first four members.
  pub cbc_collect_statistics_lem :
      (cbc : Cbcast)
      → 4 ≤ length cbc.vclock
      → cbc_collect_statistics c cbc
        ≡ done (
          record cbc {
            stats = record (cbc.stats) {
              sent_msg_buffer_size = length cbc.sent_msg_buffer;
              held_msg_buffer_size = length cbc.held_msg_buffer;
              delivery_queue_size = length cbc.delivery_queue;
              vector_clock_snapshot = some cbc.vclock;
              num_peers = 4;
            };
          },
          c.add_item_to_object
              (with_fields c.create_object (numbers_of cbc))
              Key.vector_clock_snapshot
              (with_numbers c.create_array (take 4 cbc.vclock)),
        )
  unfolding cbc_collect_statistics
  cbc_collect_statistics_lem cbc h =
      rw (add_clocks_lem reported_peers 0 c.create_array cbc.vclock h)

  -- In a group of fewer than four members collecting the statistics reads behind the copy of the
  -- clock.
  pub cbc_collect_statistics-fault :
      (cbc : Cbcast) → length cbc.vclock < reported_peers → cbc_collect_statistics c cbc ≡ fault
  unfolding cbc_collect_statistics
  cbc_collect_statistics-fault cbc h =
      rw (add_clocks-fault reported_peers 0 c.create_array cbc.vclock (omega arith) h)
