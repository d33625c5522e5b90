-- ===== src/Statistics.antt =====
-- `cbc_collect_statistics` and `serialize_statistics_to_json` of src/cbcast/statistics.c.
-- The calls of cJSON are a record that the functions take. A call changes its first argument, and
-- here returns it changed.
pub mod Laws
pub mod Loki
pub mod Envelope
use view_sync.Prelude.{ℕ, zero, suc, Option, none, some, List, [], ◌∷◌, length, get_elem?}
use view_sync.Prelude.Outcome.{Outcome, done, fault, deref, ◌>>=◌}
use view_sync.State.{Stats, Cbcast}
use view_sync.VectorClock.{vc_snapshot}

-- The keys of the log entry.
pub data Key : Type 0 where
  worker recv_msg_count sent_msg_count sent_ack_count sent_retransmit_req_count : Key
  sent_retransmit_count dropped_msg_count dropped_ack_count dropped_retransmit_req_count : Key
  dropped_retransmit_count delivered_msg_count delivery_queue_size sent_msg_buffer_size : Key
  held_msg_buffer_size vector_clock_snapshot : Key

pub record CJson (Json : Type 0) : Type 0 where
  pub create_object : Json
  pub create_array : Json
  pub create_number : ℕ → Json
  pub add_number_to_object : Json → Key → ℕ → Json
  pub add_item_to_array : Json → Json → Json
  pub add_item_to_object : Json → Key → Json → Json

-- The number that is fixed in the source for now.
abbrev pub reported_peers : ℕ
reported_peers = 4

-- The sizes of the buffers and a copy of the clock.
unfoldable pub updated : Cbcast → Stats
unfolding vc_snapshot
updated cbc = record (cbc.stats) {
  sent_msg_buffer_size = length cbc.sent_msg_buffer;
  held_msg_buffer_size = length cbc.held_msg_buffer;
  delivery_queue_size = length cbc.delivery_queue;
  vector_clock_snapshot = vc_snapshot cbc.vclock;
  num_peers = reported_peers;
}

module _ {Json : Type 0} (c : CJson Json) where
  -- The numbers of the entry, in the order of the calls.
  unfoldable pub add_counters : Json → ℕ → Stats → Json
  add_counters o₀ id s =
      let o₁ = c.add_number_to_object o₀ worker id in
      let o₂ = c.add_number_to_object o₁ recv_msg_count s.recv_msg_count in
      let o₃ = c.add_number_to_object o₂ sent_msg_count s.sent_msg_count in
      let o₄ = c.add_number_to_object o₃ sent_ack_count s.sent_ack_count in
      let o₅ = c.add_number_to_object o₄ sent_retransmit_req_count s.sent_retransmit_req_count in
      let o₆ = c.add_number_to_object o₅ sent_retransmit_count s.sent_retransmit_count in
      let o₇ = c.add_number_to_object o₆ dropped_msg_count s.dropped_msg_count in
      let o₈ = c.add_number_to_object o₇ dropped_ack_count s.dropped_ack_count in
      let o₉ =
        c.add_number_to_object o₈ dropped_retransmit_req_count s.dropped_retransmit_req_count in
      let p₀ = c.add_number_to_object o₉ dropped_retransmit_count s.dropped_retransmit_count in
      let p₁ = c.add_number_to_object p₀ delivered_msg_count s.delivered_msg_count in
      let p₂ = c.add_number_to_object p₁ delivery_queue_size s.delivery_queue_size in
      let p₃ = c.add_number_to_object p₂ sent_msg_buffer_size s.sent_msg_buffer_size in
      c.add_number_to_object p₃ held_msg_buffer_size s.held_msg_buffer_size

  -- The loop from index `i` on, with `n` rounds left.
  unfoldable pub add_clocks : ℕ → ℕ → Json → List ℕ → Outcome Json
  add_clocks zero i array clocks = done array
  add_clocks (suc n) i array clocks = do
    clock ← deref (get_elem? clocks i)
    add_clocks n (suc i) (c.add_item_to_array array (c.create_number clock)) clocks

  -- With no snapshot there is nothing to read.
  abbrev pub add_snapshot : ℕ → Json → Option (List ℕ) → Outcome Json
  add_snapshot zero array none = done array
  add_snapshot (suc n) array none = fault
  add_snapshot n array (some clocks) = add_clocks n 0 array clocks

  unfoldable pub serialize_statistics_to_json : ℕ → Stats → Outcome Json
  unfolding add_counters add_clocks
  serialize_statistics_to_json id s = do
    array ← add_snapshot s.num_peers c.create_array s.vector_clock_snapshot
    done (c.add_item_to_object (add_counters c.create_object id s) Key.vector_clock_snapshot array)

  -- The state after the call, and the entry.
  unfoldable pub cbc_collect_statistics : Cbcast → Outcome (Cbcast × Json)
  unfolding updated serialize_statistics_to_json
  cbc_collect_statistics cbc = do
    json ← serialize_statistics_to_json cbc.pid (updated cbc)
    done (record cbc { stats = updated cbc }, json)
