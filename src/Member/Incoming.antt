-- ===== src/Member/Incoming.antt =====
-- A round of the receive thread in a well-formed member: `cbc_recv_thread` of src/cbcast/receive.c.
use Prim.Native.Nat.{min}
use view_sync.Prelude.{
  ℕ, zero, suc, ◌+◌, ◌*◌, ◌%◌, ◌^◌, ◌≤◌, ◌<◌, ◌≡◌, ◌≢◌, refl, ap, ap₂, ◌∙◌, inl, inr, false,
  Bool-cases, some, List, [], ◌∷◌, length, get_or, take, ltb, ◌==◌, All, ==_iff, length-take_of_le,
  arith,
}
use view_sync.Prelude.Outcome.{Outcome, done, Result, result_ok, result_err}
use view_sync.Prelude.Safe.{Safe, fine, left, Safe-bind}
use view_sync.Message.{
  Kind, cbc_data, cbc_ack, cbc_retransmit_req, cbc_retransmit, unknown, Header, Message, SockAddr,
}
use view_sync.Message.Wire.{
  header_size, u16_at, read_header, deserialize_payload, deserialize_as, cbc_msg_deserialize,
}
use view_sync.State.{Cbcast}
use view_sync.Peer.{uint16_max, cbc_peer_find_by_addr}
use view_sync.Receive.Thread.{Datagram, dispatch, dispatch_result, handle_datagram, recv_round}
use view_sync.Send.Loops.{IsShiftable}
use view_sync.Member.{Promises, CarriesAs, Carries, Speaks, IsHealthy}
use view_sync.Member.Peers.{find_by_addr-known}
use view_sync.Member.Control.{register_ack-Safe, queue_retransmission-Safe}
use view_sync.Member.Deliver.{handle_data_msg-Safe}

get_or-take : (n i : ℕ) (xs : List ℕ) → i < n → get_or (take n xs) i 0 ≡ get_or xs i 0
get_or-take zero i xs h = absurd (omega arith)
get_or-take (suc n) i [] h = refl
get_or-take (suc n) zero (x ∷ xs) h = refl
get_or-take (suc n) (suc i) (x ∷ xs) h = get_or-take n i xs (omega arith)

u16_at-take : (n i : ℕ) (xs : List ℕ) → i + 1 < n → u16_at (take n xs) i ≡ u16_at xs i
u16_at-take n i xs h =
    ap₂ (λ a b. (a + 256 * b) % 2 ^ 16) (get_or-take n i xs (omega arith))
      (get_or-take n (i + 1) xs h)

-- Cutting a datagram behind its header leaves the length that the header says.
read_header-take :
    (n : ℕ) (xs : List ℕ) → header_size ≤ n → (read_header (take n xs)).len ≡ (read_header xs).len
unfolding read_header
read_header-take n xs h = u16_at-take n 6 xs (omega arith)

-- Nothing is asked of the result.
abbrev Any : Result Message → Type 0
Any r = Unit

deserialize_payload-Safe :
    (h : Header) (bytes : List ℕ)
    → header_size + h.len ≤ length bytes
    → Safe Any (deserialize_payload h bytes)
deserialize_payload-Safe h bytes whole = elim (Bool-cases (h.len == 0)) [
  | inl e ↦ rw e (fine tt)
  | inr e ↦
      let enough : ltb (length bytes) (header_size + h.len) ≡ false = ground arith in
      rw (e, enough) (fine tt)
]

deserialize_as-Safe :
    (k : Kind) (h : Header) (bytes : List ℕ)
    → header_size + h.len ≤ length bytes
    → Safe Any (deserialize_as k h bytes)
deserialize_as-Safe cbc_ack h bytes whole = fine tt
deserialize_as-Safe cbc_retransmit_req h bytes whole = fine tt
deserialize_as-Safe cbc_data h bytes whole = deserialize_payload-Safe h bytes whole
deserialize_as-Safe cbc_retransmit h bytes whole = deserialize_payload-Safe h bytes whole
deserialize_as-Safe (unknown c) h bytes whole = deserialize_payload-Safe h bytes whole

cbc_msg_deserialize-Safe :
    (bytes : List ℕ)
    → header_size + (read_header bytes).len ≤ length bytes
    → Safe Any (cbc_msg_deserialize (some bytes))
unfolding cbc_msg_deserialize
cbc_msg_deserialize-Safe bytes whole =
    let enough : ltb (length bytes) header_size ≡ false = ground (arith, whole) in
    rw enough (deserialize_as-Safe (read_header bytes).kind (read_header bytes) bytes whole)

-- What is known of a safe call's value is what the call says.
Safe-self : {m : Outcome (Result Message)} → Safe Any m → Safe (λ r. m ≡ done r) m
Safe-self (fine p) = fine refl
Safe-self left = left

-- A full datagram is parsed without a fault.
parse-Safe :
    (bytes : List ℕ)
    → header_size + (read_header bytes).len ≤ length bytes
    → Safe
        (λ r.
          cbc_msg_deserialize (some (take (header_size + (read_header bytes).len) bytes)) ≡ done r)
        (cbc_msg_deserialize (some (take (header_size + (read_header bytes).len) bytes)))
parse-Safe bytes whole =
    let size = header_size + (read_header bytes).len in
    Safe-self (
      cbc_msg_deserialize-Safe (take size bytes) (
        omega
          (arith, length-take_of_le size bytes whole, read_header-take size bytes (omega arith))))

module _ (w : Promises)
    (apart : (pid : ℕ) (addr : SockAddr) → w.Knows pid addr → pid ≢ w.self) where
  -- What a datagram says is what comes from the peers that are known by its source.
  abbrev pub IsTrusted : Datagram → Type 0
  IsTrusted d = (pid : ℕ) → w.Knows pid d.source → Speaks (w.Comes pid) d.bytes

  dispatch-Safe :
      (k : Kind) (cbc : Cbcast) (msg : Message) (pid : ℕ)
      → IsShiftable pid
      → pid ≢ w.self
      → CarriesAs (w.Comes pid) k msg.header.clock msg.payload
      → IsHealthy w cbc
      → Safe (IsHealthy w) (dispatch k cbc msg pid)
  dispatch-Safe cbc_data cbc msg pid small other c h =
      handle_data_msg-Safe w cbc msg pid small other c h
  dispatch-Safe cbc_retransmit cbc msg pid small other c h =
      handle_data_msg-Safe w cbc msg pid small other c h
  dispatch-Safe cbc_ack cbc msg pid small other c h = register_ack-Safe w cbc msg pid small h
  dispatch-Safe cbc_retransmit_req cbc msg pid small other c h =
      queue_retransmission-Safe w cbc msg pid h
  dispatch-Safe (unknown code) cbc msg pid small other c h = fine h

  dispatch_result-Safe :
      (r : Result Message) (cbc : Cbcast) (pid : ℕ)
      → IsShiftable pid
      → pid ≢ w.self
      → ((m : Message) → r ≡ result_ok m → Carries (w.Comes pid) m)
      → IsHealthy w cbc
      → Safe (IsHealthy w) (dispatch_result r cbc pid)
  dispatch_result-Safe (result_err e) cbc pid small other c h = fine h
  dispatch_result-Safe (result_ok m) cbc pid small other c h =
      dispatch-Safe m.header.kind cbc m pid small other (c m refl) h

  handle_datagram-Safe :
      (cbc : Cbcast) (d : Datagram)
      → IsTrusted d
      → IsHealthy w cbc
      → Safe (IsHealthy w) (handle_datagram cbc d)
  unfolding handle_datagram
  handle_datagram-Safe cbc d trusted h =
      let size = header_size + (read_header d.bytes).len in
      elim (Bool-cases (min (length d.bytes) size == size)) [
        | inr short ↦ rw short (fine h)
        | inl whole ↦
            rw whole (elim (Bool-cases (cbc_peer_find_by_addr cbc d.source == uint16_max)) [
              | inl stranger ↦ rw stranger (fine h)
              | inr peer ↦
                  let ne : cbc_peer_find_by_addr cbc d.source ≢ uint16_max = ground arith in
                  let (small, knows) = find_by_addr-known w.Knows cbc d.source h.sound.known ne in
                  let fits : size ≤ length d.bytes =
                    omega (arith, (==_iff (min (length d.bytes) size) size).0 whole) in
                  rw peer (
                    Safe-bind (parse-Safe d.bytes fits) λ r e.
                      dispatch_result-Safe r cbc _ small (apart _ d.source knows)
                        (λ m same. trusted _ knows m (e ∙ ap done same)) h)
            ])
      ]

  -- One round of the receive thread.
  pub recv_round-Safe :
      (cbc : Cbcast) (inbox : List Datagram)
      → All IsTrusted inbox
      → IsHealthy w cbc
      → Safe (λ r. IsHealthy w r.0 × All IsTrusted r.1) (recv_round cbc inbox)
  unfolding recv_round
  recv_round-Safe cbc [] t h = fine (h, tt)
  recv_round-Safe cbc (d ∷ ds) t h =
      elim (Bool-cases (ltb (min (length d.bytes) header_size) header_size)) [
        | inl short ↦ rw short (fine (h, t))
        | inr whole ↦ rw whole (Safe-bind (handle_datagram-Safe cbc d t.0 h) λ c g. fine (g, t.1))
      ]
