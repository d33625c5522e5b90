-- ===== src/Receive/Handled.antt =====
-- Every branch of `handle_data_msg`, by the message's clock and its sender's.
use view_sync.Prelude.{
  ◌%◌, ℕ, ◌+◌, ◌-◌, ◌^◌, ◌≤◌, ◌<◌, ◌≡◌, ◌≢◌, refl, ap, ◌⊎◌, inl, inr, length, get_or, arith,
}
use native.Mathlib.Decide.{dec_lt, ℕ_discrete}
use view_sync.Prelude.Outcome.{Outcome, done, exit}
use view_sync.Message.{Message, cbc_data, cbc_retransmit, is_retransmit, cbc_retransmit_req}
use view_sync.State.{Cbcast}
use view_sync.Peer.{uint16_max, cbc_peer_get_addr_copy}
use view_sync.Receive.{check_msg_causality, causality_deliver}
use view_sync.Receive.Data.{handle_data_msg}
use view_sync.Receive.Rounds.{Delivered}
use view_sync.Receive.Control.{with_control}
use view_sync.Receive.Branches.{
  check_msg_causality_lem, stale-error, stale_data_exits, with_ack_for, with_delivery, received,
  kept, kept-vclock, handle_data_msg-again, handle_data_msg-deliver, handle_data_msg-fill,
  handle_data_msg-hold,
}

-- How the call may end, `current` being the sender's clock.
pub data Handled (cbc : Cbcast) (msg : Message) (pid current : ℕ) : Outcome Cbcast → Type 0 where
  stale : msg.header.clock ≤ current → msg.header.kind ≡ cbc_data → Handled cbc msg pid current exit
  again :
      msg.header.clock ≤ current
      → msg.header.kind ≡ cbc_retransmit
      → Handled cbc msg pid current (done (with_ack_for cbc msg pid))
  next :
      msg.header.clock ≡ current + 1
      → msg.header.kind ≡ cbc_data
      → Handled cbc msg pid current
          (done (with_delivery (with_ack_for cbc msg pid) (received msg pid) pid))
  fill :
      {cbc' : Cbcast}
      → msg.header.clock ≡ current + 1
      → msg.header.kind ≡ cbc_retransmit
      → Delivered pid (with_delivery (with_ack_for cbc msg pid) (received msg pid) pid) cbc'
      → Handled cbc msg pid current (done cbc')
  ahead :
      {asked : Cbcast}
      → current + 1 < msg.header.clock
      → asked
        ≡ with_control
            (kept cbc msg pid)
            cbc_retransmit_req
            ((get_or (kept cbc msg pid).vclock pid 0 + 1) % 2 ^ 64)
            (cbc_peer_get_addr_copy (kept cbc msg pid) pid)
      → Handled cbc msg pid current (done asked)

module _ (cbc : Cbcast) (msg : Message) (pid : ℕ) (ackable : msg.header.clock ≢ uint16_max)
    (known : pid ≢ uint16_max) (member : pid < length cbc.vclock)
    (small : get_or cbc.vclock pid 0 < 2 ^ 64 - 1) where
  abbrev Ends : Type 0
  Ends = Handled cbc msg pid (get_or cbc.vclock pid 0) (handle_data_msg cbc msg pid)

  stale-Ends :
      msg.header.clock ≤ get_or cbc.vclock pid 0
      → (msg.header.kind ≡ cbc_data) ⊎ (msg.header.kind ≡ cbc_retransmit)
      → Ends
  stale-Ends old (inl data_kind) =
      rw (stale_data_exits cbc msg pid data_kind small old) (stale old data_kind)
  stale-Ends old (inr again_kind) =
      rw
        (handle_data_msg-again cbc msg pid ackable
          (stale-error cbc.vclock pid msg.header.clock small old) (ap is_retransmit again_kind))
        (again old again_kind)

  next-Ends :
      msg.header.clock ≡ get_or cbc.vclock pid 0 + 1
      → (msg.header.kind ≡ cbc_data) ⊎ (msg.header.kind ≡ cbc_retransmit)
      → Ends
  next-Ends now k = by_kind k
    where
      may : check_msg_causality cbc.vclock pid msg.header.clock ≡ causality_deliver
      may = (check_msg_causality_lem cbc.vclock pid msg.header.clock small).0.1 (member, now)

      by_kind : (msg.header.kind ≡ cbc_data) ⊎ (msg.header.kind ≡ cbc_retransmit) → Ends
      by_kind (inl data_kind) =
          rw (handle_data_msg-deliver cbc msg pid ackable may (ap is_retransmit data_kind))
            (next now data_kind)
      by_kind (inr again_kind) =
          let r = handle_data_msg-fill cbc msg pid ackable may (ap is_retransmit again_kind) in
          rw (r.1) (fill now again_kind r.2)

  ahead-Ends : get_or cbc.vclock pid 0 + 1 < msg.header.clock → Ends
  ahead-Ends far =
      rw
        (handle_data_msg-hold cbc msg pid ackable
          ((check_msg_causality_lem cbc.vclock pid msg.header.clock small).1.1 (member, far)) known
          (rw (kept-vclock cbc msg pid) member))
        (ahead far refl)

  -- A data message or a retransmission, without the clock 65535, from a sender within the clock,
  -- with an id other than 65535 and a clock that has room to step, is handled by comparing its
  -- clock with its sender's. One that is not new ends the process if it is data, and is only acked
  -- again if it is a retransmission. The next one is acked and delivered, and if it is a
  -- retransmission, the held messages of its sender that follow are delivered after it, each once,
  -- until none can be, and nothing else changes. One
  -- further ahead is acked, held unless a copy is, and the next one is asked for.
  pub handle_data_msg-Handled :
      (msg.header.kind ≡ cbc_data) ⊎ (msg.header.kind ≡ cbc_retransmit)
      → Handled cbc msg pid (get_or cbc.vclock pid 0) (handle_data_msg cbc msg pid)
  handle_data_msg-Handled k = elim (dec_lt (get_or cbc.vclock pid 0) msg.header.clock) [
    | no old ↦ stale-Ends (omega arith) k
    | yes new ↦ elim (ℕ_discrete msg.header.clock (get_or cbc.vclock pid 0 + 1)) [
      | yes now ↦ next-Ends now k
      | no far ↦ ahead-Ends (omega arith)
    ]
  ]
