-- ===== src/Send/Total.antt =====
-- `handle_old_messages` of src/cbcast/send.c in a well-formed member.
use view_sync.Prelude.{
  Option, ℕ, ◌≡◌, ◌<◌, ◌^◌, ◌%◌, refl, sym, subst, inl, inr, Bool, true, false, Bool-cases, List,
  [], ◌∷◌, ◌++◌, map, length, keep, not, get_or, ◌==◌, All, All-append, arith, find_index,
  get_elem?-in,
}
use mathlib.Core.List.{append-nil}
use view_sync.Prelude.Outcome.{done, Returns, Returns-bind, Returns-map}
use view_sync.Prelude.Keep.{All-keep, keep_not}
use view_sync.Message.{OutgoingMessage, SentMessage, SockAddr}
use view_sync.State.{Peer, Cbcast}
use view_sync.Receive.Acks.{with_ack, fully_acked}
use view_sync.Send.{handle_old_messages, handle_old_found, handle_dead_messages, give_up}
use view_sync.Send.Old.{get_current_clock, find_old_messages, is_old, is_dead_msg}
use view_sync.Send.Dead.{
  arrfind, found, add_dead, collect_dead, find_dead_peers, mark_peer, disconnect_if,
  must_disconnect,
}
use view_sync.Send.Loops.{IsShiftable, filter_dead_messages_lem}
use view_sync.Send.GiveUp.{marked, mark_all_lem, handle_dead_peers_value}
use view_sync.Send.Resend.{
  All-imp, IsResendable, Resends, find_unacked_peers-IsKnown, retransmit_messages-Queued,
}

add_dead-IsShiftable :
    (dead ts : List ℕ)
    → All IsShiftable dead
    → All IsShiftable ts
    → All IsShiftable (add_dead dead ts)
unfolding add_dead
add_dead-IsShiftable dead [] h k = h
add_dead-IsShiftable dead (t ∷ ts) h k = elim (Bool-cases (found (arrfind dead t))) [
  | inl old ↦ rw old (add_dead-IsShiftable dead ts h k.1)
  | inr new ↦ rw new (
      add_dead-IsShiftable (dead ++ (t ∷ [])) ts (All-append IsShiftable dead (t ∷ []) h (k.0, tt))
        k.1)
]

module _ (cbc : Cbcast) (shifts : All (λ p. IsShiftable p.pid) cbc.peers) where
  -- One dead message's targets.
  collect_targets :
      (dead targets : List ℕ) (rest : List SentMessage)
      → All IsShiftable dead
      → All IsShiftable targets
      → ((dead' : List ℕ)
          → All IsShiftable dead'
          → Returns (All IsShiftable) (collect_dead cbc dead' rest))
      → Returns
          (All IsShiftable)
          (elim targets [ [] ↦ done [] | t ∷ ts ↦ collect_dead cbc (add_dead dead (t ∷ ts)) rest ])
  collect_targets dead [] rest h k later = ([], refl, tt)
  collect_targets dead (t ∷ ts) rest h k later =
      later (add_dead dead (t ∷ ts)) (add_dead-IsShiftable dead (t ∷ ts) h k)

  collect_dead-IsShiftable :
      (msgs : List SentMessage) (dead : List ℕ)
      → All IsShiftable dead
      → Returns (All IsShiftable) (collect_dead cbc dead msgs)
  unfolding collect_dead
  collect_dead-IsShiftable [] dead h = (dead, refl, h)
  collect_dead-IsShiftable (s ∷ rest) dead h =
      Returns-bind (find_unacked_peers-IsKnown (λ _ _. Unit) cbc.peers [] [] shifts cbc s refl)
        λ targets (_, k). collect_targets dead targets rest h k (collect_dead-IsShiftable rest)

  find_dead_peers-IsShiftable :
      (msgs : List SentMessage) → Returns (All IsShiftable) (find_dead_peers cbc msgs)
  unfolding find_dead_peers
  find_dead_peers-IsShiftable msgs = collect_dead-IsShiftable msgs [] tt

mark_peer-All :
    (P : ℕ → SockAddr → Type 0) (dead : List ℕ) (ps : List Peer)
    → All (λ p. P p.pid p.addr) ps
    → All (λ p. P p.pid p.addr) (map (mark_peer dead) ps)
mark_peer-All P dead [] h = tt
mark_peer-All P dead (p ∷ ps) h = (marked_peer, mark_peer-All P dead ps h.1)
  where
    marked_peer : P (mark_peer dead p).pid (mark_peer dead p).addr
    marked_peer = elim (Bool-cases (found (find_index (λ x. x == p.pid) dead))) [
      | inl e ↦ rw e h.0
      | inr e ↦ rw e h.0
    ]

marked-message : (dead : List ℕ) (s : SentMessage) → (marked dead s).message ≡ s.message
marked-message [] s = refl
marked-message (d ∷ ds) s = marked-message ds (with_ack (2 ^ d) s)

module _ (Says : ℕ → Option (List ℕ) → Type 0) (Knows : ℕ → SockAddr → Type 0) where
  -- Ids below 31 of peers that are known as `Knows` says, and sent messages that can be sent again.
  pub record IsSoundFor (cbc : Cbcast) : Type 0 where
    pub known : All (λ p. IsShiftable p.pid × Knows p.pid p.addr) cbc.peers
    pub resendable : All (IsResendable Says) cbc.sent_msg_buffer

  pub shifts_of :
      (ps : List Peer)
      → All (λ p. IsShiftable p.pid × Knows p.pid p.addr) ps
      → All (λ p. IsShiftable p.pid) ps
  shifts_of ps = All-imp ps (λ p. λ (h : IsShiftable p.pid × Knows p.pid p.addr). h.0)

  marked-IsResendable :
      (dead : List ℕ) (old : List SentMessage)
      → All (IsResendable Says) old
      → All (IsResendable Says) (map (marked dead) old)
  marked-IsResendable dead [] h = tt
  marked-IsResendable dead (s ∷ rest) h = (
    subst (λ m. IsResendable Says (record s { message = m })) (sym (marked-message dead s)) h.0,
    marked-IsResendable dead rest h.1,
  )

  -- The old messages that are left, with a member that can send them again.
  abbrev Given : List OutgoingMessage → Cbcast × List SentMessage → Type 0
  Given queue r = IsSoundFor r.0 × (r.0.send_queue ≡ queue) × All (IsResendable Says) r.1

  disconnect_if-queue :
      (b : Bool) (cbc : Cbcast) → (disconnect_if b cbc).send_queue ≡ cbc.send_queue
  disconnect_if-queue true cbc = refl
  disconnect_if-queue false cbc = refl

  module _ (cbc : Cbcast) (sound : IsSoundFor cbc) (any : 0 < length cbc.peers) where
    give_up-Given :
        (old : List SentMessage) (dead : List ℕ)
        → All (IsResendable Says) old
        → All IsShiftable dead
        → Returns (Given cbc.send_queue) (give_up cbc old dead)
    unfolding give_up
    give_up-Given old [] r h = ((cbc, old), refl, (sound, refl, r))
    give_up-Given old (d ∷ ds) r h = (
      (
        record (disconnect_if (must_disconnect (length cbc.peers) (length (d ∷ ds))) cbc) {
          peers = map (mark_peer (d ∷ ds)) cbc.peers;
          sent_msg_buffer = keep_not fully_acked (map (marked (d ∷ ds)) cbc.sent_msg_buffer);
        },
        map (marked (d ∷ ds)) old,
      ),
      rw (handle_dead_peers_value cbc d ds any h, mark_all_lem (d ∷ ds) old h) refl,
      (
        record {
          known =
              mark_peer-All (λ pid addr. IsShiftable pid × Knows pid addr) (d ∷ ds) cbc.peers
                sound.known;
          resendable =
              All-keep (IsResendable Says) (λ s. not (fully_acked s))
                (map (marked (d ∷ ds)) cbc.sent_msg_buffer)
                (marked-IsResendable (d ∷ ds) cbc.sent_msg_buffer sound.resendable);
        },
        disconnect_if-queue (must_disconnect (length cbc.peers) (length (d ∷ ds))) cbc,
        marked-IsResendable (d ∷ ds) old r,
      ),
    )

    handle_dead_messages-Given :
        (dead_msgs old : List SentMessage)
        → All (IsResendable Says) old
        → Returns (Given cbc.send_queue) (handle_dead_messages cbc dead_msgs old)
    handle_dead_messages-Given [] old r = ((cbc, old), refl, (sound, refl, r))
    handle_dead_messages-Given (s ∷ ss) old r =
        Returns-bind (find_dead_peers-IsShiftable cbc (shifts_of cbc.peers sound.known) (s ∷ ss))
          λ dead h. give_up-Given old dead r h

    handle_old_found-IsSound :
        (current : ℕ) (old : List SentMessage)
        → All (IsResendable Says) old
        → Returns
            (λ c. IsSoundFor c × Resends Says cbc.send_queue c)
            (handle_old_found cbc current old)
    handle_old_found-IsSound current [] r = (cbc, refl, (sound, ([], sym (append-nil _), tt)))
    handle_old_found-IsSound current (s ∷ ss) r = rw (filter_dead_messages_lem current (s ∷ ss)) (
        Returns-bind
          (handle_dead_messages-Given (keep (is_dead_msg current) (s ∷ ss))
            (keep_not (is_dead_msg current) (s ∷ ss))
            (All-keep (IsResendable Says) (λ x. not (is_dead_msg current x)) (s ∷ ss) r))
          λ (c, old) (ok, same, left).
            Returns-map
              (λ c' (ps, buffer, more). (
                record {
                  known =
                      subst (All (λ p. IsShiftable p.pid × Knows p.pid p.addr)) (sym ps) ok.known;
                  resendable = subst (All (IsResendable Says)) (sym buffer) ok.resendable;
                },
                subst (λ q. Resends Says q c') same more,
              ))
              (retransmit_messages-Queued Says c.peers c.send_queue c.sent_msg_buffer old c
                (shifts_of c.peers ok.known) left (refl, refl, ([], sym (append-nil _), tt))))

  pub handle_old_messages-IsSound :
      (cbc : Cbcast)
      → IsSoundFor cbc
      → cbc.pid < length cbc.vclock
      → Returns (λ c. IsSoundFor c × Resends Says cbc.send_queue c) (handle_old_messages cbc)
  unfolding handle_old_messages get_current_clock find_old_messages
  handle_old_messages-IsSound cbc sound own = elim (Bool-cases (length cbc.sent_msg_buffer == 0)) [
    | inl e ↦ rw e (cbc, refl, unchanged)
    | inr e ↦ rw e (elim (Bool-cases (length cbc.peers == 0)) [
      | inl z ↦ rw z (cbc, refl, unchanged)
      | inr z ↦
          rw (z, get_elem?-in cbc.vclock cbc.pid 0 own)
            (handle_old_found-IsSound cbc sound (ground arith)
              (get_or cbc.vclock cbc.pid 0 % 2 ^ 16)
              (keep (is_old (get_or cbc.vclock cbc.pid 0 % 2 ^ 16)) cbc.sent_msg_buffer)
              (All-keep (IsResendable Says) (is_old (get_or cbc.vclock cbc.pid 0 % 2 ^ 16))
                cbc.sent_msg_buffer sound.resendable))
    ])
  ]
    where
      unchanged : IsSoundFor cbc × Resends Says cbc.send_queue cbc
      unchanged = (sound, ([], sym (append-nil _), tt))

-- The same where nothing more is known of payloads and peers.
abbrev pub Anything : ℕ → Option (List ℕ) → Type 0
Anything clock payload = Unit

abbrev pub Anyone : ℕ → SockAddr → Type 0
Anyone pid addr = Unit

abbrev pub IsSound : Cbcast → Type 0
IsSound cbc = IsSoundFor Anything Anyone cbc
