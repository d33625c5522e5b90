-- ===== src/Send/Resend.antt =====
-- Queueing retransmissions, src/cbcast/send.c, to peers that are known by their ids.
use mathlib.Core.List.{append_assoc, reverse, reverse_aux}
use view_sync.Prelude.{
  ℕ, ◌≡◌, ◌<◌, ◌^◌, ◌%◌, refl, sym, ap, subst, ◌∙◌, inl, inr, false, Bool-cases, Option, some, List,
  [], ◌∷◌, ◌++◌, map, length, length-append, take-append, take, keep, ltb, ◌==◌, All, All-append,
  ==_refl, arith,
}
use view_sync.Prelude.Outcome.{result_unwrap, ◌>>=◌, Result, result_ok, Returns, Returns-bind}
use view_sync.Prelude.Keep.{All-keep}
use view_sync.Prelude.Bits.{bit}
use view_sync.Message.{
  Message, SockAddr, OutgoingMessage, SentMessage, cbc_retransmit, set_clock, cbc_msg_create,
  cbc_outgoing_msg_create,
}
use view_sync.Message.Laws.{Terminated, IsMessage, shaped-IsMessage}
use view_sync.State.{Peer, Cbcast}
use view_sync.Peer.{addr_of, cbc_peer_get_addr_copy}
use view_sync.Receive.{enqueue}
use view_sync.Send.Old.{
  find_unacked_peers, queue_retransmit_messages, retransmit_from_end, retransmit_messages,
}
use view_sync.Send.Loops.{IsShiftable, lacking, find_unacked_peers_lem}

-- Ids that a lookup finds.
abbrev pub IsKnown : List Peer → ℕ → Type 0
IsKnown ps pid = (addr : SockAddr) × (addr_of ps pid ≡ some addr)

IsKnown-cons : (p : Peer) (ps : List Peer) (pid : ℕ) → IsKnown ps pid → IsKnown (p ∷ ps) pid
unfolding addr_of
IsKnown-cons p ps pid (addr, e) = elim (Bool-cases (p.pid == pid)) [
  | inl same ↦ (p.addr, rw same)
  | inr other ↦ (addr, rw other e)
]

pub All-imp :
    {A : Type 0} {P Q : A → Type 0} (xs : List A) → ((x : A) → P x → Q x) → All P xs → All Q xs
All-imp [] f h = tt
All-imp (x ∷ xs) f h = (f x h.0, All-imp xs f h.1)

pub peers-IsKnown : (ps : List Peer) → All (λ p. IsKnown ps p.pid) ps
unfolding addr_of
peers-IsKnown [] = tt
peers-IsKnown (p ∷ ps) =
    ((p.addr, rw (==_refl p.pid)), All-imp ps (λ q. IsKnown-cons p ps q.pid) (peers-IsKnown ps))

pub All-pids :
    (P : ℕ → Type 0) (ps : List Peer) → All (λ p. P p.pid) ps → All P (map (λ p. p.pid) ps)
All-pids P [] h = tt
All-pids P (p ∷ ps) h = (h.0, All-pids P ps h.1)

-- Whatever the bitmap, the peers that lack the message have what all peers have.
pub All-lacking :
    (P : ℕ → Type 0) (bitmap : ℕ) (ps : List Peer)
    → All (λ p. P p.pid) ps
    → All P (lacking bitmap ps)
All-lacking P bitmap ps h =
    All-pids P (keep (λ p. bit bitmap p.pid == 0) ps)
      (All-keep (λ p. P p.pid) (λ p. bit bitmap p.pid == 0) ps h)

abbrev again_msg : List ℕ → ℕ → Message
again_msg payload n = record {
  header = record { kind = cbc_retransmit; clock = 0; len = n };
  payload = some (take n payload ++ 0 ∷ []);
}

-- A retransmission with this payload and length.
abbrev pub IsAgainOf : Option (List ℕ) → ℕ → Result Message → Type 0
IsAgainOf p n r =
    (m : Message) × (r ≡ result_ok m)
    × (m.header.kind ≡ cbc_retransmit)
    × (m.payload ≡ p)
    × (m.header.len ≡ n)

pub cbc_msg_create-again :
    (p : Option (List ℕ)) (n : ℕ)
    → Terminated p n
    → n < 2 ^ 16
    → Returns (IsAgainOf p n) (cbc_msg_create cbc_retransmit p n)
unfolding cbc_msg_create
cbc_msg_create-again p n (bs, e, l, pos) fits =
    subst (λ q. Returns (IsAgainOf q n) (cbc_msg_create cbc_retransmit q n)) (sym e)
      (result_ok made, rw (some_left, enough), (made, refl, refl, same, cut))
  where
    made : Message
    made = again_msg (bs ++ 0 ∷ []) (n % 2 ^ 16)

    cut : n % 2 ^ 16 ≡ n
    cut = omega arith

    same : made.payload ≡ some (bs ++ 0 ∷ [])
    same =
        ap (λ k. some (take k (bs ++ 0 ∷ []) ++ 0 ∷ [])) (cut ∙ sym l)
        ∙ ap (λ t. some (t ++ 0 ∷ [])) (take-append bs (0 ∷ []))

    some_left : (n % 2 ^ 16 == 0) ≡ false
    some_left = ground arith

    enough : ltb (length (bs ++ 0 ∷ [])) (n % 2 ^ 16) ≡ false
    enough = ground (arith, length-append bs (0 ∷ []))

reverse_aux-All :
    (P : SentMessage → Type 0) (xs acc : List SentMessage)
    → All P xs
    → All P acc
    → All P (reverse_aux xs acc)
reverse_aux-All P [] acc h k = k
reverse_aux-All P (x ∷ xs) acc h k = reverse_aux-All P xs (x ∷ acc) h.1 (h.0, k)

-- `Says` is what holds of the clock and the payload of every message that the member sends.
module _ (Says : ℕ → Option (List ℕ) → Type 0) where
  -- A sent message that can be sent again: its payload is what its header says.
  abbrev pub IsResendable : SentMessage → Type 0
  IsResendable s =
      Terminated s.message.payload s.message.header.len
      × (s.message.header.len < 2 ^ 16)
      × (s.message.header.clock < 2 ^ 16)
      × Says s.message.header.clock s.message.payload

  abbrev pub IsAgain : OutgoingMessage → Type 0
  IsAgain out =
      (out.message.header.kind ≡ cbc_retransmit)
      × IsMessage out.message
      × Says out.message.header.clock out.message.payload

  -- A copy with the clock of the message.
  pub IsAgainOf-IsAgain :
      (s : SentMessage) (m : Message) (clock : ℕ)
      → IsResendable s
      → clock ≡ s.message.header.clock
      → m.header.kind ≡ cbc_retransmit
      → m.payload ≡ s.message.payload
      → m.header.len ≡ s.message.header.len
      → (a : Option SockAddr)
      → IsAgain (record { message = set_clock m clock; addr = a; socket_flags = 0 })
  IsAgainOf-IsAgain s m clock (t, fits, small, says) now k p l a = (
    k,
    (shaped-IsMessage cbc_retransmit clock m k (omega (arith, l)) (
        subst (λ n. Terminated m.payload n) (sym l)
          (subst (λ q. Terminated q s.message.header.len) (sym p) t))).0,
    subst (λ c. Says c m.payload) clock_same (subst (Says s.message.header.clock) (sym p) says),
  )
    where
      clock_same : s.message.header.clock ≡ clock % 2 ^ 16
      clock_same = omega arith

  -- The second state is the first with retransmissions put at the end of the send queue.
  abbrev pub Resends : List OutgoingMessage → Cbcast → Type 0
  Resends queue cbc =
      (rest : List OutgoingMessage) × (cbc.send_queue ≡ queue ++ rest) × All IsAgain rest

  enqueue-Resends :
      (queue : List OutgoingMessage) (cbc : Cbcast) (out : OutgoingMessage)
      → IsAgain out
      → Resends queue cbc
      → Resends queue (enqueue cbc out)
  enqueue-Resends queue cbc out a (rest, e, h) = (
    rest ++ (out ∷ []),
    ap (λ q. q ++ (out ∷ [])) e ∙ append_assoc queue rest (out ∷ []),
    All-append IsAgain rest (out ∷ []) h (a, tt),
  )

  -- What stays when messages are put into the send queue.
  abbrev pub Queued : List Peer → List OutgoingMessage → List SentMessage → Cbcast → Type 0
  Queued ps queue buffer cbc = (cbc.peers ≡ ps) × (cbc.sent_msg_buffer ≡ buffer) × Resends queue cbc

  module _ (ps : List Peer) (queue : List OutgoingMessage) (buffer : List SentMessage) where
    cbc_outgoing_msg_create-IsAgain :
        (cbc : Cbcast) (s : SentMessage) (m : Message) (pid : ℕ)
        → IsResendable s
        → m.header.kind ≡ cbc_retransmit
        → m.payload ≡ s.message.payload
        → m.header.len ≡ s.message.header.len
        → cbc.peers ≡ ps
        → IsKnown ps pid
        → Returns IsAgain (
            result_unwrap (
              cbc_outgoing_msg_create
                (set_clock m s.message.header.clock)
                (cbc_peer_get_addr_copy cbc pid)))
    unfolding cbc_outgoing_msg_create cbc_peer_get_addr_copy
    cbc_outgoing_msg_create-IsAgain cbc s m pid r k p l same (addr, e) =
        let at : addr_of cbc.peers pid ≡ some addr = ap (λ l. addr_of l pid) same ∙ e in
        rw at (
          record {
            message = set_clock m s.message.header.clock;
            addr = some addr;
            socket_flags = 0;
          },
          refl,
          IsAgainOf-IsAgain s m s.message.header.clock r refl k p l (some addr),
        )

    queue_retransmit_messages-Queued :
        (s : SentMessage) (pids : List ℕ) (cbc : Cbcast)
        → IsResendable s
        → All (IsKnown ps) pids
        → Queued ps queue buffer cbc
        → Returns (Queued ps queue buffer) (queue_retransmit_messages cbc s pids)
    unfolding queue_retransmit_messages
    queue_retransmit_messages-Queued s [] cbc r h q = (cbc, refl, q)
    queue_retransmit_messages-Queued s (pid ∷ pids) cbc r h q =
        Returns-bind (cbc_msg_create-again s.message.payload s.message.header.len r.0 r.1)
          λ res (m, e, k, p, l).
            subst
              (λ x. Returns (Queued ps queue buffer) (
                result_unwrap x >>= λ m.
                result_unwrap (
                  cbc_outgoing_msg_create (set_clock m s.message.header.clock)
                    (cbc_peer_get_addr_copy cbc pid))
                >>= λ out. queue_retransmit_messages (enqueue cbc out) s pids))
              (sym e)
              (Returns-bind (cbc_outgoing_msg_create-IsAgain cbc s m pid r k p l q.0 h.0) λ out a.
                queue_retransmit_messages-Queued s pids (enqueue cbc out) r h.1
                  (q.0, q.1, enqueue-Resends queue cbc out a q.2))

    module _ (shifts : All (λ p. IsShiftable p.pid) ps) where
      pub find_unacked_peers-IsKnown :
          (cbc : Cbcast) (s : SentMessage)
          → cbc.peers ≡ ps
          → Returns
              (λ pids. All (IsKnown ps) pids × All IsShiftable pids)
              (find_unacked_peers cbc s)
      find_unacked_peers-IsKnown cbc s e = (
        lacking s.ack_bitmap cbc.peers,
        find_unacked_peers_lem cbc s (subst (All (λ p. IsShiftable p.pid)) (sym e) shifts),
        subst
            (λ l.
              All (IsKnown ps) (lacking s.ack_bitmap l) × All IsShiftable (lacking s.ack_bitmap l))
            (sym e)
            (
              All-lacking (IsKnown ps) s.ack_bitmap ps (peers-IsKnown ps),
              All-lacking IsShiftable s.ack_bitmap ps shifts,
            ),
      )

      retransmit_from_end-Queued :
          (old : List SentMessage) (cbc : Cbcast)
          → All IsResendable old
          → Queued ps queue buffer cbc
          → Returns (Queued ps queue buffer) (retransmit_from_end cbc old)
      unfolding retransmit_from_end
      retransmit_from_end-Queued [] cbc r q = (cbc, refl, q)
      retransmit_from_end-Queued (s ∷ rest) cbc r q =
          Returns-bind (find_unacked_peers-IsKnown cbc s q.0) λ pids (known, _).
            elim (Bool-cases (length pids == 0)) [
              | inl none_left ↦ rw none_left (cbc, refl, q)
              | inr some_left ↦ rw some_left (
                  Returns-bind (queue_retransmit_messages-Queued s pids cbc r.0 known q)
                    λ cbc' q'. retransmit_from_end-Queued rest cbc' r.1 q')
            ]

  -- Sending old messages again queues retransmissions, and nothing else.
  pub retransmit_messages-Queued :
      (ps : List Peer) (queue : List OutgoingMessage) (buffer old : List SentMessage) (cbc : Cbcast)
      → All (λ p. IsShiftable p.pid) ps
      → All IsResendable old
      → Queued ps queue buffer cbc
      → Returns (Queued ps queue buffer) (retransmit_messages cbc old)
  unfolding retransmit_messages
  retransmit_messages-Queued ps queue buffer old cbc shifts r q =
      retransmit_from_end-Queued ps queue buffer shifts (reverse old) cbc
        (reverse_aux-All IsResendable old [] r tt) q
