-- ===== src/Member/Run.antt =====
-- No history of a member meets undefined behaviour.
use view_sync.Prelude.{
  ℕ, ◌%◌, ◌^◌, ◌≤◌, ◌<◌, ◌≡◌, ◌≢◌, sym, subst, inl, inr, Bool, Bool-cases, Option, none, some, List,
  [], ◌∷◌, length, replicate, ◌==◌, All, All-append,
}
use view_sync.Prelude.Outcome.{done, fault, spin, Result, result_ok, result_err}
use view_sync.Prelude.Safe.{Safe, fine, Safe-bind, Safe-map, Safe-no_fault, Safe-no_spin}
use view_sync.Message.{Kind, cbc_data, cbc_ack, cbc_retransmit_req, cbc_retransmit, unknown}
use view_sync.State.{Peer, Cbcast}
use view_sync.Peer.{inaddr_none, put_peer, create_peer, cbc_add_peer, remove_first, cbc_remove_peer}
use view_sync.Init.{cbc_init, fresh}
use view_sync.Send.{cbc_send}
use view_sync.Send.Loops.{IsShiftable}
use view_sync.Send.Total.{Anything}
use view_sync.Send.Sent.{IsText}
use view_sync.Node.{
  Node, Event, adds_peer, removes_peer, sends, receives, arrives, recv_thread_runs,
  send_thread_runs, or_same, start, step, run,
}
use view_sync.Member.{Promises, CarriesAs, IsHealthy}
use view_sync.Member.Start.{cbc_init_opens, fresh-IsHealthy}
use view_sync.Member.Sending.{Sends, cbc_send-Safe}
use view_sync.Member.Node.{
  IsHealthyNode, receives-Safe, arrives-Safe, recv_thread_runs-Safe, send_thread_runs-Safe,
}

-- Nothing is known but that a member is not its own peer.
abbrev lone : ℕ → Promises
lone self = record {
  self = self;
  Says = Anything;
  Knows = λ pid addr. pid ≢ self;
  Comes = λ pid clock payload. Unit;
  Own = λ n. Unit;
}

any_payload : (k : Kind) (clock : ℕ) (p : Option (List ℕ)) → CarriesAs Anything k clock p
any_payload cbc_data clock p = tt
any_payload cbc_ack clock p = tt
any_payload cbc_retransmit_req clock p = tt
any_payload cbc_retransmit clock p = tt
any_payload (unknown c) clock p = tt

-- What the user of a member keeps to: the ids of peers are below 31 and not the member's own, and a
-- payload has as many bytes as are said to be sent, and a zero byte among its bytes.
abbrev pub IsInContract : ℕ → Event → Type 0
IsInContract self (adds_peer pid ipv4 port) = (pid % 2 ^ 32 < 31) × (pid % 2 ^ 32 ≢ self)
IsInContract self (sends (some payload) len) = (len % 2 ^ 16 ≤ length payload) × IsText payload
IsInContract self _ = Unit

module _ (self : ℕ) (inet_addr : List ℕ → ℕ) (rand : ℕ → ℕ) where
  abbrev Fine : Node → Type 0
  Fine = IsHealthyNode (lone self) (λ pid addr ne. ne) inet_addr rand

  abbrev IsKnownPeer : Peer → Type 0
  IsKnownPeer p = IsShiftable p.pid × (p.pid ≢ self)

  with_peers :
      (cbc : Cbcast) (ps : List Peer)
      → All IsKnownPeer ps
      → IsHealthy (lone self) cbc
      → IsHealthy (lone self) (record cbc { peers = ps })
  with_peers cbc ps known h = record {
    own = h.own;
    inside = h.inside;
    clock = tt;
    sound = record { known = known; resendable = h.sound.resendable };
    outgoing = h.outgoing;
    held = h.held;
    queue = h.queue;
  }

  put_peer-IsHealthy :
      (cbc : Cbcast) (pid port : ℕ) (ipv4 : List ℕ)
      → IsInContract self (adds_peer pid (some ipv4) port)
      → IsHealthy (lone self) cbc
      → IsHealthy (lone self) (or_same cbc (put_peer cbc (create_peer inet_addr pid ipv4 port)))
  unfolding create_peer
  put_peer-IsHealthy cbc pid port ipv4 c h = elim (Bool-cases (inet_addr ipv4 == inaddr_none)) [
    | inl bad ↦ rw bad h
    | inr good ↦
        rw good (with_peers cbc _ (All-append IsKnownPeer cbc.peers _ h.sound.known (c, tt)) h)
  ]

  cbc_add_peer-IsHealthy :
      (cbc : Cbcast) (pid port : ℕ) (ipv4 : Option (List ℕ))
      → IsInContract self (adds_peer pid ipv4 port)
      → IsHealthy (lone self) cbc
      → IsHealthy (lone self) (or_same cbc (cbc_add_peer inet_addr cbc pid ipv4 port))
  unfolding cbc_add_peer
  cbc_add_peer-IsHealthy cbc pid port none c h = h
  cbc_add_peer-IsHealthy cbc pid port (some ipv4) c h = elim (Bool-cases (port == 0)) [
    | inl z ↦ rw z h
    | inr z ↦ rw z (put_peer-IsHealthy cbc pid port ipv4 c h)
  ]

  remove_first-All :
      (pid : ℕ) (ps : List Peer) → All IsKnownPeer ps → All IsKnownPeer (remove_first pid ps)
  unfolding remove_first
  remove_first-All pid [] h = tt
  remove_first-All pid (p ∷ ps) h = elim (Bool-cases (p.pid == pid)) [
    | inl e ↦ rw e h.1
    | inr e ↦ rw e (h.0, remove_first-All pid ps h.1)
  ]

  with_cbc :
      (n : Node) (cbc : Cbcast) → IsHealthy (lone self) cbc → Fine n → Fine (record n { cbc = cbc })
  with_cbc n cbc h f = record { cbc = h; inbox = f.inbox; taken = f.taken; sent = f.sent }

  or_same-IsHealthy :
      (cbc : Cbcast) (r : Result Cbcast)
      → IsHealthy (lone self) cbc
      → Sends (lone self) Anything (λ n. Unit) (λ c p s. s) r
      → IsHealthy (lone self) (or_same cbc r)
  or_same-IsHealthy cbc (result_err e) h s = h
  or_same-IsHealthy cbc (result_ok c) h s = s

  sends-Safe :
      (n : Node) (payload : Option (List ℕ)) (len : ℕ)
      → IsInContract self (sends payload len)
      → Fine n
      → Safe Fine (step inet_addr rand n (sends payload len))
  unfolding step cbc_send
  sends-Safe n none len c f = fine (with_cbc n n.cbc f.cbc f)
  sends-Safe n (some payload) len c f =
      Safe-bind
        (cbc_send-Safe (lone self) Anything (λ k. Unit) (λ k p s. s) n.cbc payload len c.0 c.1 tt tt
          f.cbc)
        λ r s. fine (with_cbc n (or_same n.cbc r) (or_same-IsHealthy n.cbc r f.cbc s) f)

  step-Safe :
      (n : Node) (e : Event) → IsInContract self e → Fine n → Safe Fine (step inet_addr rand n e)
  unfolding step cbc_remove_peer
  step-Safe n (adds_peer pid ipv4 port) c f =
      fine (with_cbc n _ (cbc_add_peer-IsHealthy n.cbc pid port ipv4 c f.cbc) f)
  step-Safe n (removes_peer pid) c f = fine (
      with_cbc n _ (with_peers n.cbc _ (remove_first-All pid n.cbc.peers f.cbc.sound.known) f.cbc)
        f)
  step-Safe n (sends payload len) c f = sends-Safe n payload len c f
  step-Safe n receives c f = receives-Safe (lone self) _ inet_addr rand n f
  step-Safe n (arrives d) c f =
      arrives-Safe (lone self) _ inet_addr rand n d
        (λ pid ne m e. any_payload m.header.kind m.header.clock m.payload) f
  step-Safe n recv_thread_runs c f = recv_thread_runs-Safe (lone self) _ inet_addr rand n f
  step-Safe n send_thread_runs c f = send_thread_runs-Safe (lone self) _ inet_addr rand n f

  run-Fine :
      (n : Node) (es : List Event)
      → All (IsInContract self) es
      → Fine n
      → Safe Fine (run inet_addr rand n es)
  unfolding run
  run-Fine n [] c f = fine f
  run-Fine n (e ∷ es) c f = Safe-bind (step-Safe n e c.0 f) λ n' g. run-Fine n' es c.1 g

-- Some node.
abbrev pub Reached : Node → Type 0
Reached n = Unit

-- The same from a fresh member on.
pub run_fresh-Safe :
    (inet_addr : List ℕ → ℕ) (rand : ℕ → ℕ) (pid max_p : ℕ) (events : List Event)
    → pid < max_p
    → All (IsInContract pid) events
    → Safe Reached (run inet_addr rand (start (fresh pid (replicate max_p 0))) events)
run_fresh-Safe inet_addr rand pid max_p events inside contract =
    Safe-map (λ n f. tt)
      (run-Fine pid inet_addr rand (start (fresh pid (replicate max_p 0))) events contract (record {
        cbc = fresh-IsHealthy (lone pid) max_p inside tt;
        inbox = tt;
        taken = tt;
        sent = tt;
      }))

-- No history of a member, from `cbc_init` on, in which its user adds only peers with ids below 31
-- and not its own, and gives payloads as long as it says and with a zero byte among their bytes, reads out of bounds, shifts too far, meets
-- a null pointer or loops for ever inside a call: whatever arrives from the network, however often peers are removed and given up, and
-- however the threads take turns, every call and round returns or ends the process.
pub run-Safe :
    (socket_ok : Bool) (bind_ok : ℕ → Bool) (inet_addr : List ℕ → ℕ) (rand : ℕ → ℕ)
    (pid max_p port : ℕ) (cbc : Cbcast) (events : List Event)
    → cbc_init socket_ok bind_ok pid max_p port ≡ done (result_ok cbc)
    → All (IsInContract pid) events
    → (run inet_addr rand (start cbc) events ≢ fault)
      × (run inet_addr rand (start cbc) events ≢ spin)
run-Safe socket_ok bind_ok inet_addr rand pid max_p port cbc events starts contract =
    let (is, inside) = cbc_init_opens socket_ok bind_ok pid max_p port cbc starts in
    let safe : Safe Reached (run inet_addr rand (start cbc) events) =
      subst (λ c. Safe Reached (run inet_addr rand (start c) events)) (sym is)
        (run_fresh-Safe inet_addr rand pid max_p events inside contract) in
    (
      (λ e. Safe-no_fault (subst (Safe Reached) e safe)),
      (λ e. Safe-no_spin (subst (Safe Reached) e safe)),
    )
