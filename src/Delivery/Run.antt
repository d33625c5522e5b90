-- ===== src/Delivery/Run.antt =====
-- Histories of a member, from `cbc_init` on, and the order of delivery.
use mathlib.Core.List.{append_assoc, append-nil}
use view_sync.Prelude.{
  ℕ, ◌≡◌, ◌≢◌, refl, sym, ap, subst, ◌∙◌, inl, inr, Bool, true, false, Bool-cases, Option, none,
  some, List, [], ◌∷◌, ◌++◌, length, get_or, set, replicate, leb, ◌==◌, arith, get_or-set_ne,
  get_elem?,
}
use view_sync.Prelude.Outcome.{
  done, Ensures, returned, Ensures-bind, Ensures-then, Ensures-map, Ensures-elim, Result, result_ok,
  result_err, result_unwrap, deref,
}
use view_sync.Message.{
  Message, ReceivedMessage, cbc_data, set_clock, cbc_msg_create, cbc_outgoing_msg_create,
}
use view_sync.State.{Peer, Cbcast}
use view_sync.Peer.{cbc_add_peer, create_peer, put_peer, cbc_remove_peer}
use view_sync.Receive.{receive_from, cbc_receive, inc64, enqueue}
use view_sync.Send.{print_payload, cbc_send, send_msg, send_result}
use view_sync.Init.{cbc_init, fresh, opened}
use view_sync.Node.{
  Node, Event, adds_peer, removes_peer, sends, receives, arrives, recv_thread_runs,
  send_thread_runs, or_same, to_list, start, step, run,
}
use view_sync.Member.Start.{get_or-replicate}
use view_sync.Delivery.{Frame}
use view_sync.Delivery.SendFrame.{handle_old_messages-Frame, send_round-Frame}
use view_sync.Delivery.Order.{clocks_from, up_to}
use view_sync.Delivery.Handlers.{InOrder, Frame-InOrder, recv_round-InOrder}

receive_from-InOrder :
    (self : ℕ) (base : ℕ → ℕ) (log : List ReceivedMessage) (cbc : Cbcast)
    (queue : List ReceivedMessage)
    → cbc.delivery_queue ≡ queue
    → InOrder self base log cbc
    → InOrder self base (log ++ to_list (receive_from cbc queue).0) (receive_from cbc queue).1
receive_from-InOrder self base log cbc [] e f =
    subst (λ l. InOrder self base l cbc) (sym (append-nil log)) f
receive_from-InOrder self base log cbc (m ∷ rest) e f = record {
  own = f.own;
  in_order = λ p other.
      ap (clocks_from p) (append_assoc log (m ∷ []) rest ∙ ap (λ q. log ++ q) (sym e))
      ∙ f.in_order p other;
  at_least = f.at_least;
  clock_small = f.clock_small;
  held_small = f.held_small;
}

put_peer-Frame : (cbc : Cbcast) (r : Result Peer) → Frame cbc (or_same cbc (put_peer cbc r))
put_peer-Frame cbc (result_err e) = refl
put_peer-Frame cbc (result_ok p) = refl

cbc_add_peer-Frame :
    (inet_addr : List ℕ → ℕ) (cbc : Cbcast) (pid : ℕ) (ipv4 : Option (List ℕ)) (port : ℕ)
    → Frame cbc (or_same cbc (cbc_add_peer inet_addr cbc pid ipv4 port))
unfolding cbc_add_peer
cbc_add_peer-Frame inet_addr cbc pid none port = refl
cbc_add_peer-Frame inet_addr cbc pid (some ipv4) port = elim (Bool-cases (port == 0)) [
  | inl e ↦ rw e refl
  | inr e ↦ rw e (put_peer-Frame cbc (create_peer inet_addr pid ipv4 port))
]

module _ (self : ℕ) (base : ℕ → ℕ) (log : List ReceivedMessage) where
  -- The step of the own clock says nothing of any sender's.
  tick-InOrder :
      (cbc : Cbcast) (clock : ℕ)
      → InOrder self base log cbc
      → InOrder self base log (record cbc { vclock = set cbc.vclock cbc.pid clock })
  tick-InOrder cbc clock f = record {
    own = f.own;
    in_order = λ p other. f.in_order p other ∙ ap up_to (sym (unchanged p other));
    at_least = λ p other. omega (arith, unchanged p other, f.at_least p other);
    clock_small = λ p other. omega (arith, unchanged p other, f.clock_small p other);
    held_small = f.held_small;
  }
    where
      unchanged :
          (p : ℕ) → p ≢ self → get_or (set cbc.vclock cbc.pid clock) p 0 ≡ get_or cbc.vclock p 0
      unchanged p other = get_or-set_ne cbc.vclock cbc.pid p clock 0 (λ e. other (sym e ∙ f.own))

  send_msg-InOrder :
      (cbc : Cbcast) (payload : List ℕ) (msg : Message)
      → InOrder self base log cbc
      → Ensures (InOrder self base log) (send_msg cbc payload msg)
  send_msg-InOrder cbc payload msg f = Ensures-then (deref (get_elem? cbc.vclock cbc.pid)) λ clock.
      Ensures-then (result_unwrap (cbc_outgoing_msg_create (set_clock msg (inc64 clock)) none))
        λ out. Ensures-then (print_payload payload) λ shown.
          let ticked : Cbcast = record cbc { vclock = set cbc.vclock cbc.pid (inc64 clock) } in
          Ensures-map
            (λ c same.
              Frame-InOrder self base log (enqueue ticked out) c (tick-InOrder cbc (inc64 clock) f)
                same)
            (handle_old_messages-Frame (enqueue ticked out))

  send_result-InOrder :
      (cbc : Cbcast) (payload : List ℕ) (r : Result Message)
      → InOrder self base log cbc
      → Ensures (λ s. InOrder self base log (or_same cbc s)) (send_result cbc payload r)
  send_result-InOrder cbc payload (result_err e) f = returned f
  send_result-InOrder cbc payload (result_ok msg) f =
      Ensures-bind (send_msg-InOrder cbc payload msg f) λ c g. returned g

  cbc_send-InOrder :
      (cbc : Cbcast) (payload : Option (List ℕ)) (len : ℕ)
      → InOrder self base log cbc
      → Ensures (λ s. InOrder self base log (or_same cbc s)) (cbc_send cbc payload len)
  unfolding cbc_send
  cbc_send-InOrder cbc none len f = returned f
  cbc_send-InOrder cbc (some payload) len f = elim (Bool-cases (len == 0)) [
    | inl e ↦ rw e (returned f)
    | inr e ↦ rw e (elim (Bool-cases (length cbc.peers == 0)) [
      | inl z ↦ rw z (returned f)
      | inr z ↦ rw z (
          Ensures-then (cbc_msg_create cbc_data (some payload) len)
            λ made. send_result-InOrder cbc payload made f)
    ])
  ]

module _ (inet_addr : List ℕ → ℕ) (rand : ℕ → ℕ) (self : ℕ) (base : ℕ → ℕ) where
  abbrev pub Ordered : Node → Type 0
  Ordered n = InOrder self base n.taken n.cbc

  pub step-Ordered : (n : Node) (e : Event) → Ordered n → Ensures Ordered (step inet_addr rand n e)
  unfolding step cbc_remove_peer cbc_receive
  step-Ordered n (adds_peer pid ipv4 port) f = returned (
      Frame-InOrder self base n.taken n.cbc
        (or_same n.cbc (cbc_add_peer inet_addr n.cbc pid ipv4 port)) f
        (cbc_add_peer-Frame inet_addr n.cbc pid ipv4 port))
  step-Ordered n (removes_peer pid) f = returned f
  step-Ordered n (sends payload len) f =
      Ensures-bind (cbc_send-InOrder self base n.taken n.cbc payload len f) λ r g. returned g
  step-Ordered n receives f =
      returned (receive_from-InOrder self base n.taken n.cbc n.cbc.delivery_queue refl f)
  step-Ordered n (arrives d) f = returned f
  step-Ordered n recv_thread_runs f =
      Ensures-bind (recv_round-InOrder self base n.taken n.cbc n.inbox f) λ r g. returned g
  step-Ordered n send_thread_runs f =
      Ensures-bind (send_round-Frame rand n.cbc n.draws)
        λ r same. returned (Frame-InOrder self base n.taken n.cbc r.0 f same)

  run-Ordered : (n : Node) (es : List Event) → Ordered n → Ensures Ordered (run inet_addr rand n es)
  unfolding run
  run-Ordered n [] f = returned f
  run-Ordered n (e ∷ es) f = Ensures-bind (step-Ordered n e f) λ n' g. run-Ordered n' es g

-- `cbc_init` starts with clocks of 0 and nothing delivered.
abbrev Starts : ℕ → Result Cbcast → Type 0
Starts pid (result_err e) = Unit
Starts pid (result_ok cbc) = InOrder pid (λ p. 0) [] cbc

pub fresh-InOrder : (pid n : ℕ) → InOrder pid (λ p. 0) [] (fresh pid (replicate n 0))
fresh-InOrder pid n = record {
  own = refl;
  in_order = λ p _. ap up_to (sym (get_or-replicate n p));
  at_least = λ p _. omega arith;
  clock_small = λ p _. omega (arith, get_or-replicate n p);
  held_small = tt;
}

opened-Starts :
    (socket_ok bind_ok : Bool) (pid n : ℕ)
    → Starts pid (opened socket_ok bind_ok (fresh pid (replicate n 0)))
opened-Starts false bind_ok pid n = tt
opened-Starts true false pid n = tt
opened-Starts true true pid n = fresh-InOrder pid n

cbc_init-Starts :
    (socket_ok : Bool) (bind_ok : ℕ → Bool) (pid max_p port : ℕ)
    → Ensures (Starts pid) (cbc_init socket_ok bind_ok pid max_p port)
unfolding cbc_init
cbc_init-Starts socket_ok bind_ok pid max_p port = elim (Bool-cases (max_p == 0)) [
  | inl e ↦ rw e (returned tt)
  | inr e ↦ rw e (elim (Bool-cases (leb max_p pid)) [
    | inl z ↦ rw z (returned tt)
    | inr z ↦ rw z (returned (opened-Starts socket_ok (bind_ok port) pid max_p))
  ])
]

-- After every history of a member, from `cbc_init` on, that runs to its end, whatever arrives from
-- the network and however the threads take turns, a call or a round being one step: the messages
-- of each other sender that its user has taken or can take are those with the clocks 1, 2, … up to
-- the sender's clock, in this order, each once.
pub run-Fifo :
    (socket_ok : Bool) (bind_ok : ℕ → Bool) (inet_addr : List ℕ → ℕ) (rand : ℕ → ℕ)
    (pid max_p port : ℕ) (cbc : Cbcast) (events : List Event) (n : Node) (sender : ℕ)
    → cbc_init socket_ok bind_ok pid max_p port ≡ done (result_ok cbc)
    → run inet_addr rand (start cbc) events ≡ done n
    → sender ≢ pid
    → clocks_from sender (n.taken ++ n.cbc.delivery_queue) ≡ up_to (get_or n.cbc.vclock sender 0)
run-Fifo socket_ok bind_ok inet_addr rand pid max_p port cbc events n sender starts runs other =
    ordered.in_order sender other
  where
    begins : InOrder pid (λ p. 0) [] cbc
    begins =
        Ensures-elim
          (subst (Ensures (Starts pid)) starts (cbc_init-Starts socket_ok bind_ok pid max_p port))

    ordered : InOrder pid (λ p. 0) n.taken n.cbc
    ordered = Ensures-elim (
        subst (Ensures (Ordered inet_addr rand pid (λ p. 0))) runs
          (run-Ordered inet_addr rand pid (λ p. 0) (start cbc) events begins))
