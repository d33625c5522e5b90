-- ===== src/Memory/Story.antt =====
-- A member's whole history: it does what Node computes, and ends with nothing allocated but what it
-- has lost.
use mathlib.Core.List.{append-nil}
use view_sync.Prelude.{
  ℕ, ◌+◌, ◌≡◌, refl, sym, ap, ap₂, subst, Bool, List, [], ◌∷◌, ◌++◌, map, All, arith,
}
use view_sync.Prelude.Outcome.{Outcome, done, Result, result_ok, result_err, result_unwrap, ◌>>=◌}
use view_sync.State.{Cbcast}
use view_sync.Init.{cbc_init}
use view_sync.Receive.{receive_from, cbc_receive}
use view_sync.Node.{
  Node, Event, adds_peer, removes_peer, sends, receives, arrives, recv_thread_runs,
  send_thread_runs, start, step, run, to_list,
}
use view_sync.Prelude.Safe.{Safe, left, Safe-bind, Safe-map}
use view_sync.Member.Start.{Opens, cbc_init-Opens}
use view_sync.Member.Run.{IsInContract, Reached, run_fresh-Safe}
use view_sync.Memory.Heap.{Heap, Holds, Holds-as, total}
use view_sync.Memory.Objects.{ReceivedPtr, received_weight, received_value}
use view_sync.Memory.Matches.{
  Matches, both, ends, Matches-Safe, Matches-bind, Matches-as, Matches-heap, Matches-last_step,
}
use view_sync.Memory.Context.{Context, forget, reached, lost, Owned, cbc_free}
use view_sync.Memory.Life.{
  Opened, opened_in, refused, left_over, cbc_init_in-Opened, cbc_free-Holds,
}
use view_sync.Memory.Peers.{cbc_add_peer_in-Answers, cbc_remove_peer_in-Agrees}
use view_sync.Memory.Reads.{received_blocks, often-one_received}
use view_sync.Memory.Receiving.{free_received_in, receive_from_in, cbc_receive_in}
use view_sync.Memory.Looks.{Matches-looks, free_received_in-Agrees}
use view_sync.Memory.Datagrams.{recv_round_in-Agrees}
use view_sync.Memory.Transmits.{send_round_in-Rounded}
use view_sync.Memory.Sends.{cbc_send_in-Answers}
use view_sync.Memory.Process.{
  Process, start_in, forget_process, take_received, step_in, run_in, life_in,
}

-- The process does what the member does, and owns its blocks.
abbrev pub Tells : (ℕ → ℕ) → Process → Node → Type 0
Tells e n n' = (forget_process n ≡ n') × Owned e n.st

module _ (inet_addr : List ℕ → ℕ) (rand : ℕ → ℕ) (e : ℕ → ℕ) where
  receives-Tells :
      (n : Process) (queue : List ReceivedPtr)
      → n.st.delivery_queue ≡ queue
      → Owned e n.st
      → Matches
          (Tells e)
          (take_received n (receive_from_in n.st queue).0 (receive_from_in n.st queue).1)
          (done (record (forget_process n) {
            cbc = (receive_from (forget n.st) (map received_value queue)).1;
            taken = n.taken ++ to_list (receive_from (forget n.st) (map received_value queue)).0;
          }))
  receives-Tells n [] is owned =
      both (ap (λ t. record (forget_process n) { taken = t }) (sym (append-nil n.taken)), owned)
  receives-Tells n (p ∷ rest) is owned =
      let left = (receive_from_in n.st (p ∷ rest)).1 in
      let owned' : Owned (λ a. received_weight p a + e a) left =
        Holds-as n.st.heap _ _ (λ a. omega (arith, ap (total received_weight a) is)) owned in
      Matches-looks _ left (received_blocks p)
        (λ seen. free_received_in seen p >>= λ st'.
          done (record n { st = st'; taken = n.taken ++ (received_value p ∷ []) }))
        (λ a. omega (arith, often-one_received p a)) owned'
        (Matches-bind
          {g = λ c.
            done
              (record (forget_process n) { cbc = c; taken = n.taken ++ (received_value p ∷ []) })}
          (free_received_in-Agrees e left p owned')
          λ st c (same, o). both (
            ap
                (λ c. record (forget_process n) {
                  cbc = c;
                  taken = n.taken ++ (received_value p ∷ []);
                })
                same,
            o,
          ))

  step_in-Tells :
      (n : Process) (event : Event)
      → Owned e n.st
      → Matches
          (Tells e)
          (step_in inet_addr rand n event)
          (step inet_addr rand (forget_process n) event)
  unfolding step_in step cbc_receive_in cbc_receive
  step_in-Tells n (adds_peer pid ipv4 port) owned =
      Matches-heap (cbc_add_peer_in-Answers inet_addr e n.st pid ipv4 port owned)
        λ (st, answer) ((same, o), _).
          both (ap (λ c. record (forget_process n) { cbc = c }) same, o)
  step_in-Tells n (removes_peer pid) owned =
      Matches-heap (cbc_remove_peer_in-Agrees e n.st pid owned)
        λ st (same, o). both (ap (λ c. record (forget_process n) { cbc = c }) same, o)
  step_in-Tells n (sends payload len) owned =
      Matches-bind (cbc_send_in-Answers e n.st payload len owned) λ (st, answer) r ((same, o), _).
        both (ap (λ c. record (forget_process n) { cbc = c }) same, o)
  step_in-Tells n receives owned = receives-Tells n n.st.delivery_queue refl owned
  step_in-Tells n (arrives d) owned = both (refl, owned)
  step_in-Tells n recv_thread_runs owned =
      Matches-bind (recv_round_in-Agrees e n.st n.inbox owned)
        λ (st, inbox) (cbc, inbox') ((same, o), is).
          both (ap₂ (λ c i. record (forget_process n) { cbc = c; inbox = i }) same is, o)
  step_in-Tells n send_thread_runs owned =
      Matches-bind (send_round_in-Rounded rand e n.st n.draws owned)
        λ (st, packets, draws) (cbc, packets', draws') ((same, o), is, is').
          both (
            λ i. record (forget_process n) { cbc = same i; sent = n.sent ++ is i; draws = is' i },
            o,
          )

  run_in-Tells :
      (n : Process) (events : List Event)
      → Owned e n.st
      → Matches
          (Tells e)
          (run_in inet_addr rand n events)
          (run inet_addr rand (forget_process n) events)
  unfolding run_in run
  run_in-Tells n [] owned = both (refl, owned)
  run_in-Tells n (event ∷ events) owned =
      Matches-bind (step_in-Tells n event owned) λ n' v (same, o).
        Matches-as (ap (λ x. run inet_addr rand x events) same) (run_in-Tells n' events o)

-- The member of Node from `cbc_init` on.
abbrev pub life : Bool → (ℕ → Bool) → (List ℕ → ℕ) → (ℕ → ℕ) → ℕ → ℕ → ℕ → List Event → Outcome Node
life socket_ok bind_ok inet_addr rand pid max_p port events = do
  opened ← cbc_init socket_ok bind_ok pid max_p port
  cbc ← result_unwrap opened
  run inet_addr rand (start cbc) events

-- What is left at the end is what was there before and what was lost.
abbrev pub Left : (ℕ → ℕ) → Process × Heap → Node → Type 0
Left e (n, h) v = (forget_process n ≡ v) × Holds h (λ a. e a + lost n.st a)

ended :
    (e : ℕ → ℕ) (n : Process) (v : Node)
    → Tells e n v
    → Matches (Left e) (cbc_free n.st >>= λ h. done (n, h)) (done v)
ended e n v (same, owned) = Matches-heap (cbc_free-Holds e n.st owned) λ h o. both (same, o)

Opened-Left :
    (inet_addr : List ℕ → ℕ) (rand : ℕ → ℕ) (e : ℕ → ℕ) (events : List Event)
    (r : Result Context × Heap) (v : Result Cbcast)
    → Opened e r v
    → Matches
        (Left e)
        (do
          st ← result_unwrap r.0
          n ← run_in inet_addr rand (start_in st) events
          h ← cbc_free n.st
          done (n, h))
        (do cbc ← result_unwrap v; run inet_addr rand (start cbc) events)
Opened-Left inet_addr rand e events _ _ (opened_in {st = st} (same, o)) =
    Matches-as (ap (λ c. run inet_addr rand (start c) events) same)
      (Matches-last_step (run_in-Tells inet_addr rand e (start_in st) events o) (ended e))
Opened-Left inet_addr rand e events _ _ (refused o) = ends
Opened-Left inet_addr rand e events _ _ (left_over x o) = ends

pub life_in-Left :
    (socket_ok : Bool) (bind_ok : ℕ → Bool) (inet_addr : List ℕ → ℕ) (rand : ℕ → ℕ) (h : Heap)
    (e : ℕ → ℕ) (pid max_p port : ℕ) (events : List Event)
    → Holds h e
    → Matches
        (Left e)
        (life_in inet_addr rand socket_ok bind_ok h pid max_p port events)
        (life socket_ok bind_ok inet_addr rand pid max_p port events)
unfolding life_in
life_in-Left socket_ok bind_ok inet_addr rand h e pid max_p port events holds =
    Matches-bind (cbc_init_in-Opened socket_ok bind_ok h e pid max_p port holds)
      λ r v is. Opened-Left inet_addr rand e events r v is

runs_on :
    (inet_addr : List ℕ → ℕ) (rand : ℕ → ℕ) (pid max_p : ℕ) (events : List Event)
    (r : Result Cbcast)
    → Opens pid max_p r
    → All (IsInContract pid) events
    → Safe Reached (do cbc ← result_unwrap r; run inet_addr rand (start cbc) events)
runs_on inet_addr rand pid max_p events (result_err x) opens contract = left
runs_on inet_addr rand pid max_p events (result_ok cbc) (is, inside) contract =
    subst (λ c. Safe Reached (run inet_addr rand (start c) events)) (sym is)
      (run_fresh-Safe inet_addr rand pid max_p events inside contract)

-- What is left allocated.
abbrev pub Freed : (ℕ → ℕ) → Process × Heap → Type 0
Freed e (n, h) = Holds h (λ a. e a + lost n.st a)

life-Safe :
    (socket_ok : Bool) (bind_ok : ℕ → Bool) (inet_addr : List ℕ → ℕ) (rand : ℕ → ℕ)
    (pid max_p port : ℕ) (events : List Event)
    → All (IsInContract pid) events
    → Safe Reached (life socket_ok bind_ok inet_addr rand pid max_p port events)
life-Safe socket_ok bind_ok inet_addr rand pid max_p port events contract =
    Safe-bind (cbc_init-Opens socket_ok bind_ok pid max_p port)
      λ r opens. runs_on inet_addr rand pid max_p events r opens contract

-- The whole history of a member with its blocks, in which its user adds only peers with ids below
-- 31 and not its own, and gives payloads as long as it says and with a zero byte among their bytes,
-- ends the process or returns: of the reads that the model with blocks has, of peers, messages with
-- headers and payloads, envelopes and byte buffers, and of its frees, none is of a block that is not
-- allocated, whatever arrives.
-- When it returns, after `cbc_free`,
-- what was allocated before it is so still, and of its own blocks only those of messages that are
-- lost.
pub life_in-Safe :
    (socket_ok : Bool) (bind_ok : ℕ → Bool) (inet_addr : List ℕ → ℕ) (rand : ℕ → ℕ) (h : Heap)
    (e : ℕ → ℕ) (pid max_p port : ℕ) (events : List Event)
    → Holds h e
    → All (IsInContract pid) events
    → Safe (Freed e) (life_in inet_addr rand socket_ok bind_ok h pid max_p port events)
life_in-Safe socket_ok bind_ok inet_addr rand h e pid max_p port events holds contract =
    Safe-map (λ r (v, (same, o), reached). o)
      (Matches-Safe (life_in-Left socket_ok bind_ok inet_addr rand h e pid max_p port events holds)
        (life-Safe socket_ok bind_ok inet_addr rand pid max_p port events contract))
