-- ===== src/Worker/Rounds.antt =====
-- The rounds of a worker's loop, and what it prints at its end: main.c.
use view_sync.Prelude.{
  length-append, ℕ, zero, suc, ◌+◌, ◌%◌, ◌^◌, ◌≤◌, ◌<◌, ◌≡◌, refl, ap, ◌∙◌, inl, inr, Bool-cases,
  Option, none, some, List, [], ◌∷◌, ◌++◌, length, take, set, ◌==◌, if◌then◌else◌, arith,
  length-set,
}
use view_sync.Prelude.Outcome.{done, Returns, Returns-bind}
use view_sync.Message.{ReceivedMessage}
use view_sync.State.{Cbcast}
use view_sync.Receive.{receive_from, cbc_receive}
use view_sync.Send.Total.{IsSound}
use view_sync.Send.Sent.{IsText, next_own, cbc_send-Sent}
use view_sync.Statistics.{CJson, reported_peers, cbc_collect_statistics}
use view_sync.Statistics.Laws.{cbc_collect_statistics_lem}
use view_sync.Statistics.Loki.{CJsonText}
use view_sync.Worker.Loop.{Loop, Round, greeting, broadcast_greeting, worker_round}

-- A member that a worker's loop can go on with.
pub record IsReady (cbc : Cbcast) : Type 0 where
  pub sound : IsSound cbc
  pub peers : 0 < length cbc.peers
  pub inside : cbc.pid < length cbc.vclock
  pub clocks : reported_peers ≤ length cbc.vclock

receive_from-IsReady :
    (cbc : Cbcast) (queue : List ReceivedMessage) → IsReady cbc → IsReady (receive_from cbc queue).1
receive_from-IsReady cbc [] h = h
receive_from-IsReady cbc (m ∷ rest) h = record {
  sound = record { known = h.sound.known; resendable = h.sound.resendable };
  peers = h.peers;
  inside = h.inside;
  clocks = h.clocks;
}

length-take_le : (n : ℕ) (xs : List ℕ) → length (take n xs) ≤ n
length-take_le zero xs = omega arith
length-take_le (suc n) [] = omega arith
length-take_le (suc n) (x ∷ xs) = omega (arith, length-take_le n xs)

greeting-length :
    (show : ℕ → List ℕ) (pid : ℕ)
    → (0 < length (greeting show pid)) × (length (greeting show pid) < 2 ^ 16)
unfolding greeting
greeting-length show pid = (omega arith, omega (arith, length-take_le 45 (show pid ++ (33 ∷ []))))

IsText-terminated : (text : List ℕ) → IsText (text ++ (0 ∷ []))
IsText-terminated [] = refl
IsText-terminated (b ∷ bs) = elim (Bool-cases (b == 0)) [
  | inl z ↦ rw z refl
  | inr z ↦ rw z (IsText-terminated bs)
]

-- What sending the greeting makes of a member.
abbrev Greeted : Cbcast → Cbcast → Type 0
Greeted cbc c =
    (c.vclock ≡ set cbc.vclock cbc.pid (next_own cbc))
    × (c.delivery_queue ≡ cbc.delivery_queue)
    × IsSound c

broadcast_greeting-Returns :
    (show : ℕ → List ℕ) (cbc : Cbcast)
    → IsReady cbc
    → Returns (Greeted cbc) (broadcast_greeting show cbc)
unfolding broadcast_greeting
broadcast_greeting-Returns show cbc h =
    let text = greeting show cbc.pid in
    let (pos, small) = greeting-length show cbc.pid in
    let (c, e, s) =
      cbc_send-Sent cbc (text ++ (0 ∷ [])) (length text) h.sound h.peers h.inside pos small
        (omega (arith, length-append text (0 ∷ []))) (IsText-terminated text) in
    (c, rw e refl, (s.ticked, s.untaken, s.sound))

-- The clock after a round.
abbrev pub clock_after : ℕ → Cbcast → List ℕ
clock_after counter cbc =
    if counter % 10 == 0 then set cbc.vclock cbc.pid (next_own cbc) else cbc.vclock

abbrev pub first_of : List ReceivedMessage → Option ReceivedMessage
first_of [] = none
first_of (m ∷ ms) = some m

abbrev pub rest_of : List ReceivedMessage → List ReceivedMessage
rest_of [] = []
rest_of (m ∷ ms) = ms

-- The middle of a round: on every tenth, the greeting.
sends_or_not :
    (show : ℕ → List ℕ) (counter : ℕ) (cbc : Cbcast)
    → IsReady cbc
    → Returns
        (λ c.
          (c.vclock ≡ clock_after counter cbc)
          × (c.delivery_queue ≡ cbc.delivery_queue)
          × IsSound c)
        (if counter % 10 == 0 then broadcast_greeting show cbc else done cbc)
sends_or_not show counter cbc h = elim (Bool-cases (counter % 10 == 0)) [
  | inl tenth ↦ rw tenth (broadcast_greeting-Returns show cbc h)
  | inr other ↦ rw other (cbc, refl, (refl, refl, h.sound))
]

length-clock_after :
    (counter : ℕ) (cbc : Cbcast) → length (clock_after counter cbc) ≡ length cbc.vclock
length-clock_after counter cbc = elim (Bool-cases (counter % 10 == 0)) [
  | inl tenth ↦ rw tenth (length-set cbc.vclock cbc.pid (next_own cbc))
  | inr other ↦ rw other refl
]

receive_from_lem :
    (counter : ℕ) (cbc : Cbcast) (queue : List ReceivedMessage)
    → ((receive_from cbc queue).0 ≡ first_of queue)
      × (clock_after counter (receive_from cbc queue).1 ≡ clock_after counter cbc)
      × (cbc.delivery_queue ≡ queue → (receive_from cbc queue).1.delivery_queue ≡ rest_of queue)
receive_from_lem counter cbc [] = (refl, refl, λ e. e)
receive_from_lem counter cbc (m ∷ rest) = (refl, refl, λ e. refl)

module _ {Json : Type 0} (c : CJson Json) (t : CJsonText Json) (show : ℕ → List ℕ) where
  collects :
      (cbc : Cbcast)
      → reported_peers ≤ length cbc.vclock
      → IsSound cbc
      → Returns
          (λ r. (r.0.vclock ≡ cbc.vclock) × (r.0.delivery_queue ≡ cbc.delivery_queue) × IsSound r.0)
          (cbc_collect_statistics c cbc)
  collects cbc enough sound = (
    _,
    cbc_collect_statistics_lem c cbc enough,
    (refl, refl, record { known = sound.known; resendable = sound.resendable }),
  )

  -- In a member whose peers' ids are below 31, whose sent messages can be sent again, which has a
  -- peer, its own clock and at least four, a round of a worker's loop returns: it takes the first
  -- message out of the delivery queue, if there is one, and leaves the others there; on every tenth round the own clock steps, and
  -- on no other does a clock change; and the peers' ids and the sent messages stay as was said.
  pub worker_round-Returns :
      (l : Loop) (timestamp : List ℕ)
      → IsReady l.cbc
      → Returns
          (λ (r : Round).
            (r.shown ≡ first_of l.cbc.delivery_queue)
            × (r.loop.cbc.delivery_queue ≡ rest_of l.cbc.delivery_queue)
            × (r.loop.counter ≡ l.counter + 1)
            × (r.loop.cbc.vclock ≡ clock_after (l.counter + 1) l.cbc)
            × IsSound r.loop.cbc)
          (worker_round c t show l timestamp)
  unfolding worker_round cbc_receive
  worker_round-Returns l timestamp h =
      let (first, clock, taken) = receive_from_lem (l.counter + 1) l.cbc l.cbc.delivery_queue in
      Returns-bind
        (sends_or_not show (l.counter + 1) (receive_from l.cbc l.cbc.delivery_queue).1
          (receive_from-IsReady l.cbc l.cbc.delivery_queue h))
        λ sent (ticked, untaken, sound).
          let enough : reported_peers ≤ length sent.vclock = omega (
            arith,
            h.clocks,
            ap length (ticked ∙ clock),
            length-clock_after (l.counter + 1) l.cbc,
          ) in
          Returns-bind (collects sent enough sound) λ r (same, queue, still).
            (_, refl, (first, queue ∙ untaken ∙ taken refl, refl, same ∙ ticked ∙ clock, still))
