-- ===== src/Receive/Acked.antt =====
-- What an ack does to the sent buffer.
use view_sync.Prelude.{ℕ, ◌^◌, ◌≡◌, false, Option, List, [], ◌∷◌, keep, if◌then◌else◌, All}
use view_sync.Prelude.Keep.{keep_not}
use view_sync.Message.{Message, SentMessage}
use view_sync.State.{Cbcast}
use view_sync.Receive.Acks.{with_ack, fully_acked, has_clock}

-- The sent messages with one clock, oldest first, after an ack by a peer: the first has its bit,
-- and is gone if it is fully acked by it.
abbrev pub acked_first : ℕ → List SentMessage → List SentMessage
acked_first pid [] = []
acked_first pid (s ∷ rest) =
    if fully_acked (with_ack (2 ^ pid) s) then rest else with_ack (2 ^ pid) s ∷ rest

-- The state with another sent buffer.
abbrev pub with_sent : Cbcast → List SentMessage → Cbcast
with_sent cbc buffer = record cbc { sent_msg_buffer = buffer }

abbrev pub IsPending : SentMessage → Type 0
IsPending s = fully_acked s ≡ false

-- The effect of an ack for a clock on the sent buffer.
abbrev pub Acks : ℕ → ℕ → List SentMessage → List SentMessage → Type 0
Acks clock pid before after =
    (keep (has_clock clock) after ≡ acked_first pid (keep (has_clock clock) before))
    × (keep_not (has_clock clock) after ≡ keep_not (has_clock clock) before)
    × (All IsPending before → All IsPending after)
