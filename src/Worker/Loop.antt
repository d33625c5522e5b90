-- ===== src/Worker/Loop.antt =====
-- The loop of `worker_process` in main.c, and the state that it prints at its end. What goes to the
-- terminal and over HTTP is in the result. `show` is `%lu` of the C library.
use view_sync.Prelude.{
  ℕ, ◌+◌, ◌%◌, Option, none, some, List, [], ◌∷◌, ◌++◌, map, length, take, get_elem?, ◌==◌,
  if◌then◌else◌,
}
use view_sync.Prelude.Outcome.{Outcome, done, ◌>>=◌, result_unwrap, deref}
use view_sync.Message.{ReceivedMessage, SentMessage}
use view_sync.State.{Cbcast}
use view_sync.Receive.{cbc_receive}
use view_sync.Send.{cbc_send}
use view_sync.Statistics.{CJson, cbc_collect_statistics}
use view_sync.Statistics.Loki.{CJsonText, create_loki_log}

-- `received_counter` and the static `counter`.
pub record Loop : Type 0 where
  pub cbc : Cbcast
  pub received_counter : ℕ
  pub counter : ℕ

-- What a round leaves, shows, and posts to Loki.
pub record Round : Type 0 where
  pub loop : Loop
  pub shown : Option ReceivedMessage
  pub posted : List ℕ

-- "Hello from worker ".
abbrev hello_from : List ℕ
hello_from =
    72 ∷ 101 ∷ 108 ∷ 108 ∷ 111 ∷ 32 ∷ 102 ∷ 114 ∷ 111 ∷ 109 ∷ 32 ∷ 119 ∷ 111 ∷ 114 ∷ 107 ∷ 101 ∷ 114
    ∷ 32 ∷ []

-- What `snprintf` writes into 64 bytes, without the terminator.
unfoldable pub greeting : (ℕ → List ℕ) → ℕ → List ℕ
greeting show pid = take 63 (hello_from ++ show pid ++ (33 ∷ []))

abbrev pub counted : Option ReceivedMessage → ℕ → ℕ
counted none n = n
counted (some m) n = n + 1

unfoldable pub broadcast_greeting : (ℕ → List ℕ) → Cbcast → Outcome Cbcast
unfolding greeting
broadcast_greeting show cbc = do
  result ← cbc_send cbc (some (greeting show cbc.pid ++ (0 ∷ []))) (length (greeting show cbc.pid))
  result_unwrap result

module _ {Json : Type 0} (c : CJson Json) (t : CJsonText Json) (show : ℕ → List ℕ) where
  -- One round of the loop, at a time.
  unfoldable pub worker_round : Loop → List ℕ → Outcome Round
  unfolding broadcast_greeting
  worker_round l timestamp = do
    let (got, received) = cbc_receive l.cbc
    let counter = l.counter + 1
    sent ← if counter % 10 == 0 then broadcast_greeting show received else done received
    (cbc, stats) ← cbc_collect_statistics c sent
    done (record {
      loop = record {
        cbc = cbc;
        received_counter = counted got l.received_counter;
        counter = counter;
      };
      shown = got;
      posted = t.print_unformatted (create_loki_log c t timestamp stats);
    })

-- A line about a received message, and one about a sent message.
pub record ReceivedLine : Type 0 where
  pub payload : Option (List ℕ)
  pub clock : ℕ
  pub sender : ℕ

pub record SentLine : Type 0 where
  pub payload : Option (List ℕ)
  pub clock : ℕ
  pub ack_target : ℕ
  pub ack_bitmap : ℕ

-- The state that is printed; the lengths of the three lists are printed too.
pub record FinalState : Type 0 where
  pub sent_messages : ℕ
  pub delivery_queue : List ReceivedLine
  pub held_buffer : List ReceivedLine
  pub sent_buffer : List SentLine

abbrev pub received_line : ReceivedMessage → ReceivedLine
received_line m = record {
  payload = m.message.payload;
  clock = m.message.header.clock;
  sender = m.sender_pid;
}

abbrev pub sent_line : SentMessage → SentLine
sent_line s = record {
  payload = s.message.payload;
  clock = s.message.header.clock;
  ack_target = s.ack_target;
  ack_bitmap = s.ack_bitmap;
}

unfoldable pub final_state : Cbcast → Outcome FinalState
final_state cbc = do
  sent ← deref (get_elem? cbc.vclock cbc.pid)
  done (record {
    sent_messages = sent;
    delivery_queue = map received_line cbc.delivery_queue;
    held_buffer = map received_line cbc.held_msg_buffer;
    sent_buffer = map sent_line cbc.sent_msg_buffer;
  })
