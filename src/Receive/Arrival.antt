-- ===== src/Receive/Arrival.antt =====
-- A message from the sender's call to the receiver's delivery queue.
use view_sync.Prelude.{ℕ, ◌^◌, ◌≤◌, ◌<◌, some, List, length}
use view_sync.Message.{Message, cbc_data}
use view_sync.Message.Laws.{IsMessage, cbc_msg_create-IsMessage}
use view_sync.Message.RoundTrip.{RoundTrip}
use view_sync.Send.Sent.{data_msg, cbc_msg_create-data}

pub data_msg-IsMessage :
    (payload : List ℕ) (len clock : ℕ)
    → 0 < len
    → len < 2 ^ 16
    → len ≤ length payload
    → IsMessage (data_msg payload len clock)
data_msg-IsMessage payload len clock pos fits enough =
    (cbc_msg_create-IsMessage cbc_data (some payload) len clock (data_msg payload len 0)
      (cbc_msg_create-data payload len pos fits enough)).0
