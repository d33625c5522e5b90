-- ===== src/Tests/Receiving.antt =====
-- The receiving side at concrete members and messages.
use view_sync.Prelude.{◌+◌, ◌≡◌, refl, some, [], ◌∷◌, inl, true, ◌<◌, get_elem?, ◌↔◌, arith}
use view_sync.Prelude.Outcome.{done, exit, result_ok}
use view_sync.Message.{cbc_data, cbc_msg_create, set_clock}
use view_sync.Message.Laws.{IsMessage, cbc_msg_create-IsMessage}
use view_sync.Message.RoundTrip.{RoundTrip, deserialize-serialize}
use view_sync.State.{Cbcast}
use view_sync.Peer.{uint16_max}
use view_sync.Receive.{check_msg_causality, causality_deliver, causality_hold}
use view_sync.Receive.Data.{handle_data_msg, try_deliver_held_msgs, deliverable}
use view_sync.Receive.Thread.{recv_rounds}
use view_sync.Receive.Rounds.{Delivered, try_deliver_held_msgs_total}
use view_sync.Receive.Acked.{Acks}
use view_sync.Receive.Wire.{short_datagram_blocks}
use view_sync.Receive.Branches.{check_msg_causality_lem, last_clock_exits, data_delivery_strands}
use view_sync.Tests.Data.{member, one_byte, first_again, second, from_one, datagram}
use view_sync.Receive.Handled.{Handled, handle_data_msg-Handled}

first_again-IsMessage : IsMessage first_again
first_again-IsMessage = record {
  clock_fits = omega arith;
  len_fits = omega arith;
  shape = (104 ∷ [], refl, refl, omega arith);
}

deserialize-serialize_example : RoundTrip first_again
deserialize-serialize_example = deserialize-serialize first_again first_again-IsMessage

made : cbc_msg_create cbc_data (some (104 ∷ [])) 1 ≡ done (result_ok (one_byte cbc_data 0))
unfolding cbc_msg_create
made = refl

cbc_msg_create-IsMessage_example :
    IsMessage (set_clock (one_byte cbc_data 0) 3) × (cbc_data ≡ cbc_data)
cbc_msg_create-IsMessage_example =
    cbc_msg_create-IsMessage cbc_data (some (104 ∷ [])) 1 3 (one_byte cbc_data 0) made

short_datagram_blocks_example :
    recv_rounds 3 member (datagram (7 ∷ []) ∷ []) ≡ done (member, datagram (7 ∷ []) ∷ [])
short_datagram_blocks_example = short_datagram_blocks 3 member (datagram (7 ∷ [])) [] (omega arith)

-- Ahead of its time: the first message of member 1 has not come yet.
handle_data_msg-Handled_example : Handled member second 1 0 (handle_data_msg member second 1)
handle_data_msg-Handled_example =
    handle_data_msg-Handled member second 1 (omega arith) (omega arith) (omega arith) (omega arith)
      (inl refl)

-- The first has come, and two that follow wait.
abbrev waiting : Cbcast
waiting = record member {
  vclock = 0 ∷ 1 ∷ [];
  held_msg_buffer = from_one (one_byte cbc_data 3) ∷ from_one second ∷ [];
}

try_deliver_held_msgs_total_example :
    (cbc' : Cbcast) × (try_deliver_held_msgs waiting 1 ≡ done cbc') × Delivered 1 waiting cbc'
try_deliver_held_msgs_total_example = try_deliver_held_msgs_total waiting 1

check_msg_causality_lem_example :
    ((check_msg_causality (0 ∷ 1 ∷ []) 1 2 ≡ causality_deliver) ↔ ((1 < 2) × (2 ≡ 1 + 1)))
    × ((check_msg_causality (0 ∷ 1 ∷ []) 1 2 ≡ causality_hold) ↔ ((1 < 2) × (1 + 1 < 2)))
check_msg_causality_lem_example = check_msg_causality_lem (0 ∷ 1 ∷ []) 1 2 (omega arith)

last_clock_exits_example : handle_data_msg member (one_byte cbc_data uint16_max) 1 ≡ exit
last_clock_exits_example = last_clock_exits member (one_byte cbc_data uint16_max) 1 refl

next_may : check_msg_causality waiting.vclock 1 2 ≡ causality_deliver
unfolding check_msg_causality
next_may = refl

data_delivery_strands_example :
    (cbc' : Cbcast) × (handle_data_msg waiting second 1 ≡ done cbc')
    × (get_elem? cbc'.held_msg_buffer 0 ≡ some (from_one (one_byte cbc_data 3)))
    × (deliverable cbc'.vclock 1 (from_one (one_byte cbc_data 3)) ≡ true)
data_delivery_strands_example =
    data_delivery_strands waiting second 1 0 (from_one (one_byte cbc_data 3)) refl (omega arith)
      next_may refl refl refl
