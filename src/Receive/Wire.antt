-- ===== src/Receive/Wire.antt =====
-- From the datagram to its handler.
use Prim.Native.Nat.{min}
use view_sync.Prelude.{ℕ, zero, suc, ◌<◌, ◌≡◌, refl, true, List, ◌∷◌, length, ltb, arith}
use view_sync.Prelude.Outcome.{done}
use view_sync.Message.{Message}
use view_sync.Message.Wire.{header_size}
use view_sync.Message.RoundTrip.{RoundTrip}
use view_sync.State.{Cbcast}
use view_sync.Receive.Thread.{Datagram, recv_rounds}

-- A datagram shorter than a header is peeked at and never taken off the socket: whatever comes
-- after it is not received, however many rounds the receive thread makes.
pub short_datagram_blocks :
    (n : ℕ) (cbc : Cbcast) (d : Datagram) (ds : List Datagram)
    → length d.bytes < header_size
    → recv_rounds n cbc (d ∷ ds) ≡ done (cbc, d ∷ ds)
unfolding recv_rounds
short_datagram_blocks zero cbc d ds h = refl
short_datagram_blocks (suc n) cbc d ds h =
    let short : ltb (min (length d.bytes) header_size) header_size ≡ true = ground arith in
    rw short (short_datagram_blocks n cbc d ds h)
