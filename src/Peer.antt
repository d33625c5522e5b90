-- ===== src/Peer.antt =====
-- The list of peers: src/cbcast/peer.c.
-- `inet_addr` of the C library is a parameter; the text of an address is any list of bytes.
pub mod Laws
use view_sync.Prelude.{
  ℕ, ◌-◌, ◌%◌, ◌^◌, Bool, ◌&&◌, Option, none, some, List, [], ◌∷◌, ◌++◌, ◌==◌, if◌then◌else◌,
}
use view_sync.Prelude.Outcome.{Result, result_ok, result_err, invalid_arguments, invalid_ipv4}
use view_sync.Message.{SockAddr}
use view_sync.State.{Peer, cbc_peer_alive, Cbcast}

-- INADDR_NONE.
abbrev pub inaddr_none : ℕ
inaddr_none = 2 ^ 32 - 1

-- UINT16_MAX, which the lookups below return for "no such peer".
abbrev pub uint16_max : ℕ
uint16_max = 2 ^ 16 - 1

-- `memcmp` of two addresses.
abbrev pub same_addr : SockAddr → SockAddr → Bool
same_addr a b = (a.sin_port == b.sin_port) && (a.s_addr == b.s_addr)

-- `arrput(cbc->peers, peer)`.
abbrev pub put_peer : Cbcast → Result Peer → Result Cbcast
put_peer cbc (result_err e) = result_err e
put_peer cbc (result_ok peer) = result_ok (record cbc { peers = cbc.peers ++ (peer ∷ []) })

module _ (inet_addr : List ℕ → ℕ) where
  -- The parameter `pid` is an `unsigned int`: a longer one is cut to 32 bits by the call.
  unfoldable pub create_peer : ℕ → List ℕ → ℕ → Result Peer
  create_peer pid ipv4 port =
      if inet_addr ipv4 == inaddr_none
      then result_err invalid_ipv4
      else result_ok (record {
        pid = pid % 2 ^ 32;
        pos = 0;
        addr = record { sin_port = port; s_addr = inet_addr ipv4 };
        state = cbc_peer_alive;
      })

  -- The state after the call, or the error; `none` is a NULL address.
  unfoldable pub cbc_add_peer : Cbcast → ℕ → Option (List ℕ) → ℕ → Result Cbcast
  unfolding create_peer
  cbc_add_peer cbc pid none port = result_err invalid_arguments
  cbc_add_peer cbc pid (some ipv4) port =
      if port == 0 then result_err invalid_arguments else put_peer cbc (create_peer pid ipv4 port)

-- The first peer with the id is deleted from the array; with no such peer nothing is.
unfoldable pub remove_first : ℕ → List Peer → List Peer
remove_first pid [] = []
remove_first pid (p ∷ ps) = if p.pid == pid then ps else p ∷ remove_first pid ps

unfoldable pub cbc_remove_peer : Cbcast → ℕ → Cbcast
unfolding remove_first
cbc_remove_peer cbc pid = record cbc { peers = remove_first pid cbc.peers }

-- The loop goes on after a hit, so the last peer at the address counts. `pid` is a `uint16_t`.
unfoldable pub find_by_addr : List Peer → SockAddr → ℕ → ℕ
find_by_addr [] addr pid = pid
find_by_addr (p ∷ ps) addr pid =
    find_by_addr ps addr (if same_addr p.addr addr then p.pid % 2 ^ 16 else pid)

unfoldable pub cbc_peer_find_by_addr : Cbcast → SockAddr → ℕ
unfolding find_by_addr
cbc_peer_find_by_addr cbc addr = find_by_addr cbc.peers addr uint16_max

-- The address of the first peer with the id.
unfoldable pub addr_of : List Peer → ℕ → Option SockAddr
addr_of [] pid = none
addr_of (p ∷ ps) pid = if p.pid == pid then some p.addr else addr_of ps pid

unfoldable pub cbc_peer_get_addr_copy : Cbcast → ℕ → Option SockAddr
unfolding addr_of
cbc_peer_get_addr_copy cbc pid = addr_of cbc.peers pid
