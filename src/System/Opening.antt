-- ===== src/System/Opening.antt =====
-- A group whose members have only been initialised and know some peers.
use view_sync.Prelude.{ℕ, ◌<◌, ◌≡◌, refl, sym, subst, List, [], replicate, All}
use view_sync.Message.{SockAddr}
use view_sync.State.{Peer, Cbcast}
use view_sync.Init.{fresh}
use view_sync.Send.Loops.{IsShiftable}
use view_sync.Node.{start}
use view_sync.Delivery.Handlers.{InOrder}
use view_sync.Delivery.Run.{fresh-InOrder}
use view_sync.Member.{IsHealthy}
use view_sync.Member.Start.{fresh-IsHealthy}
use view_sync.System.{opening}
use view_sync.System.Worlds.{KnowsFor, world}
use view_sync.System.Invariant.{IsGood, Invariant}

module _ (inet_addr : List ℕ → ℕ) (rand : ℕ → ℕ → ℕ) (addr : ℕ → SockAddr) (size : ℕ) where
  -- A member that has been initialised and knows some peers.
  abbrev opened : ℕ → List Peer → Cbcast
  opened i peers = record (fresh i (replicate size 0)) { peers = peers }

  opened-IsGood :
      (i : ℕ) (peers : List Peer)
      → i < size
      → All (λ p. IsShiftable p.pid × KnowsFor addr size i p.pid p.addr) peers
      → IsGood inet_addr rand addr size (λ j. []) i (start (opened i peers))
  opened-IsGood i peers inside known = record {
    healthy = record {
      cbc = with_peers (fresh-IsHealthy (world addr size (λ j. []) i) size inside (λ few. refl));
      inbox = tt;
      taken = tt;
      sent = tt;
    };
    ordered = with_peers-InOrder (fresh-InOrder i size);
  }
    where
      with_peers :
          IsHealthy (world addr size (λ j. []) i) (opened i [])
          → IsHealthy (world addr size (λ j. []) i) (opened i peers)
      with_peers h = record {
        own = h.own;
        inside = h.inside;
        clock = h.clock;
        sound = record { known = known; resendable = h.sound.resendable };
        outgoing = h.outgoing;
        held = h.held;
        queue = h.queue;
      }

      with_peers-InOrder :
          InOrder i (λ p. 0) [] (opened i []) → InOrder i (λ p. 0) [] (opened i peers)
      with_peers-InOrder f = record {
        own = f.own;
        in_order = f.in_order;
        at_least = f.at_least;
        clock_small = f.clock_small;
        held_small = f.held_small;
      }

  pub opening-Invariant :
      (members : ℕ → Cbcast) (peers : ℕ → List Peer)
      → ((i : ℕ) → i < size → members i ≡ opened i (peers i))
      → ((i : ℕ)
          → i < size
          → All (λ p. IsShiftable p.pid × KnowsFor addr size i p.pid p.addr) (peers i))
      → Invariant inet_addr rand addr size (opening members)
  opening-Invariant members peers same known i inside =
      subst (λ c. IsGood inet_addr rand addr size (λ j. []) i (start c)) (sym (same i inside))
        (opened-IsGood i (peers i) inside (known i inside))
