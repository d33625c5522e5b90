-- ===== src/Member/Peers.antt =====
-- Whom `cbc_peer_find_by_addr` finds.
use view_sync.Prelude.{
  ℕ, ◌%◌, ◌^◌, ◌≡◌, ◌≢◌, ◌⊎◌, refl, sym, subst, inl, inr, Bool-cases, true, List, [], ◌∷◌, ◌==◌,
  All, ==_iff, &&-split, arith, ◌∙◌,
}
use view_sync.Message.{SockAddr}
use view_sync.State.{Peer, Cbcast}
use view_sync.Peer.{same_addr, find_by_addr, cbc_peer_find_by_addr, uint16_max}
use view_sync.Send.Loops.{IsShiftable}

same_addr_eq : (a b : SockAddr) → same_addr a b ≡ true → a ≡ b
same_addr_eq a b h =
    let both = &&-split (a.sin_port == b.sin_port) (a.s_addr == b.s_addr) h in
    λ i. record {
      sin_port = (==_iff a.sin_port b.sin_port).0 both.0 i;
      s_addr = (==_iff a.s_addr b.s_addr).0 both.1 i;
    }

module _ (Knows : ℕ → SockAddr → Type 0) (addr : SockAddr) where
  abbrev IsFound : ℕ → ℕ → Type 0
  IsFound start pid = (pid ≡ start) ⊎ (IsShiftable pid × Knows pid addr)

  find_by_addr-IsFound :
      (ps : List Peer) (start : ℕ)
      → All (λ p. IsShiftable p.pid × Knows p.pid p.addr) ps
      → IsFound start (find_by_addr ps addr start)
  unfolding find_by_addr
  find_by_addr-IsFound [] start h = inl refl
  find_by_addr-IsFound (p ∷ ps) start h = elim (Bool-cases (same_addr p.addr addr)) [
    | inr other ↦ rw other (find_by_addr-IsFound ps start h.1)
    | inl same ↦ rw same (
        let cut : p.pid % 2 ^ 16 ≡ p.pid = omega (arith, h.0.0) in
        let knows : Knows p.pid addr = subst (Knows p.pid) (same_addr_eq p.addr addr same) h.0.1 in
        elim (find_by_addr-IsFound ps (p.pid % 2 ^ 16) h.1) [
          | inr good ↦ inr good
          | inl e ↦ inr (subst (λ q. IsShiftable q × Knows q addr) (sym (e ∙ cut)) (h.0.0, knows))
        ])
  ]

-- A sender that is found is a peer, known by the address.
pub find_by_addr-known :
    (Knows : ℕ → SockAddr → Type 0) (cbc : Cbcast) (addr : SockAddr)
    → All (λ p. IsShiftable p.pid × Knows p.pid p.addr) cbc.peers
    → cbc_peer_find_by_addr cbc addr ≢ uint16_max
    → IsShiftable (cbc_peer_find_by_addr cbc addr) × Knows (cbc_peer_find_by_addr cbc addr) addr
unfolding cbc_peer_find_by_addr
find_by_addr-known Knows cbc addr h known =
    elim (find_by_addr-IsFound Knows addr cbc.peers uint16_max h) [
      | inl e ↦ absurd (known e)
      | inr good ↦ good
    ]
