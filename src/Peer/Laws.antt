-- ===== src/Peer/Laws.antt =====
-- What the lookups of peer.c find after a peer is added or removed.
use view_sync.Prelude.{
  ℕ, ◌%◌, ◌^◌, ◌≡◌, ◌≢◌, refl, ap, subst, ◌∙◌, inl, inr, Bool-cases, none, some, List, [], ◌∷◌,
  ◌++◌, ◌==◌, All, ==_refl, ==_ne, arith,
}
use view_sync.Prelude.Outcome.{Result, result_ok, result_err}
use view_sync.State.{Peer, cbc_peer_alive, Cbcast}
use view_sync.Peer.{
  inaddr_none, uint16_max, cbc_add_peer, remove_first, cbc_remove_peer, find_by_addr,
  cbc_peer_find_by_addr, addr_of, cbc_peer_get_addr_copy,
}

find_by_addr-put :
    (ps : List Peer) (p : Peer) (pid : ℕ)
    → find_by_addr (ps ++ (p ∷ [])) p.addr pid ≡ p.pid % 2 ^ 16
unfolding find_by_addr
find_by_addr-put [] p pid = rw (==_refl p.addr.sin_port, ==_refl p.addr.s_addr)
find_by_addr-put (q ∷ ps) p pid = find_by_addr-put ps p _

abbrev new_peer : (List ℕ → ℕ) → ℕ → List ℕ → ℕ → Peer
new_peer inet_addr pid ipv4 port = record {
  pid = pid % 2 ^ 32;
  pos = 0;
  addr = record { sin_port = port; s_addr = inet_addr ipv4 };
  state = cbc_peer_alive;
}

abbrev Puts : Cbcast → Peer → Result Cbcast → Type 0
Puts cbc p (result_err e) = Unit
Puts cbc p (result_ok cbc') = cbc'.peers ≡ cbc.peers ++ (p ∷ [])

cbc_add_peer-Puts :
    (inet_addr : List ℕ → ℕ) (cbc : Cbcast) (pid port : ℕ) (ipv4 : List ℕ)
    → Puts cbc (new_peer inet_addr pid ipv4 port) (cbc_add_peer inet_addr cbc pid (some ipv4) port)
unfolding cbc_add_peer
cbc_add_peer-Puts inet_addr cbc pid port ipv4 = elim (Bool-cases (port == 0)) [
  | inl z ↦ rw z tt
  | inr nz ↦ rw nz (elim (Bool-cases (inet_addr ipv4 == inaddr_none)) [
    | inl bad ↦ rw bad tt
    | inr good ↦ rw good refl
  ])
]

-- After a peer has been added, its address belongs to it, also if another peer had it before; of
-- its id the low 16 bits are reported.
pub find_by_addr-add :
    (inet_addr : List ℕ → ℕ) (cbc cbc' : Cbcast) (pid port : ℕ) (ipv4 : List ℕ)
    → cbc_add_peer inet_addr cbc pid (some ipv4) port ≡ result_ok cbc'
    → cbc_peer_find_by_addr cbc' (record { sin_port = port; s_addr = inet_addr ipv4 })
      ≡ pid % 2 ^ 16
unfolding cbc_peer_find_by_addr
find_by_addr-add inet_addr cbc cbc' pid port ipv4 e =
    ap (λ ps. find_by_addr ps peer.addr uint16_max)
      (subst (Puts cbc peer) e (cbc_add_peer-Puts inet_addr cbc pid port ipv4))
    ∙ find_by_addr-put cbc.peers peer uint16_max
    ∙ cut
  where
    peer : Peer
    peer = new_peer inet_addr pid ipv4 port

    cut : pid % 2 ^ 32 % 2 ^ 16 ≡ pid % 2 ^ 16
    cut = omega arith

-- Ids that differ.
abbrev pub UniqueIds : List Peer → Type 0
UniqueIds [] = Unit
UniqueIds (p ∷ ps) = All (λ q. q.pid ≢ p.pid) ps × UniqueIds ps

addr_of-none : (ps : List Peer) (pid : ℕ) → All (λ q. q.pid ≢ pid) ps → addr_of ps pid ≡ none
unfolding addr_of
addr_of-none [] pid h = refl
addr_of-none (p ∷ ps) pid h = rw (==_ne p.pid pid h.0) (addr_of-none ps pid h.1)

addr_of-remove_self :
    (ps : List Peer) (pid : ℕ) → UniqueIds ps → addr_of (remove_first pid ps) pid ≡ none
unfolding addr_of remove_first
addr_of-remove_self [] pid u = refl
addr_of-remove_self (p ∷ ps) pid u =
    ground (arith, addr_of-remove_self ps pid u.1, addr_of-none ps p.pid u.0, addr_of-none ps pid)

addr_of-remove_ne :
    (ps : List Peer) (pid other : ℕ)
    → other ≢ pid
    → addr_of (remove_first pid ps) other ≡ addr_of ps other
unfolding addr_of remove_first
addr_of-remove_ne [] pid other h = refl
addr_of-remove_ne (p ∷ ps) pid other h = ground (arith, addr_of-remove_ne ps pid other h)

-- Removing a peer from a list of distinct ids makes it unknown, and every other peer stays known
-- at its address.
pub get_addr_copy-remove :
    (cbc : Cbcast) (pid other : ℕ)
    → UniqueIds cbc.peers
    → other ≢ pid
    → (cbc_peer_get_addr_copy (cbc_remove_peer cbc pid) pid ≡ none)
      × (cbc_peer_get_addr_copy (cbc_remove_peer cbc pid) other ≡ cbc_peer_get_addr_copy cbc other)
unfolding cbc_peer_get_addr_copy cbc_remove_peer
get_addr_copy-remove cbc pid other u h =
    (addr_of-remove_self cbc.peers pid u, addr_of-remove_ne cbc.peers pid other h)
