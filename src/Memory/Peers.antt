-- ===== src/Memory/Peers.antt =====
-- The peers of src/cbcast/peer.c with their blocks.
use view_sync.Prelude.{
  ℕ, ◌+◌, ◌≤◌, ◌≡◌, refl, ap, inl, inr, Bool-cases, Option, none, some, List, [], ◌∷◌, ◌++◌, map,
  ◌==◌, if◌then◌else◌, arith,
}
use view_sync.Prelude.Outcome.{
  Outcome, done, Error, Result, result_ok, result_err, invalid_arguments, ◌>>=◌, Returns,
  Returns-bind,
}
use mathlib.Core.List.{map-append}
use view_sync.Message.{SockAddr}
use view_sync.State.{Peer, Cbcast}
use view_sync.Peer.{put_peer, create_peer, cbc_add_peer, remove_first, cbc_remove_peer, addr_of}
use view_sync.Node.{or_same}
use view_sync.Memory.Heap.{
  Heap, calloc, free, reads, one, Holds, Holds-as, calloc-Holds, free-Holds, total, total-append,
}
use view_sync.Memory.Objects.{AddrPtr, addr_weight, addr_value}
use view_sync.Memory.Context.{
  PeerPtr, peer_weight, Context, forget, reached, lost, Owned, Agrees, with_heap, free_peer,
}
use view_sync.Memory.Blocks.{reads_first}
use view_sync.Memory.Life.{free_peer-Holds}
use view_sync.Memory.Reads.{peer_blocks, looked, reads_all, reads_all-Holds, often-peers}

-- With the peer's and the address's block allocated: an error frees both.
abbrev pub finish_peer : Heap → ℕ → ℕ → Result Peer → Outcome (Result PeerPtr × Heap)
finish_peer h at addr (result_err e) = do h₁ ← free h addr; h₂ ← free h₁ at; done (result_err e, h₂)
finish_peer h at addr (result_ok p) =
    done (result_ok (record { at = at; addr = addr; peer = p }), h)

abbrev pub put_peer_in : Context → Result PeerPtr × Heap → Context × Option Error
put_peer_in st (result_err e, h) = (with_heap st h, some e)
put_peer_in st (result_ok p, h) = (record st { heap = h; peers = st.peers ++ (p ∷ []) }, none)

module _ (inet_addr : List ℕ → ℕ) where
  unfoldable pub create_peer_in : Heap → ℕ → List ℕ → ℕ → Outcome (Result PeerPtr × Heap)
  create_peer_in h pid ipv4 port =
      let (at, h₁) = calloc h in
      let (addr, h₂) = calloc h₁ in finish_peer h₂ at addr (create_peer inet_addr pid ipv4 port)

  unfoldable pub cbc_add_peer_in :
      Context → ℕ → Option (List ℕ) → ℕ → Outcome (Context × Option Error)
  unfolding create_peer_in
  cbc_add_peer_in st pid none port = done (st, some invalid_arguments)
  cbc_add_peer_in st pid (some ipv4) port =
      if port == 0
      then done (st, some invalid_arguments)
      else do made ← create_peer_in st.heap pid ipv4 port; done (put_peer_in st made)

-- The first peer with the id is freed and deleted.
unfoldable pub remove_first_in : Heap → ℕ → List PeerPtr → Outcome (Heap × List PeerPtr)
remove_first_in h pid [] = done (h, [])
remove_first_in h pid (p ∷ ps) = do
  h₁ ← reads h p.at
  let rest : Outcome (Heap × List PeerPtr) = do
    (h₂, ps') ← remove_first_in h₁ pid ps
    done (h₂, p ∷ ps')
  let found : Outcome (Heap × List PeerPtr) = do h₂ ← free_peer h₁ p; done (h₂, ps)
  if p.peer.pid == pid then found else rest

unfoldable pub cbc_remove_peer_in : Context → ℕ → Outcome Context
unfolding remove_first_in
cbc_remove_peer_in st pid = do
  (h, ps) ← remove_first_in st.heap pid st.peers
  done (record st { heap = h; peers = ps })

-- The block for the copy is allocated first, and freed if the peer is not found.
abbrev pub finish_copy : Heap → ℕ → Option SockAddr → Outcome (Option AddrPtr × Heap)
finish_copy h at none = do h' ← free h at; done (none, h')
finish_copy h at (some addr) = done (some (record { at = at; addr = addr }), h)

unfoldable pub get_addr_copy_in : Heap → List PeerPtr → ℕ → Outcome (Option AddrPtr × Heap)
unfolding addr_of
get_addr_copy_in h peers pid = do
  let (at, h₁) = calloc h
  h₂ ← reads_all h₁ (looked peer_blocks peers)
  finish_copy h₂ at (addr_of (map (λ p. p.peer) peers) pid)

-- What the call has told its caller.
abbrev pub told : {A : Type 0} → Result A → Option Error
told (result_err e) = some e
told (result_ok a) = none

-- The state after the call, changed or not, and the answer.
abbrev pub Answers : (ℕ → ℕ) → Cbcast → Context × Option Error → Result Cbcast → Type 0
Answers e cbc (st, answer) result = Agrees e st (or_same cbc result) × (answer ≡ told result)

module _ (inet_addr : List ℕ → ℕ) (e : ℕ → ℕ) where
  put_in :
      (st : Context) (h : Heap) (at addr : ℕ) (made : Result Peer)
      → Holds h (λ a. one addr a + (one at a + (e a + (reached st a + lost st a))))
      → Returns
          (λ r. Answers e (forget st) (put_peer_in st r) (put_peer (forget st) made))
          (finish_peer h at addr made)
  unfolding peer_weight
  put_in st h at addr (result_err x) holds =
      Returns-bind (free-Holds h addr _ holds)
        λ h₁ o₁. Returns-bind (free-Holds h₁ at _ o₁) λ h₂ o₂. (_, refl, ((refl, o₂), refl))
  put_in st h at addr (result_ok p) holds =
      let new : PeerPtr = record { at = at; addr = addr; peer = p } in
      let all =
        ap (λ ps. record (forget st) { peers = ps })
          (map-append (λ q. q.peer) st.peers (new ∷ [])) in
      (
        _,
        refl,
        (
          (
            all,
            Holds-as h _ _ (λ a. omega (arith, total-append peer_weight a st.peers (new ∷ [])))
                holds,
          ),
          refl,
        ),
      )

  pub cbc_add_peer_in-Answers :
      (st : Context) (pid : ℕ) (ipv4 : Option (List ℕ)) (port : ℕ)
      → Owned e st
      → Returns
          (λ r. Answers e (forget st) r (cbc_add_peer inet_addr (forget st) pid ipv4 port))
          (cbc_add_peer_in inet_addr st pid ipv4 port)
  unfolding cbc_add_peer_in cbc_add_peer create_peer_in
  cbc_add_peer_in-Answers st pid none port owned = (_, refl, ((refl, owned), refl))
  cbc_add_peer_in-Answers st pid (some ipv4) port owned = elim (Bool-cases (port == 0)) [
    | inl z ↦ rw z (_, refl, ((refl, owned), refl))
    | inr z ↦ rw z (
        Returns-bind
          (put_in st _ _ _ (create_peer inet_addr pid ipv4 port)
            (calloc-Holds _ _ (calloc-Holds st.heap _ owned)))
          λ r a. (_, refl, a))
  ]

-- The other peers keep their blocks.
abbrev Removed : ℕ → List PeerPtr → (ℕ → ℕ) → Heap × List PeerPtr → Type 0
Removed pid ps n (h, ps') =
    (map (λ p. p.peer) ps' ≡ remove_first pid (map (λ p. p.peer) ps))
    × Holds h (λ a. total peer_weight a ps' + n a)

remove_first_in-Holds :
    (h : Heap) (pid : ℕ) (ps : List PeerPtr) (n : ℕ → ℕ)
    → Holds h (λ a. total peer_weight a ps + n a)
    → Returns (Removed pid ps n) (remove_first_in h pid ps)
unfolding remove_first_in remove_first peer_weight
remove_first_in-Holds h pid [] n holds = (_, refl, (refl, holds))
remove_first_in-Holds h pid (p ∷ ps) n holds =
    Returns-bind
      (reads_first h p.at (λ a. one p.addr a + (total peer_weight a ps + n a))
        (Holds-as h _ _ (λ a. omega arith) holds))
      λ h₁ o₁. elim (Bool-cases (p.peer.pid == pid)) [
        | inl e ↦ rw e (
            Returns-bind
              (free_peer-Holds h₁ p (λ a. total peer_weight a ps + n a)
                (Holds-as h₁ _ _ (λ a. omega arith) o₁))
              λ h₂ o₂. (_, refl, (refl, o₂)))
        | inr e ↦ rw e (
            Returns-bind
              (remove_first_in-Holds h₁ pid ps (λ a. peer_weight p a + n a)
                (Holds-as h₁ _ _ (λ a. omega arith) o₁))
              λ (h₂, ps') (same, o₂).
                (_, refl, (ap (◌∷◌ p.peer) same, Holds-as h₂ _ _ (λ a. omega arith) o₂)))
      ]

pub cbc_remove_peer_in-Agrees :
    (e : ℕ → ℕ) (st : Context) (pid : ℕ)
    → Owned e st
    → Returns (λ st'. Agrees e st' (cbc_remove_peer (forget st) pid)) (cbc_remove_peer_in st pid)
unfolding cbc_remove_peer_in cbc_remove_peer
cbc_remove_peer_in-Agrees e st pid owned =
    let others : ℕ → ℕ = λ a. e a + (reached (record st { peers = [] }) a + lost st a) in
    Returns-bind
      (remove_first_in-Holds st.heap pid st.peers others
        (Holds-as st.heap _ _ (λ a. omega arith) owned))
      λ (h, ps) (same, o). (
        _,
        refl,
        (ap (λ qs. record (forget st) { peers = qs }) same, Holds-as h _ _ (λ a. omega arith) o),
      )

-- The copy is what the lookup finds, in a block of its own.
abbrev pub Copied : (ℕ → ℕ) → Option SockAddr → Option AddrPtr × Heap → Type 0
Copied n found (o, h) = (addr_value o ≡ found) × Holds h (λ a. addr_weight o a + n a)

finish_copy-Copied :
    (h : Heap) (at : ℕ) (n : ℕ → ℕ) (found : Option SockAddr)
    → Holds h (λ a. one at a + n a)
    → Returns (Copied n found) (finish_copy h at found)
unfolding addr_weight
finish_copy-Copied h at n none holds =
    Returns-bind (free-Holds h at n holds)
      λ h' o. (_, refl, (refl, Holds-as h' _ _ (λ a. omega arith) o))
finish_copy-Copied h at n (some addr) holds = (_, refl, (refl, holds))

pub get_addr_copy_in-Copied :
    (h : Heap) (peers : List PeerPtr) (pid : ℕ) (n : ℕ → ℕ)
    → ((a : ℕ) → total peer_weight a peers ≤ n a)
    → Holds h n
    → Returns (Copied n (addr_of (map (λ p. p.peer) peers) pid)) (get_addr_copy_in h peers pid)
unfolding get_addr_copy_in
get_addr_copy_in-Copied h peers pid n among holds =
    Returns-bind
      (reads_all-Holds _ (looked peer_blocks peers) (λ a. one h.next a + n a)
        (λ a. omega (arith, among a, often-peers peers a)) (calloc-Holds h n holds))
      λ h₂ o₂. finish_copy-Copied h₂ h.next n (addr_of (map (λ p. p.peer) peers) pid) o₂
