-- ===== src/Worker/Setup.antt =====
-- The group that the workers of main.c form.
use mathlib.Core.List.{append_assoc, append-nil}
use view_sync.Prelude.{
  ℕ, zero, suc, ◌+◌, ◌%◌, ◌^◌, ◌≤◌, ◌<◌, ◌≡◌, ◌≢◌, refl, sym, ap, ◌∙◌, inl, inr, Bool, true, false,
  Bool-cases, some, List, [], ◌∷◌, ◌++◌, map, length, take, get_or, replicate, All, leb, ◌==◌,
  if◌then◌else◌, arith,
}
use view_sync.Prelude.Outcome.{done, result_ok}
use view_sync.Message.{SockAddr}
use view_sync.State.{Peer, cbc_peer_alive, Cbcast}
use view_sync.VectorClock.{vc_init}
use view_sync.Init.{fresh, cbc_init}
use view_sync.Peer.{inaddr_none, create_peer, cbc_add_peer}
use view_sync.Send.Loops.{IsShiftable}
use view_sync.System.{System, opening, Reach, payloads_from, terminated}
use view_sync.System.Worlds.{KnowsFor}
use view_sync.System.Invariant.{Invariant}
use view_sync.System.Parts.{sent_part}
use view_sync.System.Opening.{opening-Invariant}
use view_sync.System.Fifo.{keeps-payloads}
use view_sync.Worker.{num_workers, loopback, port_of, add_peers, join}

same_done : (a b : Cbcast) → done a ≡ done b → a ≡ b
same_done a b e = cc

module _ (inet_addr : List ℕ → ℕ) where
  -- Where a worker's socket is bound.
  abbrev pub worker_addr : ℕ → SockAddr
  worker_addr i = record { sin_port = port_of i; s_addr = inet_addr loopback }

  abbrev worker_peer : ℕ → Peer
  worker_peer j = record { pid = j % 2 ^ 32; pos = 0; addr = worker_addr j; state = cbc_peer_alive }

  -- The workers from `j` on, `n` of them, but `i`.
  abbrev pub others : ℕ → ℕ → ℕ → List Peer
  others zero j i = []
  others (suc n) j i = if j == i then others n (suc j) i else worker_peer j ∷ others n (suc j) i

  module _ (resolves : inet_addr loopback ≢ inaddr_none) where
    added :
        (cbc : Cbcast) (j : ℕ)
        → j < num_workers
        → cbc_add_peer inet_addr cbc j (some loopback) (port_of j)
          ≡ result_ok (record cbc { peers = cbc.peers ++ (worker_peer j ∷ []) })
    unfolding cbc_add_peer create_peer
    added cbc j small =
        let good : (inet_addr loopback == inaddr_none) ≡ false = ground arith in
        let nonzero : (port_of j == 0) ≡ false = ground arith in rw (nonzero, good)

    add_peers_lem :
        (n j i : ℕ) (cbc : Cbcast)
        → n + j ≤ num_workers
        → add_peers inet_addr n j i cbc ≡ done (record cbc { peers = cbc.peers ++ others n j i })
    unfolding add_peers
    add_peers_lem zero j i cbc h =
        ap (λ ps. done (record cbc { peers = ps })) (sym (append-nil cbc.peers))
    add_peers_lem (suc n) j i cbc h = elim (Bool-cases (j == i)) [
      | inl self ↦ rw self (add_peers_lem n (suc j) i cbc (omega arith))
      | inr other ↦
          rw (other, added cbc j (omega arith))
            (add_peers_lem n (suc j) i (record cbc { peers = cbc.peers ++ (worker_peer j ∷ []) })
                (omega arith)
              ∙ ap (λ ps. done (record cbc { peers = ps }))
                  (append_assoc cbc.peers (worker_peer j ∷ []) (others n (suc j) i)))
    ]

    -- A process that gets its socket and its port becomes the member with the other workers as its
    -- peers.
    pub join_lem :
        (bind_ok : ℕ → Bool) (i : ℕ)
        → i < num_workers
        → bind_ok (port_of i) ≡ true
        → join true bind_ok inet_addr i
          ≡ done (record (fresh i (replicate num_workers 0)) { peers = others num_workers 0 i })
    unfolding join cbc_init vc_init
    join_lem bind_ok i small bound =
        let inside : leb num_workers i ≡ false = ground arith in
        rw (inside, bound)
          (add_peers_lem num_workers 0 i (fresh i (replicate num_workers 0)) (omega arith))

  others-known :
      (n j i : ℕ)
      → n + j ≤ num_workers
      → All
          (λ p. IsShiftable p.pid × KnowsFor worker_addr num_workers i p.pid p.addr)
          (others n j i)
  others-known zero j i h = tt
  others-known (suc n) j i h = elim (Bool-cases (j == i)) [
    | inl self ↦ rw self (others-known n (suc j) i (omega arith))
    | inr other ↦
        let short : j % 2 ^ 32 ≡ j = omega arith in
        let ne : j ≢ i = ground arith in
        rw (other, short)
          ((omega arith, (ne, refl, omega arith)), others-known n (suc j) i (omega arith))
  ]

  pub worker_addr-distinct :
      (a b : ℕ) → a < num_workers → b < num_workers → worker_addr a ≡ worker_addr b → a ≡ b
  worker_addr-distinct a b h k e = omega (arith, h, k, ap (λ (s : SockAddr). s.sin_port) e)

  -- The group that starts as the program starts it starts well.
  pub workers-Invariant :
      (rand : ℕ → ℕ → ℕ) (bind_ok : ℕ → Bool) (members : ℕ → Cbcast)
      → inet_addr loopback ≢ inaddr_none
      → ((k : ℕ) → k < num_workers → bind_ok (port_of k) ≡ true)
      → ((k : ℕ) → k < num_workers → join true bind_ok inet_addr k ≡ done (members k))
      → Invariant inet_addr rand worker_addr num_workers (opening members)
  workers-Invariant rand bind_ok members resolves bound joined =
      opening-Invariant inet_addr rand worker_addr num_workers members (others num_workers 0)
        (λ k small.
          same_done (members k) _
            (sym (joined k small) ∙ join_lem resolves bind_ok k small (bound k small)))
        (λ k small. others-known num_workers 0 k (omega arith))

  -- In the group of the five workers, started as the program starts them with every socket and port
  -- to be had, and giving payloads as long as it says and with a zero byte among their bytes:
  -- whatever the network loses, delays, repeats and reorders, and however the workers'
  -- calls and threads take turns, the payloads of a worker that another's program has taken or can
  -- take are the first ones that it has sent, in order, each once, with a zero byte behind, as many
  -- as the receiver's clock says; each unchanged if it has fewer than 2 ^ 16 bytes, and of a longer one
  -- as many bytes as its length modulo 2 ^ 16. The sender is taken to have sent fewer than 2 ^ 16.
  pub workers-payloads :
      (rand : ℕ → ℕ → ℕ) (bind_ok : ℕ → Bool) (members : ℕ → Cbcast) (s : System) (i j : ℕ)
      → inet_addr loopback ≢ inaddr_none
      → ((k : ℕ) → k < num_workers → bind_ok (port_of k) ≡ true)
      → ((k : ℕ) → k < num_workers → join true bind_ok inet_addr k ≡ done (members k))
      → Reach inet_addr rand worker_addr num_workers (opening members) s
      → j < num_workers
      → i ≢ j
      → length (s.said i) < 2 ^ 16
      → (get_or (s.nodes j).cbc.vclock i 0 ≤ length (s.said i))
        × (payloads_from i ((s.nodes j).taken ++ (s.nodes j).cbc.delivery_queue)
            ≡ take (get_or (s.nodes j).cbc.vclock i 0) (map terminated (map sent_part (s.said i))))
  workers-payloads rand bind_ok members s i j resolves bound joined =
      keeps-payloads inet_addr rand worker_addr num_workers (opening members) s i j
        worker_addr-distinct (workers-Invariant rand bind_ok members resolves bound joined)
