-- ===== src/System/Invariant.antt =====
-- What every reachable group keeps: each member is well formed for what the others have said, and
-- its deliveries are in order.
use view_sync.Prelude.{
  ℕ, ◌+◌, ◌%◌, ◌^◌, ◌≤◌, ◌<◌, ◌≡◌, refl, sym, ap, subst, inl, inr, Bool-cases, some, List, [], ◌∷◌,
  ◌++◌, length, length-append, get_or, All-elem, ◌==◌, arith, ==_iff,
}
use view_sync.Prelude.Outcome.{done, result_ok, Ensures, Ensures-elim}
use view_sync.Prelude.Safe.{Safe, Safe-elim}
use view_sync.Message.{SockAddr}
use view_sync.State.{Cbcast}
use view_sync.Send.{cbc_send}
use view_sync.Send.Thread.{Packet}
use view_sync.Node.{Node, Event, sends, step}
use view_sync.Delivery.Run.{Ordered, step-Ordered}
use view_sync.Member.{Speaks, IsHealthy}
use view_sync.Member.Incoming.{IsTrusted}
use view_sync.Send.Sent.{next_own, IsText}
use view_sync.Member.Sending.{text_of, cbc_send-Safe}
use view_sync.Member.Node.{
  IsHealthyNode, receives-Safe, arrives-Safe, recv_thread_runs-Safe, send_thread_runs-Safe,
}
use view_sync.System.{
  System, update, IsWork, takes, receive_thread, send_thread, Step, works, sends, delivers, Reach,
  begin, later,
}
use view_sync.System.Parts.{sent_parts, sent_parts-update}
use view_sync.System.Said.{Said, Said-append, Said-last}
use view_sync.System.Worlds.{
  update_self, OwnFor, world_of, world, world_apart, Grows, IsHealthy-grows, IsHealthyNode-grows,
  update-Said,
}

module _ (inet_addr : List ℕ → ℕ) (rand : ℕ → ℕ → ℕ) (addr : ℕ → SockAddr) (size : ℕ) where
  -- One member, given what has been said.
  pub record IsGood (said : ℕ → List (List ℕ)) (i : ℕ) (n : Node) : Type 0 where
    pub healthy :
        IsHealthyNode (world addr size said i) (world_apart addr size said i) inet_addr (rand i) n
    pub ordered : Ordered inet_addr (rand i) i (λ p. 0) n

  abbrev pub Invariant : System → Type 0
  Invariant s = (i : ℕ) → i < size → IsGood (sent_parts s.said) i (s.nodes i)

  Ordered-step :
      (i : ℕ) (n n' : Node) (e : Event)
      → step inet_addr (rand i) n e ≡ done n'
      → Ordered inet_addr (rand i) i (λ p. 0) n
      → Ordered inet_addr (rand i) i (λ p. 0) n'
  Ordered-step i n n' e eq f = Ensures-elim (
      subst (Ensures (Ordered inet_addr (rand i) i (λ p. 0))) eq
        (step-Ordered inet_addr (rand i) i (λ p. 0) n e f))

  Ordered-send :
      (i : ℕ) (n : Node) (payload : List ℕ) (len : ℕ) (cbc : Cbcast)
      → cbc_send n.cbc (some payload) len ≡ done (result_ok cbc)
      → Ordered inet_addr (rand i) i (λ p. 0) n
      → Ordered inet_addr (rand i) i (λ p. 0) (record n { cbc = cbc })
  unfolding step
  Ordered-send i n payload len cbc e f =
      Ordered-step i n (record n { cbc = cbc }) (sends (some payload) len) stepped f
    where
      stepped : step inet_addr (rand i) n (sends (some payload) len) ≡ done (record n { cbc = cbc })
      stepped = rw e refl

  -- A step that changes one member and says nothing.
  one_changes :
      (s : System) (j : ℕ) (n : Node)
      → IsGood (sent_parts s.said) j n
      → Invariant s
      → Invariant (record s { nodes = update s.nodes j n })
  one_changes s j n good inv i inside = elim (Bool-cases (i == j)) [
    | inl same ↦
        rw same (subst (λ k. IsGood (sent_parts s.said) k n) (sym ((==_iff i j).0 same)) good)
    | inr other ↦ rw other (inv i inside)
  ]

  work-Safe :
      (said : ℕ → List (List ℕ)) (j : ℕ) (n : Node) (e : Event)
      → IsWork e
      → IsHealthyNode (world addr size said j) (world_apart addr size said j) inet_addr (rand j) n
      → Safe
          (IsHealthyNode (world addr size said j) (world_apart addr size said j) inet_addr (rand j))
          (step inet_addr (rand j) n e)
  work-Safe said j n _ takes h = receives-Safe (world addr size said j) _ inet_addr (rand j) n h
  work-Safe said j n _ receive_thread h =
      recv_thread_runs-Safe (world addr size said j) _ inet_addr (rand j) n h
  work-Safe said j n _ send_thread h =
      send_thread_runs-Safe (world addr size said j) _ inet_addr (rand j) n h

  -- A packet of a member of the group says at its receiver what its sender has said.
  packet-IsTrusted :
      (said : ℕ → List (List ℕ)) (i j : ℕ) (p : Packet)
      → ((a b : ℕ) → a < size → b < size → addr a ≡ addr b → a ≡ b)
      → i < size
      → Speaks (Said (said i)) p.bytes
      → IsTrusted
          (world addr size said j)
          (world_apart addr size said j)
          (record { source = addr i; bytes = p.bytes })
  packet-IsTrusted said i j p distinct inside s pid (ne, at, small) =
      subst (λ k. Speaks (Said (said k)) p.bytes) (distinct i pid inside small at) s

  -- The member that sends a text says it from then on.
  module _ (said : ℕ → List (List ℕ)) (j : ℕ) (n : Node) (payload : List ℕ) (len : ℕ) (cbc : Cbcast)
      (enough : len % 2 ^ 16 ≤ length payload) (text : IsText payload)
      (e : cbc_send n.cbc (some payload) len ≡ done (result_ok cbc))
      (h : IsHealthyNode
        (world addr size said j)
        (world_apart addr size said j)
        inet_addr
        (rand j)
        n) where
    abbrev texts : List (List ℕ)
    texts = said j ++ (text_of payload len ∷ [])

    abbrev said' : ℕ → List (List ℕ)
    said' = update said j texts

    sent_clock : length texts < 2 ^ 16 → next_own n.cbc ≡ length texts
    sent_clock few =
        let l : length texts ≡ length (said j) + 1 =
          length-append (said j) (text_of payload len ∷ []) in
        omega (
          arith,
          h.cbc.clock (omega (arith, l, few)),
          l,
          few,
          ap (λ i. get_or n.cbc.vclock i 0) h.cbc.own,
        )

    sender_of_texts : IsHealthy (world_of addr size texts said j) cbc
    sender_of_texts = Safe-elim (
        subst (Safe _) e (
          cbc_send-Safe (world addr size said j) (Said texts) (OwnFor addr size texts)
            (Said-append (said j) (text_of payload len)) n.cbc payload len enough text
            (Said-last (said j) (text_of payload len) (next_own n.cbc % 2 ^ 16) (λ few.
              omega
                (arith, sent_clock few, few, length-append (said j) (text_of payload len ∷ []))))
            sent_clock h.cbc))

    sender-IsHealthy : IsHealthy (world addr size said' j) cbc
    sender-IsHealthy =
        let grown =
          IsHealthy-grows addr size said said' j (update-Said said j (text_of payload len)) texts
            texts cbc (λ c p s. s) (sender_of_texts.clock) sender_of_texts in
        subst (λ own. IsHealthy (world_of addr size own said' j) cbc)
          (sym (update_self said j texts)) grown

  send-IsGood :
      (said : ℕ → List (List ℕ)) (s : System) (j : ℕ) (payload : List ℕ) (len : ℕ) (cbc : Cbcast)
      (i : ℕ)
      → i < size
      → j < size
      → len % 2 ^ 16 ≤ length payload
      → IsText payload
      → cbc_send (s.nodes j).cbc (some payload) len ≡ done (result_ok cbc)
      → ((k : ℕ) → k < size → IsGood said k (s.nodes k))
      → IsGood
          (update said j (said j ++ (text_of payload len ∷ [])))
          i
          (update s.nodes j (record (s.nodes j) { cbc = cbc }) i)
  send-IsGood said s j payload len cbc i inside from enough text e inv =
      elim (Bool-cases (i == j)) [
        | inl same ↦
            let good = inv j from in
            rw same (
              subst (λ k. IsGood said_now k (record (s.nodes j) { cbc = cbc }))
                (sym ((==_iff i j).0 same))
                (record {
                  healthy =
                      IsHealthyNode-grows addr size said said_now j grows inet_addr (rand j)
                        (s.nodes j) cbc
                        (sender-IsHealthy said j (s.nodes j) payload len cbc enough text e
                          good.healthy)
                        good.healthy;
                  ordered = Ordered-send j (s.nodes j) payload len cbc e good.ordered;
                }))
        | inr other ↦
            let good = inv i inside in
            let unsaid : said_now i ≡ said i = rw other refl in
            let healthy =
              IsHealthy-grows addr size said said_now i grows (said i) (said_now i) (s.nodes i).cbc
                (grows i)
                (subst (λ texts. OwnFor addr size texts (get_or (s.nodes i).cbc.vclock i 0))
                  (sym unsaid) good.healthy.cbc.clock)
                good.healthy.cbc in
            rw other (record {
              healthy =
                  IsHealthyNode-grows addr size said said_now i grows inet_addr (rand i) (s.nodes i)
                    (s.nodes i).cbc healthy good.healthy;
              ordered = good.ordered;
            })
      ]
    where
      said_now : ℕ → List (List ℕ)
      said_now = update said j (said j ++ (text_of payload len ∷ []))

      grows : Grows addr size said said_now
      grows = update-Said said j (text_of payload len)

  module _ (distinct : (a b : ℕ) → a < size → b < size → addr a ≡ addr b → a ≡ b) where
    Step-Invariant : (s t : System) → Invariant s → Step inet_addr rand addr size s t → Invariant t
    Step-Invariant s _ inv (works j e n inside w eq) =
        one_changes s j n
          (record {
            healthy = Safe-elim (
                subst (Safe _) eq
                  (work-Safe (sent_parts s.said) j (s.nodes j) e w (inv j inside).healthy));
            ordered = Ordered-step j (s.nodes j) n e eq (inv j inside).ordered;
          })
          inv
    Step-Invariant s _ inv (delivers i j k p n from inside at to eq) =
        one_changes s j n
          (record {
            healthy = Safe-elim (
                subst (Safe _) eq (
                  arrives-Safe (world addr size (sent_parts s.said) j) _ inet_addr (rand j)
                    (s.nodes j) _
                    (packet-IsTrusted (sent_parts s.said) i j p distinct from (
                      All-elem (λ q. Speaks (Said (sent_parts s.said i)) q.bytes) (s.nodes i).sent k
                        p (inv i from).healthy.sent at))
                    (inv j inside).healthy));
            ordered = Ordered-step j (s.nodes j) n _ eq (inv j inside).ordered;
          })
          inv
    Step-Invariant s _ inv (sends j payload len cbc inside enough text e) = λ i within.
        subst (λ said. IsGood said i (update s.nodes j (record (s.nodes j) { cbc = cbc }) i))
          (λ k p. sym (sent_parts-update s.said j payload len enough p) k)
          (send-IsGood (sent_parts s.said) s j payload len cbc i within inside (omega arith) text e
            inv)

    -- What every reachable group keeps.
    pub Reach-Invariant :
        (from s : System) → Invariant from → Reach inet_addr rand addr size from s → Invariant s
    Reach-Invariant from _ inv begin = inv
    Reach-Invariant from _ inv (later r step) =
        Step-Invariant _ _ (Reach-Invariant from _ inv r) step
