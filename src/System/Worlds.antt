-- ===== src/System/Worlds.antt =====
-- What is known of each member of a group, and how it grows with what is said.
use view_sync.Prelude.{
  ℕ, ◌^◌, ◌<◌, ◌≡◌, ◌≢◌, subst, inl, inr, Bool-cases, Option, List, [], ◌∷◌, ◌++◌, length, get_or,
  ◌==◌, ==_iff, ==_refl,
}
use view_sync.Message.{SockAddr}
use view_sync.State.{Cbcast}
use view_sync.Send.Resend.{All-imp, IsResendable}
use view_sync.Node.{Node}
use view_sync.Member.{Promises, Speaks, IsSendable, IsHealthy}
use view_sync.Member.Incoming.{IsTrusted}
use view_sync.Member.Sending.{CarriesAs-map}
use view_sync.Member.Node.{IsHealthyNode}
use view_sync.System.{update}
use view_sync.System.Said.{Said, Said-append}

pub update_self {ℓ} : {A : Type ℓ} (f : ℕ → A) (i : ℕ) (a : A) → update f i a i ≡ a
update_self f i a = rw (==_refl i)

module _ (addr : ℕ → SockAddr) (size : ℕ) where
  -- A member knows its peers by the addresses of their sockets.
  abbrev pub KnowsFor : ℕ → ℕ → SockAddr → Type 0
  KnowsFor self pid a = (pid ≢ self) × (a ≡ addr pid) × (pid < size)

  abbrev pub OwnFor : List (List ℕ) → ℕ → Type 0
  OwnFor texts n = length texts < 2 ^ 16 → n ≡ length texts

  -- A member's own texts, and those of the others.
  abbrev pub world_of : List (List ℕ) → (ℕ → List (List ℕ)) → ℕ → Promises
  world_of own said self = record {
    self = self;
    Says = Said own;
    Knows = KnowsFor self;
    Comes = λ pid. Said (said pid);
    Own = OwnFor own;
  }

  abbrev pub world : (ℕ → List (List ℕ)) → ℕ → Promises
  world said self = world_of (said self) said self

  abbrev pub world_apart :
      (said : ℕ → List (List ℕ)) (self : ℕ) (pid : ℕ) (a : SockAddr)
      → KnowsFor self pid a
      → pid ≢ self
  world_apart said self pid a k = k.0

  -- More has been said in the second world than in the first.
  abbrev pub Grows : (ℕ → List (List ℕ)) → (ℕ → List (List ℕ)) → Type 0
  Grows said said' =
      (pid clock : ℕ) (p : Option (List ℕ)) → Said (said pid) clock p → Said (said' pid) clock p

  Speaks-map :
      (P Q : ℕ → Option (List ℕ) → Type 0) (bytes : List ℕ)
      → ((c : ℕ) (q : Option (List ℕ)) → P c q → Q c q)
      → Speaks P bytes
      → Speaks Q bytes
  Speaks-map P Q bytes f s m e = CarriesAs-map P Q m.header.kind m.header.clock m.payload f (s m e)

  module _ (said said' : ℕ → List (List ℕ)) (self : ℕ) (grows : Grows said said') where
    pub IsHealthy-grows :
        (texts texts' : List (List ℕ)) (cbc : Cbcast)
        → ((clock : ℕ) (p : Option (List ℕ)) → Said texts clock p → Said texts' clock p)
        → OwnFor texts' (get_or cbc.vclock self 0)
        → IsHealthy (world_of texts said self) cbc
        → IsHealthy (world_of texts' said' self) cbc
    IsHealthy-grows texts texts' cbc more own h = record {
      own = h.own;
      inside = h.inside;
      clock = own;
      sound = record {
        known = h.sound.known;
        resendable =
            All-imp cbc.sent_msg_buffer
              (λ s. λ (r : IsResendable (Said texts) s). (r.0, r.1, r.2, more _ _ r.3))
              h.sound.resendable;
      };
      outgoing =
          All-imp cbc.send_queue
            (λ out. λ (s : IsSendable (Said texts) out). (
              s.0,
              CarriesAs-map (Said texts) (Said texts') out.message.header.kind
                  out.message.header.clock out.message.payload more s.1,
            ))
            h.outgoing;
      held = All-imp cbc.held_msg_buffer (λ m. grows m.sender_pid _ _) h.held;
      queue = All-imp cbc.delivery_queue (λ m. grows m.sender_pid _ _) h.queue;
    }

    module _ (inet_addr : List ℕ → ℕ) (rand : ℕ → ℕ) where
      -- The parts of a member that a step of its own does not touch grow too.
      pub IsHealthyNode-grows :
          (n : Node) (cbc : Cbcast)
          → IsHealthy (world said' self) cbc
          → IsHealthyNode (world said self) (world_apart said self) inet_addr rand n
          → IsHealthyNode
              (world said' self)
              (world_apart said' self)
              inet_addr
              rand
              (record n { cbc = cbc })
      IsHealthyNode-grows n cbc c h = record {
        cbc = c;
        inbox =
            All-imp n.inbox
              (λ d. λ (t : IsTrusted (world said self) (world_apart said self) d). λ pid k.
                Speaks-map (Said (said pid)) (Said (said' pid)) d.bytes (grows pid) (t pid k))
              h.inbox;
        taken = All-imp n.taken (λ m. grows m.sender_pid _ _) h.taken;
        sent =
            All-imp n.sent
              (λ p. Speaks-map (Said (said self)) (Said (said' self)) p.bytes (grows self)) h.sent;
      }

-- Saying one more text.
pub update-Said :
    (said : ℕ → List (List ℕ)) (j : ℕ) (t : List ℕ) (pid clock : ℕ) (p : Option (List ℕ))
    → Said (said pid) clock p
    → Said (update said j (said j ++ (t ∷ [])) pid) clock p
update-Said said j t pid clock p h = elim (Bool-cases (pid == j)) [
  | inr other ↦ rw other h
  | inl same ↦ rw same (
      Said-append (said j) t clock p (subst (λ i. Said (said i) clock p) ((==_iff pid j).0 same) h))
]
