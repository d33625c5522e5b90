-- ===== src/Memory/Life.antt =====
-- What `cbc_init` allocates and what `cbc_free` frees.
use view_sync.Prelude.{
  ℕ, ◌+◌, refl, inl, inr, Bool, true, false, Bool-cases, List, [], ◌∷◌, leb, replicate, ◌==◌, arith,
}
use view_sync.Prelude.Outcome.{
  Outcome, done, Result, result_ok, result_err, Error, invalid_arguments, Returns, Returns-bind,
}
use view_sync.State.{Cbcast}
use view_sync.Init.{cbc_init, fresh, opened}
use view_sync.Memory.Heap.{
  Heap, one, one_if, Holds, Holds-as, calloc-Holds, free-Holds, free_if-Holds, reads-Holds, total,
}
use view_sync.Memory.Objects.{outgoing_weight, sent_weight, received_weight}
use view_sync.Memory.Blocks.{
  one_self, reads_first, cbc_outgoing_msg_free-Holds, cbc_sent_msg_free-Holds,
  cbc_received_msg_free-Holds, vc_free-Holds,
}
use view_sync.Memory.Matches.{Matches, both, Matches-heap}
use view_sync.Memory.Context.{
  PeerPtr, peer_weight, Context, lost, Owned, Agrees, free_each, free_peer, cbc_free, open_in,
  cbc_init_in,
}

free_each-Holds :
    {A : Type 0} (release : Heap → A → Outcome Heap) (weight : A → ℕ → ℕ)
    → ((h : Heap) (x : A) (n : ℕ → ℕ)
        → Holds h (λ a. weight x a + n a)
        → Returns (λ h'. Holds h' n) (release h x))
    → (h : Heap) (xs : List A) (n : ℕ → ℕ) → Holds h (λ a. total weight a xs + n a)
    → Returns (λ h'. Holds h' n) (free_each release h xs)
free_each-Holds release weight law h [] n holds = (h, refl, Holds-as h _ n (λ a. omega arith) holds)
free_each-Holds release weight law h (x ∷ xs) n holds =
    Returns-bind (law h x (λ a. total weight a xs + n a) (Holds-as h _ _ (λ a. omega arith) holds))
      λ h' o. free_each-Holds release weight law h' xs n o

pub free_peer-Holds :
    (h : Heap) (p : PeerPtr) (n : ℕ → ℕ)
    → Holds h (λ a. peer_weight p a + n a)
    → Returns (λ h'. Holds h' n) (free_peer h p)
unfolding peer_weight
free_peer-Holds h p n holds =
    Returns-bind
      (reads_first h p.at (λ a. one p.addr a + n a) (Holds-as h _ _ (λ a. omega arith) holds))
      λ h₁ o₁.
        Returns-bind
          (free-Holds h₁ p.addr (λ a. one p.at a + n a) (Holds-as h₁ _ _ (λ a. omega arith) o₁))
          λ h₂ o₂. free-Holds h₂ p.at n o₂

-- `cbc_free` always returns: it reads and frees only blocks that are allocated, each of them once.
-- Then what was not reached from the context is allocated as before, and nothing else.
pub cbc_free-Holds :
    (e : ℕ → ℕ) (st : Context)
    → Owned e st
    → Returns (λ h. Holds h (λ a. e a + lost st a)) (cbc_free st)
unfolding cbc_free
cbc_free-Holds e st owned =
    let k₉ : ℕ → ℕ = λ a. one st.at a + (e a + lost st a) in
    let k₈ : ℕ → ℕ = λ a. one st.stats_at a + k₉ a in
    let k₇ : ℕ → ℕ = λ a. one_if st.snapshot a + k₈ a in
    let k₆ : ℕ → ℕ = λ a. total received_weight a st.delivery_queue + k₇ a in
    let k₅ : ℕ → ℕ = λ a. total received_weight a st.held_msg_buffer + k₆ a in
    let k₄ : ℕ → ℕ = λ a. total sent_weight a st.sent_msg_buffer + k₅ a in
    let k₃ : ℕ → ℕ = λ a. total outgoing_weight a st.send_queue + k₄ a in
    let k₂ : ℕ → ℕ = λ a. total peer_weight a st.peers + k₃ a in
    let k₁ : ℕ → ℕ = λ a. one st.vclock_at a + (one st.clock_at a + k₂ a) in
    Returns-bind
      (reads-Holds st.heap st.at _ (omega (arith, one_self st.at))
        (Holds-as st.heap _ k₁ (λ a. omega arith) owned))
      λ h₀ o₀. Returns-bind (vc_free-Holds h₀ st.vclock_at st.clock_at k₂ o₀) λ h₁ o₁.
        Returns-bind (free_each-Holds _ peer_weight free_peer-Holds h₁ st.peers k₃ o₁) λ h₂ o₂.
          Returns-bind
            (free_each-Holds _ outgoing_weight cbc_outgoing_msg_free-Holds h₂ st.send_queue k₄ o₂)
            λ h₃ o₃.
              Returns-bind
                (free_each-Holds _ sent_weight cbc_sent_msg_free-Holds h₃ st.sent_msg_buffer k₅ o₃)
                λ h₄ o₄.
                  Returns-bind
                    (free_each-Holds _ received_weight cbc_received_msg_free-Holds h₄
                      st.held_msg_buffer k₆ o₄)
                    λ h₅ o₅.
                      Returns-bind
                        (free_each-Holds _ received_weight cbc_received_msg_free-Holds h₅
                          st.delivery_queue k₇ o₅)
                        λ h₆ o₆.
                          Returns-bind
                            (reads-Holds h₆ st.stats_at k₇ (omega (arith, one_self st.stats_at)) o₆)
                            λ h₇ o₇. Returns-bind (free_if-Holds h₇ st.snapshot k₈ o₇) λ h₈ o₈.
                              Returns-bind (free-Holds h₈ st.stats_at k₉ o₈)
                                λ h₉ o₉. free-Holds h₉ st.at _ o₉

-- The member that is opened, with its blocks; with invalid arguments nothing is allocated; when the
-- socket fails, one block is left over.
pub data Opened (n : ℕ → ℕ) : Result Context × Heap → Result Cbcast → Type 0 where
  opened_in :
      {st : Context}
      → {h : Heap} → {cbc : Cbcast} → Agrees n st cbc
      → Opened n (result_ok st, h) (result_ok cbc)
  refused :
      {h : Heap}
      → Holds h n
      → Opened n (result_err invalid_arguments, h) (result_err invalid_arguments)
  left_over :
      {err : Error}
      → {h : Heap} → (x : ℕ) → Holds h (λ a. one x a + n a)
      → Opened n (result_err err, h) (result_err err)

open_in-Opened :
    (socket_ok bound : Bool) (h : Heap) (n : ℕ → ℕ) (at stats_at vclock_at clock_at pid : ℕ)
    (vclock : List ℕ)
    → Holds h (λ a. one clock_at a + (one vclock_at a + (one stats_at a + (one at a + n a))))
    → Matches
        (Opened n)
        (open_in socket_ok bound h at stats_at vclock_at clock_at pid vclock)
        (done (opened socket_ok bound (fresh pid vclock)))
open_in-Opened true true h n at stats_at vclock_at clock_at pid vclock holds =
    both (opened_in (refl, Holds-as h _ _ (λ a. omega arith) holds))
open_in-Opened true false h n at stats_at vclock_at clock_at pid vclock holds =
    Matches-heap
      (vc_free-Holds h vclock_at clock_at (λ a. one at a + (one stats_at a + n a))
        (Holds-as h _ _ (λ a. omega arith) holds))
      λ h₁ o₁. Matches-heap (free-Holds h₁ at _ o₁) λ h₂ o₂. both (left_over stats_at o₂)
open_in-Opened false bound h n at stats_at vclock_at clock_at pid vclock holds =
    Matches-heap
      (vc_free-Holds h vclock_at clock_at (λ a. one at a + (one stats_at a + n a))
        (Holds-as h _ _ (λ a. omega arith) holds))
      λ h₁ o₁. Matches-heap (free-Holds h₁ at _ o₁) λ h₂ o₂. both (left_over stats_at o₂)

pub cbc_init_in-Opened :
    (socket_ok : Bool) (bind_ok : ℕ → Bool) (h : Heap) (n : ℕ → ℕ) (pid max_p port : ℕ)
    → Holds h n
    → Matches
        (Opened n)
        (cbc_init_in socket_ok bind_ok h pid max_p port)
        (cbc_init socket_ok bind_ok pid max_p port)
unfolding cbc_init_in cbc_init
cbc_init_in-Opened socket_ok bind_ok h n pid max_p port holds = elim (Bool-cases (max_p == 0)) [
  | inl z ↦ rw z (both (refused holds))
  | inr z ↦ elim (Bool-cases (leb max_p pid)) [
    | inl far ↦ rw (z, far) (both (refused holds))
    | inr near ↦
        rw (z, near)
          (open_in-Opened socket_ok (bind_ok port) _ n _ _ _ _ pid (replicate max_p 0)
            (calloc-Holds _ _ (calloc-Holds _ _ (calloc-Holds _ _ (calloc-Holds h n holds)))))
  ]
]
