-- ===== src/Memory/Looks.antt =====
-- Reading blocks of the context, and freeing a received message.
use view_sync.Prelude.{ℕ, ◌+◌, ◌≤◌, ◌≡◌, refl, sym, ap, subst, List, arith}
use view_sync.Prelude.Outcome.{Outcome, done, ◌>>=◌}
use view_sync.Memory.Heap.{Holds-as, often}
use view_sync.Memory.Objects.{ReceivedPtr, received_weight}
use view_sync.Memory.Blocks.{cbc_received_msg_free-Holds}
use view_sync.Memory.Matches.{Matches, both, Matches-heap}
use view_sync.Memory.Context.{Context, forget, Owned, Agrees, with_heap}
use view_sync.Memory.Reads.{reads_all_lem}
use view_sync.Memory.Receiving.{looks, free_received_in}
use view_sync.Memory.Controls.{beside}

-- Reading blocks of the context changes nothing.
pub looks_lem :
    (e : ℕ → ℕ) (st : Context) (blocks : List ℕ)
    → ((a : ℕ) → often a blocks ≤ beside e st a)
    → Owned e st
    → looks st blocks ≡ done st
looks_lem e st blocks among owned =
    ap (λ r. r >>= λ h. done (with_heap st h))
      (reads_all_lem st.heap blocks (λ a pos. omega (arith, pos, among a, owned.same a)))

pub Matches-looks :
    {A B : Type 0} {R : A → B → Type 0} {n : Outcome B}
    → (e : ℕ → ℕ) (st : Context) (blocks : List ℕ) (f : Context → Outcome A)
    → ((a : ℕ) → often a blocks ≤ beside e st a)
    → Owned e st
    → Matches R (f st) n
    → Matches R (looks st blocks >>= f) n
Matches-looks {R = R} {n = n} e st blocks f among owned m =
    subst (λ r. Matches R (r >>= f) n) (sym (looks_lem e st blocks among owned)) m

pub free_received_in-Agrees :
    (e : ℕ → ℕ) (st : Context) (p : ReceivedPtr)
    → Owned (λ a. received_weight p a + e a) st
    → Matches (Agrees e) (free_received_in st p) (done (forget st))
free_received_in-Agrees e st p owned =
    Matches-heap
      (cbc_received_msg_free-Holds st.heap p (beside e st)
        (Holds-as st.heap _ _ (λ a. omega arith) owned))
      λ h o. both (refl, o)
