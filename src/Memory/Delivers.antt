-- ===== src/Memory/Delivers.antt =====
-- Messages go from array to array: what they do with their blocks, and what is computed.
use mathlib.Core.List.{map-append}
use view_sync.Prelude.{
  ℕ, zero, suc, ◌+◌, ◌≡◌, refl, sym, ap, ◌∙◌, Option, none, some, [], ◌∷◌, length, get_elem?,
  arrdelswap, arith,
}
use view_sync.Prelude.Outcome.{done}
use view_sync.Message.{ReceivedMessage}
use view_sync.State.{Cbcast}
use view_sync.Receive.{deliver}
use view_sync.Receive.Data.{
  deliver_at, deliver_found, deliver_held, deliver_rounds, try_deliver_held_msgs, hold,
}
use view_sync.Memory.Heap.{Holds-as, total-append, total-arrdelswap}
use view_sync.Memory.Objects.{ReceivedPtr, received_weight, received_value}
use view_sync.Memory.Matches.{Matches-as, Matches, both, loops}
use view_sync.Memory.Values.{length-map, get_elem?-map-some, get_elem?-map-none, map-arrdelswap}
use view_sync.Memory.Context.{Context, forget, Owned, Agrees}
use view_sync.Memory.Reads.{often-received}
use view_sync.Memory.Receiving.{
  deliver_in, deliver_at_in, deliver_found_in, deliver_held_in, deliver_rounds_in,
  try_deliver_held_msgs_in, hold_in,
}
use view_sync.Memory.Looks.{Matches-looks}

-- A message at hand is put into an array.
pub deliver_in-Agrees :
    (e : ℕ → ℕ) (st : Context) (p : ReceivedPtr) (v : ReceivedMessage) (pid : ℕ)
    → received_value p ≡ v
    → Owned (λ a. received_weight p a + e a) st
    → Agrees e (deliver_in st p pid) (deliver (forget st) v pid)
deliver_in-Agrees e st p v pid same owned = (
  ap (λ q. record (deliver (forget st) v pid) { delivery_queue = q })
        (map-append received_value st.delivery_queue (p ∷ []))
      ∙ ap (λ x. deliver (forget st) x pid) same,
  Holds-as st.heap _ _
      (λ a. omega (arith, total-append received_weight a st.delivery_queue (p ∷ []))) owned,
)

pub hold_in-Agrees :
    (e : ℕ → ℕ) (st : Context) (p : ReceivedPtr) (v : ReceivedMessage)
    → received_value p ≡ v
    → Owned (λ a. received_weight p a + e a) st
    → Agrees e (hold_in st p) (hold (forget st) v)
hold_in-Agrees e st p v same owned = (
  ap (λ q. record (forget st) { held_msg_buffer = q })
        (map-append received_value st.held_msg_buffer (p ∷ []))
      ∙ ap (hold (forget st)) same,
  Holds-as st.heap _ _
      (λ a. omega (arith, total-append received_weight a st.held_msg_buffer (p ∷ []))) owned,
)

-- Both sides find a message, or neither does.
pub data Delivers (e : ℕ → ℕ) : Option Context → Option Cbcast → Type 0 where
  delivers : {st : Context} → {cbc : Cbcast} → Agrees e st cbc → Delivers e (some st) (some cbc)
  settled : Delivers e none none

deliver_at_in-Delivers :
    (e : ℕ → ℕ) (st : Context) (pid i : ℕ) (o : Option ReceivedPtr)
    → get_elem? st.held_msg_buffer i ≡ o
    → Owned e st
    → Delivers e
        (deliver_at_in st pid i o)
        (deliver_at (forget st) pid i (get_elem? (forget st).held_msg_buffer i))
deliver_at_in-Delivers e st pid i none at owned =
    rw (get_elem?-map-none received_value st.held_msg_buffer i at) settled
deliver_at_in-Delivers e st pid i (some p) at owned =
    let left = arrdelswap st.held_msg_buffer i in
    let (same, o) =
      deliver_in-Agrees e (record st { held_msg_buffer = left }) p (received_value p) pid refl
        (Holds-as st.heap _ _
          (λ a. omega (arith, total-arrdelswap received_weight a st.held_msg_buffer i p at))
          owned) in
    rw (get_elem?-map-some received_value st.held_msg_buffer i p at) (
      delivers (
        same
            ∙ ap (λ h. record (deliver (forget st) (received_value p) pid) { held_msg_buffer = h })
                (map-arrdelswap received_value st.held_msg_buffer i),
        o,
      ))

deliver_found_in-Delivers :
    (e : ℕ → ℕ) (st : Context) (pid : ℕ) (o : Option ℕ)
    → Owned e st
    → Delivers e (deliver_found_in st pid o) (deliver_found (forget st) pid o)
deliver_found_in-Delivers e st pid none owned = settled
deliver_found_in-Delivers e st pid (some i) owned = deliver_at_in-Delivers e st pid i _ refl owned

deliver_held_in-Delivers :
    (e : ℕ → ℕ) (st : Context) (pid : ℕ)
    → Owned e st
    → Delivers e (deliver_held_in st pid) (deliver_held (forget st) pid)
unfolding deliver_held_in deliver_held
deliver_held_in-Delivers e st pid owned = deliver_found_in-Delivers e st pid _ owned

round :
    (e : ℕ → ℕ) (fuel pid : ℕ) (st : Context) (o : Option Context) (o' : Option Cbcast)
    → ((st' : Context)
        → Owned e st'
        → Matches
            (Agrees e)
            (deliver_rounds_in fuel st' pid)
            (deliver_rounds fuel (forget st') pid))
    → deliver_held_in st pid ≡ o
    → deliver_held (forget st) pid ≡ o'
    → Delivers e o o'
    → Owned e st
    → Matches
        (Agrees e)
        (elim (deliver_held_in st pid) [
          | none ↦ done st
          | some st'' ↦ deliver_rounds_in fuel st'' pid
        ])
        (elim (deliver_held (forget st) pid) [
          | none ↦ done (forget st)
          | some cbc' ↦ deliver_rounds fuel cbc' pid
        ])
round e fuel pid st none none next is is' settled owned = rw (is, is') (both (refl, owned))
round e fuel pid st (some st') (some cbc') next is is' (delivers (same, owned')) owned =
    rw (is, is') (Matches-as (ap (λ c. deliver_rounds fuel c pid) same) (next st' owned'))
round e fuel pid st none (some cbc') next is is' d owned = elim d [ ]
round e fuel pid st (some st') none next is is' d owned = elim d [ ]

deliver_rounds_in-Agrees :
    (e : ℕ → ℕ) (fuel pid : ℕ) (st : Context)
    → Owned e st
    → Matches (Agrees e) (deliver_rounds_in fuel st pid) (deliver_rounds fuel (forget st) pid)
unfolding deliver_rounds_in deliver_rounds
deliver_rounds_in-Agrees e zero pid st owned = loops
deliver_rounds_in-Agrees e (suc fuel) pid st owned =
    Matches-looks e st _ _ (λ a. omega (arith, often-received st.held_msg_buffer a)) owned
      (round e fuel pid st _ _ (deliver_rounds_in-Agrees e fuel pid) refl refl
        (deliver_held_in-Delivers e st pid owned) owned)

pub try_deliver_held_msgs_in-Agrees :
    (e : ℕ → ℕ) (st : Context) (pid : ℕ)
    → Owned e st
    → Matches (Agrees e) (try_deliver_held_msgs_in st pid) (try_deliver_held_msgs (forget st) pid)
unfolding try_deliver_held_msgs_in try_deliver_held_msgs
try_deliver_held_msgs_in-Agrees e st pid owned =
    Matches-as
      (ap (λ n. deliver_rounds (suc n) (forget st) pid)
        (sym (length-map received_value st.held_msg_buffer)))
      (deliver_rounds_in-Agrees e (suc (length st.held_msg_buffer)) pid st owned)
