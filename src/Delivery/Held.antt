-- ===== src/Delivery/Held.antt =====
-- Copies of a message in the held buffer.
use view_sync.Prelude.{
  ℕ, zero, suc, ◌+◌, ◌≡◌, ◌≤◌, refl, sym, ap, subst, ◌∙◌, inl, inr, Bool, true, false, ◌&&◌,
  Bool-cases, &&-split, ==_iff, List, [], ◌∷◌, ◌++◌, length, length-append, keep, keep-append,
  last_or, init, arrdelswap, exists_in, ◌==◌, if◌then◌else◌, arith,
}
use view_sync.Prelude.Outcome.{
  done, Ensures, returned, exited, Ensures-elim, Ensures-bind, Ensures-map,
}
use view_sync.Message.{Message, ReceivedMessage, is_retransmit, cbc_received_msg_create}
use view_sync.State.{Cbcast}
use view_sync.Receive.{Causality, causality_error, causality_deliver, causality_hold, deliver}
use view_sync.Receive.Data.{already_held, hold, handle_by, handle_data_msg, try_deliver_held_msgs}
use view_sync.Receive.Rounds.{deliver_rounds_inv}
use view_sync.Delivery.{Core, Frame}
use view_sync.Delivery.Frame.{ack_received_message-Frame, request_retransmission-Frame}

-- A message's copies have its clock and its sender.
abbrev pub is_copy : ℕ → ℕ → ReceivedMessage → Bool
is_copy clock pid h = (h.message.header.clock == clock) && (h.sender_pid == pid)

abbrev pub IsUnique : List ReceivedMessage → Type 0
IsUnique held = (clock pid : ℕ) → length (keep (is_copy clock pid) held) ≤ 1

module _ {A : Type 0} (p : A → Bool) where
  keep-none : (xs : List A) → exists_in p xs ≡ false → length (keep p xs) ≡ 0
  keep-none [] e = refl
  keep-none (x ∷ xs) e = ground (arith, keep-none xs)

  -- Bringing the last element to the front.
  length-keep-last :
      (x : A) (xs : List A)
      → length (keep p (last_or x xs ∷ init (x ∷ xs))) ≡ length (keep p (x ∷ xs))
  length-keep-last x [] = refl
  length-keep-last x (y ∷ ys) = ground (arith, length-keep-last y ys)

  length-keep-arrdelswap :
      (xs : List A) (i : ℕ) → length (keep p (arrdelswap xs i)) ≤ length (keep p xs)
  length-keep-arrdelswap [] i = omega arith
  length-keep-arrdelswap (x ∷ []) i = omega arith
  length-keep-arrdelswap (x ∷ y ∷ xs) zero = ground (arith, length-keep-last y xs)
  length-keep-arrdelswap (x ∷ y ∷ xs) (suc i) = ground (arith, length-keep-arrdelswap (y ∷ xs) i)

hold-IsUnique :
    (cbc : Cbcast) (m : ReceivedMessage)
    → already_held cbc.held_msg_buffer m.message.header.clock m.sender_pid ≡ false
    → IsUnique cbc.held_msg_buffer
    → IsUnique (hold cbc m).held_msg_buffer
hold-IsUnique cbc m new u clock pid = elim (Bool-cases (is_copy clock pid m)) [
  | inl e ↦ ground (arith, split, none_held e, one)
  | inr e ↦ ground (arith, split, e, u clock pid)
]
  where
    split :
        length (keep (is_copy clock pid) (cbc.held_msg_buffer ++ (m ∷ [])))
        ≡ length (keep (is_copy clock pid) cbc.held_msg_buffer)
          + length (keep (is_copy clock pid) (m ∷ []))
    split =
        ap length (keep-append (is_copy clock pid) cbc.held_msg_buffer (m ∷ []))
        ∙ length-append (keep (is_copy clock pid) cbc.held_msg_buffer)
            (keep (is_copy clock pid) (m ∷ []))

    one : length (keep (is_copy clock pid) (m ∷ [])) ≤ 1
    one = ground arith

    none_held :
        is_copy clock pid m ≡ true → length (keep (is_copy clock pid) cbc.held_msg_buffer) ≡ 0
    none_held e =
        let (c, s) = &&-split (m.message.header.clock == clock) (m.sender_pid == pid) e in
        keep-none (is_copy clock pid) cbc.held_msg_buffer (
          subst (λ n. exists_in (is_copy n pid) cbc.held_msg_buffer ≡ false) ((==_iff _ _).0 c)
            (subst (λ n. exists_in (is_copy m.message.header.clock n) cbc.held_msg_buffer ≡ false)
              ((==_iff _ _).0 s) new))

abbrev HasUnique : Cbcast → Type 0
HasUnique cbc = IsUnique cbc.held_msg_buffer

Frame-HasUnique : (cbc cbc' : Cbcast) → HasUnique cbc → Frame cbc cbc' → HasUnique cbc'
Frame-HasUnique cbc cbc' u same = subst IsUnique (sym (ap (λ (c : Core). c.held) same)) u

try_deliver_held_msgs-HasUnique :
    (cbc : Cbcast) (pid : ℕ) → HasUnique cbc → Ensures HasUnique (try_deliver_held_msgs cbc pid)
unfolding try_deliver_held_msgs
try_deliver_held_msgs-HasUnique cbc pid u =
    deliver_rounds_inv HasUnique pid
      (λ c i m at may g clock p.
        omega (arith, g clock p, length-keep-arrdelswap (is_copy clock p) c.held_msg_buffer i))
      (suc (length cbc.held_msg_buffer)) cbc u

handle_by-HasUnique :
    (k : Causality) (cbc : Cbcast) (m : ReceivedMessage)
    → HasUnique cbc
    → Ensures HasUnique (handle_by k cbc m.message m m.sender_pid)
handle_by-HasUnique causality_error cbc m u =
    elim (Bool-cases (is_retransmit m.message.header.kind)) [
      | inl r ↦ rw r (
          Ensures-map (λ c same. Frame-HasUnique cbc c u same)
            (ack_received_message-Frame cbc m.message.header.clock m.sender_pid))
      | inr r ↦ rw r exited
    ]
handle_by-HasUnique causality_deliver cbc m u =
    Ensures-bind (ack_received_message-Frame cbc m.message.header.clock m.sender_pid) λ acked same.
      let g = Frame-HasUnique cbc acked u same in
      elim (Bool-cases (is_retransmit m.message.header.kind)) [
        | inl r ↦
            rw r (try_deliver_held_msgs-HasUnique (deliver acked m m.sender_pid) m.sender_pid g)
        | inr r ↦ rw r (returned g)
      ]
handle_by-HasUnique causality_hold cbc m u =
    Ensures-bind (ack_received_message-Frame cbc m.message.header.clock m.sender_pid) λ acked same.
      let g = Frame-HasUnique cbc acked u same in
      let again = already_held acked.held_msg_buffer m.message.header.clock m.sender_pid in
      let kept = if again then acked else hold acked m in
      let h : HasUnique kept = elim (Bool-cases again) [
        | inl r ↦ rw r g
        | inr r ↦ rw r (hold-IsUnique acked m r g)
      ] in
      Ensures-map (λ c same'. Frame-HasUnique kept c h same')
        (request_retransmission-Frame kept m.sender_pid)

-- However often a message comes, `handle_data_msg` keeps at most one copy of each message, by its
-- clock and its sender, in the held buffer.
pub handle_data_msg-IsUnique :
    (cbc cbc' : Cbcast) (msg : Message) (pid : ℕ)
    → IsUnique cbc.held_msg_buffer
    → handle_data_msg cbc msg pid ≡ done cbc'
    → IsUnique cbc'.held_msg_buffer
unfolding handle_data_msg cbc_received_msg_create
handle_data_msg-IsUnique cbc cbc' msg pid u e = Ensures-elim (
    subst (Ensures HasUnique) e
      (handle_by-HasUnique _ cbc (record { message = msg; sender_pid = pid }) u))
