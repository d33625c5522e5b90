-- ===== src/Delivery.antt =====
-- The part of a member's state that decides what is delivered, and the order that it keeps.
pub mod Frame
pub mod SendFrame
pub mod Order
pub mod Handlers
pub mod Run
pub mod Held
use view_sync.Prelude.{ℕ, List, ◌≡◌, refl}
use view_sync.Prelude.Outcome.{Outcome, Ensures}
use view_sync.Message.{ReceivedMessage}
use view_sync.State.{Cbcast}

pub record Core : Type 0 where
  pub pid : ℕ
  pub vclock : List ℕ
  pub held : List ReceivedMessage
  pub queue : List ReceivedMessage

abbrev pub core : Cbcast → Core
core cbc = record {
  pid = cbc.pid;
  vclock = cbc.vclock;
  held = cbc.held_msg_buffer;
  queue = cbc.delivery_queue;
}

-- An operation that neither delivers nor holds.
abbrev pub Frame : Cbcast → Cbcast → Type 0
Frame cbc cbc' = core cbc' ≡ core cbc
