-- ===== src/Message/Wire.antt =====
-- The datagrams: `cbc_msg_serialize` and `cbc_msg_deserialize` of src/cbcast/message.c.
-- A packed header is copied as it lies in memory, which is little-endian here: four bytes of
-- `kind`, two of `clock`, two of `len`.
use view_sync.Prelude.{
  ℕ, ◌+◌, ◌*◌, ◌/◌, ◌%◌, ◌^◌, Option, none, some, List, [], ◌∷◌, ◌++◌, length, take, drop, get_or,
  ltb, ◌==◌, if◌then◌else◌,
}
use view_sync.Prelude.Outcome.{
  Outcome, done, exit, fault, Result, result_ok, result_err, null_bytes, invalid_length,
}
use view_sync.Message.{
  Kind, cbc_data, cbc_ack, cbc_retransmit_req, cbc_retransmit, unknown, Header, Message,
}

-- `sizeof(cbcast_msg_hdr_t)`, packed.
abbrev pub header_size : ℕ
header_size = 8

-- The enumerators' values: CBC_DATA is 1, the others follow.
abbrev pub kind_code : Kind → ℕ
kind_code cbc_data = 1
kind_code cbc_ack = 2
kind_code cbc_retransmit_req = 3
kind_code cbc_retransmit = 4
kind_code (unknown c) = c

abbrev pub kind_of : ℕ → Kind
kind_of c =
    if c == 1
    then cbc_data
    else if c == 2
    then cbc_ack
    else if c == 3
    then cbc_retransmit_req
    else if c == 4
    then cbc_retransmit
    else unknown c

unfoldable pub header_bytes : Header → List ℕ
header_bytes h =
    let k = kind_code h.kind in
    k % 256
    ∷ k / 256 % 256
    ∷ k / 65536 % 256
    ∷ k / 16777216 % 256
    ∷ h.clock % 256
    ∷ h.clock / 256 % 256
    ∷ h.len % 256
    ∷ h.len / 256 % 256
    ∷ []

abbrev pub u16_at : List ℕ → ℕ → ℕ
u16_at bytes i = (get_or bytes i 0 + 256 * get_or bytes (i + 1) 0) % 2 ^ 16

unfoldable pub read_header : List ℕ → Header
read_header bytes = record {
  kind = kind_of ((u16_at bytes 0 + 65536 * u16_at bytes 2) % 2 ^ 32);
  clock = u16_at bytes 4;
  len = u16_at bytes 6;
}

unfoldable pub serialize_header_only : Message → Outcome (Option (List ℕ))
unfolding header_bytes
serialize_header_only m = done (some (header_bytes m.header))

-- The terminator of the payload is sent too.
abbrev pub serialize_payload : Header → Option (List ℕ) → Outcome (Option (List ℕ))
serialize_payload h none = done none
serialize_payload h (some payload) =
    if h.len == 0
    then done none
    else if ltb (length payload) (h.len + 1)
    then fault
    else done (some (header_bytes h ++ take (h.len + 1) payload))

unfoldable pub serialize_full : Message → Outcome (Option (List ℕ))
unfolding header_bytes
serialize_full m = serialize_payload m.header m.payload

abbrev pub serialize_as : Kind → Message → Outcome (Option (List ℕ))
serialize_as cbc_ack m = serialize_header_only m
serialize_as cbc_retransmit_req m = serialize_header_only m
serialize_as cbc_data m = serialize_full m
serialize_as cbc_retransmit m = serialize_full m
serialize_as (unknown c) m = exit

-- `none` is the NULL that is returned with an error printed; the size is the list's length.
unfoldable pub cbc_msg_serialize : Message → Outcome (Option (List ℕ))
unfolding serialize_header_only serialize_full
cbc_msg_serialize m = serialize_as m.header.kind m

-- After the header has been copied: a kind with no payload is complete.
abbrev pub deserialize_payload : Header → List ℕ → Outcome (Result Message)
deserialize_payload h bytes =
    if h.len == 0
    then done (result_err invalid_length)
    else if ltb (length bytes) (header_size + h.len)
    then fault
    else done (
        result_ok
          (record { header = h; payload = some (take h.len (drop header_size bytes) ++ 0 ∷ []) }))

abbrev pub deserialize_as : Kind → Header → List ℕ → Outcome (Result Message)
deserialize_as cbc_ack h bytes = done (result_ok (record { header = h; payload = none }))
deserialize_as cbc_retransmit_req h bytes = done (result_ok (record { header = h; payload = none }))
deserialize_as cbc_data h bytes = deserialize_payload h bytes
deserialize_as cbc_retransmit h bytes = deserialize_payload h bytes
deserialize_as (unknown c) h bytes = deserialize_payload h bytes

unfoldable pub cbc_msg_deserialize : Option (List ℕ) → Outcome (Result Message)
unfolding read_header
cbc_msg_deserialize none = done (result_err null_bytes)
cbc_msg_deserialize (some bytes) =
    if ltb (length bytes) header_size
    then fault
    else deserialize_as (read_header bytes).kind (read_header bytes) bytes
