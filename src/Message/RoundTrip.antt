-- ===== src/Message/RoundTrip.antt =====
-- From a message to its datagram and back, with src/cbcast/message.c.
use view_sync.Prelude.{
  ℕ, ◌+◌, ◌^◌, ◌≤◌, ◌<◌, ◌≡◌, refl, ap, Option, some, List, [], ◌∷◌, ◌++◌, length, take,
  length-append, length-take_of_le, take_all, subst, sym, ◌∙◌, arith,
}
use view_sync.Prelude.Outcome.{done, result_ok}
use view_sync.Message.{
  Kind, cbc_data, cbc_ack, cbc_retransmit_req, cbc_retransmit, unknown, Header, Message,
}
use view_sync.Message.Wire.{
  header_bytes, read_header, cbc_msg_serialize, cbc_msg_deserialize, header_size, serialize_payload,
  serialize_header_only, serialize_full, deserialize_payload, deserialize_as,
}
use view_sync.Message.Laws.{Shape, IsMessage}
use view_sync.Message.Headers.{
  Known, read_header_of, take_header, length-header, drop_header, deserialize_of, take_inner,
}

-- What a datagram gives back to the receiver, who reads the header and `len` bytes.
abbrev pub RoundTrip : Message → Type 0
RoundTrip m =
    (bytes : List ℕ) × (cbc_msg_serialize m ≡ done (some bytes))
    × (cbc_msg_deserialize (some (take (header_size + m.header.len) bytes)) ≡ done (result_ok m))
    × ((read_header bytes).len ≡ m.header.len)
    × (header_size + m.header.len ≤ length bytes)

header_only_roundtrip :
    (h : Header)
    → Known h.kind
    → h.clock < 2 ^ 16
    → h.len ≡ 0
    → cbc_msg_deserialize (some (take (header_size + h.len) (header_bytes h)))
      ≡ deserialize_as h.kind h (header_bytes h)
unfolding header_bytes
header_only_roundtrip h k c e =
    ap (λ n. cbc_msg_deserialize (some (take (header_size + n) (header_bytes h)))) e
    ∙ deserialize_of h [] k c (omega arith)

payload_roundtrip :
    (h : Header) (bs : List ℕ)
    → Known h.kind
    → h.clock < 2 ^ 16
    → h.len < 2 ^ 16
    → length bs ≡ h.len
    → 0 < h.len
    → (serialize_payload h (some (bs ++ 0 ∷ []))
        ≡ done (some (header_bytes h ++ take (h.len + 1) (bs ++ 0 ∷ []))))
      × (cbc_msg_deserialize
            (some (take (header_size + h.len) (header_bytes h ++ take (h.len + 1) (bs ++ 0 ∷ []))))
          ≡ deserialize_as h.kind h (header_bytes h ++ bs))
      × (deserialize_payload h (header_bytes h ++ bs)
          ≡ done (result_ok (record { header = h; payload = some (bs ++ 0 ∷ []) })))
payload_roundtrip h bs known c l e pos = (
  ground (arith, length-append bs (0 ∷ [])),
  ap (λ t. cbc_msg_deserialize (some t))
        (take_header h h.len _ ∙ ap (λ t. header_bytes h ++ t) inner)
      ∙ deserialize_of h bs known c l,
  ground (arith, length-header h bs, drop_header h bs, all),
)
  where
    inner : take h.len (take (h.len + 1) (bs ++ 0 ∷ [])) ≡ bs
    inner = subst (λ n. take n (take (n + 1) (bs ++ 0 ∷ [])) ≡ bs) e (take_inner bs 0)

    all : take h.len bs ≡ bs
    all = subst (λ n. take n bs ≡ bs) e (take_all bs)

header_only_fits :
    (h : Header)
    → Known h.kind
    → h.clock < 2 ^ 16
    → h.len ≡ 0
    → ((read_header (header_bytes h)).len ≡ h.len) × (header_size + h.len ≤ length (header_bytes h))
unfolding header_bytes
header_only_fits h k c e =
    (ap (λ (g : Header). g.len) (read_header_of h [] k c (omega arith)), omega arith)

payload_fits :
    (h : Header) (bs : List ℕ)
    → Known h.kind
    → h.clock < 2 ^ 16
    → h.len < 2 ^ 16
    → length bs ≡ h.len
    → ((read_header (header_bytes h ++ take (h.len + 1) (bs ++ 0 ∷ []))).len ≡ h.len)
      × (header_size + h.len ≤ length (header_bytes h ++ take (h.len + 1) (bs ++ 0 ∷ [])))
payload_fits h bs k c l e = (
  ap (λ (g : Header). g.len) (read_header_of h _ k c l),
  omega (
    arith,
    length-header h (take (h.len + 1) (bs ++ 0 ∷ [])),
    length-take_of_le (h.len + 1) (bs ++ 0 ∷ []) (omega (arith, length-append bs (0 ∷ []))),
  ),
)

roundtrip_of :
    (k : Kind) (c n : ℕ) (p : Option (List ℕ))
    → c < 2 ^ 16
    → n < 2 ^ 16
    → Shape k p n
    → RoundTrip (record { header = record { kind = k; clock = c; len = n }; payload = p })
unfolding cbc_msg_serialize serialize_header_only serialize_full
roundtrip_of cbc_ack c n p fits_c fits_n (e, z) =
    let h : Header = record { kind = cbc_ack; clock = c; len = n } in
    subst (λ q. RoundTrip (record { header = h; payload = q })) (sym e)
      (
        header_bytes h,
        refl,
        header_only_roundtrip h tt fits_c z,
        (header_only_fits h tt fits_c z).0,
        (header_only_fits h tt fits_c z).1,
      )
roundtrip_of cbc_retransmit_req c n p fits_c fits_n (e, z) =
    let h : Header = record { kind = cbc_retransmit_req; clock = c; len = n } in
    subst (λ q. RoundTrip (record { header = h; payload = q })) (sym e)
      (
        header_bytes h,
        refl,
        header_only_roundtrip h tt fits_c z,
        (header_only_fits h tt fits_c z).0,
        (header_only_fits h tt fits_c z).1,
      )
roundtrip_of cbc_data c n p fits_c fits_n (bs, e, l, pos) =
    let h : Header = record { kind = cbc_data; clock = c; len = n } in
    let r = payload_roundtrip h bs tt fits_c fits_n l pos in
    subst (λ q. RoundTrip (record { header = h; payload = q })) (sym e)
      (
        _,
        r.0,
        r.1 ∙ r.2,
        (payload_fits h bs tt fits_c fits_n l).0,
        (payload_fits h bs tt fits_c fits_n l).1,
      )
roundtrip_of cbc_retransmit c n p fits_c fits_n (bs, e, l, pos) =
    let h : Header = record { kind = cbc_retransmit; clock = c; len = n } in
    let r = payload_roundtrip h bs tt fits_c fits_n l pos in
    subst (λ q. RoundTrip (record { header = h; payload = q })) (sym e)
      (
        _,
        r.0,
        r.1 ∙ r.2,
        (payload_fits h bs tt fits_c fits_n l).0,
        (payload_fits h bs tt fits_c fits_n l).1,
      )
roundtrip_of (unknown k) c n p fits_c fits_n s = absurd s

-- A well-formed message is serialised without a fault, and deserialising the header and `len`
-- bytes of the datagram, which it is long enough for, gives the same message back.
pub deserialize-serialize : (m : Message) → IsMessage m → RoundTrip m
deserialize-serialize m w =
    roundtrip_of m.header.kind m.header.clock m.header.len m.payload w.clock_fits w.len_fits w.shape
