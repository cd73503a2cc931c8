-- ===== src/Egress/Framing.antt =====
-- interceptor/egress/framing.py: frames are a 4-byte big-endian length, then the payload.
-- The payload is a `bytes` here, so that the code's `isinstance` test always passes.
use ctxins.Base.{
  ℕ, ◌+◌, ◌*◌, ◌/◌, ◌%◌, ◌^◌, ◌≤◌, ◌<◌, ◌-◌, ◌≡◌, Exception, refl, ap, not, [], ◌∷◌, ◌++◌, arith,
  length, take, drop, ltb, ◌==◌, if◌then◌else◌, Result, ok, raise, value_error,
}
use ctxins.Egress.RingBuffer.{Bytes}

abbrev pub header_size : ℕ
header_size = 4

-- 0xFFFFFFFF
abbrev pub max_payload_size : ℕ
max_payload_size = 2 ^ 32 - 1

-- `struct.pack(">I", n)`, for `n` below 2 ^ 32
unfoldable pub pack_be32 : ℕ → Bytes
pack_be32 n = (n / 2 ^ 24 % 256) ∷ (n / 2 ^ 16 % 256) ∷ (n / 2 ^ 8 % 256) ∷ (n % 256) ∷ []

-- `struct.unpack_from(">I", buf, 0)`. Both callers have checked that four bytes are there.
unfoldable pub unpack_be32 : Bytes → ℕ
unpack_be32 (a ∷ b ∷ c ∷ d ∷ _) = ((a * 256 + b) * 256 + c) * 256 + d
unpack_be32 _ = 0

unfoldable pub encode_frame : Bytes → Result Bytes
unfolding pack_be32
encode_frame payload =
    let size = length payload in
    if ltb max_payload_size size then raise value_error else ok (pack_be32 size ++ payload)

unfoldable pub decode_frame_header : Bytes → Result ℕ
unfolding unpack_be32
decode_frame_header header =
    if not (length header == header_size) then raise value_error else ok (unpack_be32 header)

pub unpack-pack :
    (n : ℕ) (rest : Bytes) → n ≤ max_payload_size → unpack_be32 (pack_be32 n ++ rest) ≡ n
unfolding pack_be32 unpack_be32
unpack-pack n rest h = omega arith

pub length-pack : (n : ℕ) → length (pack_be32 n) ≡ 4
unfolding pack_be32
length-pack n = refl

pub encode_frame-ok :
    (payload frame : Bytes)
    → encode_frame payload ≡ ok frame
    → (frame ≡ pack_be32 (length payload) ++ payload) × (length payload ≤ max_payload_size)
unfolding encode_frame
encode_frame-ok payload frame h = ground arith

header-decodes :
    (n : ℕ) (payload : Bytes)
    → n ≤ max_payload_size
    → (decode_frame_header (take header_size (pack_be32 n ++ payload)) ≡ ok n)
      × (drop header_size (pack_be32 n ++ payload) ≡ payload)
unfolding decode_frame_header pack_be32
header-decodes n payload h = (ap ok (omega arith), refl)

-- A frame that could be built starts with a header of four bytes that decodes to the length of its
-- payload, and the payload follows it unchanged.
pub decode-encode :
    (payload frame : Bytes)
    → encode_frame payload ≡ ok frame
    → (decode_frame_header (take header_size frame) ≡ ok (length payload))
      × (drop header_size frame ≡ payload)
decode-encode payload frame h =
    let (built, small) = encode_frame-ok payload frame h in
    rw built (header-decodes (length payload) payload small)

-- The only payloads without a frame are those whose length does not fit in 32 bits.
pub encode_frame-raise :
    (payload : Bytes) {x : Exception}
    → encode_frame payload ≡ raise x
    → max_payload_size < length payload
unfolding encode_frame
encode_frame-raise payload h = ground arith
