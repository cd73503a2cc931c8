-- ===== src/Wire/Envelope/Reading.antt =====
-- schema/wire.py and core/server/framer.py: what an envelope is read back as, and when reading raises.
use ctxins.Wire.Envelope.{is_json_decode_error, to_double}
use ctxins.Base.{
  subst, ◌^◌, ℕ, ◌≤◌, ◌≡◌, refl, Bool, true, false, ltb, Result-cases, Option-cases, ◌=?◌,
  string_eq, Bool-cases, List, [], ◌∷◌, arith, Option, some, String, Result, ok, raise, ◌>>=◌,
  Exception, frame_decode_error, overflow_error, inl, inr, ◌⊎◌,
}
use ctxins.Egress.RingBuffer.{Bytes}
use ctxins.Json.{Json, null, bool, number, str, arr, obj, Props, lookup}
use ctxins.Wire.{
  WireEventType, request_initiated, turn_completed, turn_error, system_telemetry,
  session_disconnected, session_exported,
}
use ctxins.Wire.Envelope.{
  Envelope, value, event_types, member, to_event_type, required, float_limit, to_props, is_caught,
  to_float, from_dict, decode_value, decode_payload,
}

member-value : (t : WireEventType) → member (value t) event_types ≡ ok t
unfolding member value event_types
member-value request_initiated = refl
member-value turn_completed = refl
member-value turn_error = refl
member-value system_telemetry = refl
member-value session_disconnected = refl
member-value session_exported = refl

-- A sequence of two calls that raises: the first raises, or it gives a value and the second raises.
data Raises {A B : Type 0} (first : Result A) (k : A → Result B) (x : Exception) : Type 0 where
  at_once : first ≡ raise x → Raises first k x
  later : (a : A) → first ≡ ok a → k a ≡ raise x → Raises first k x

>>=-raise :
    {A B : Type 0} (first : Result A) (k : A → Result B) {x : Exception}
    → (first >>= k) ≡ raise x
    → Raises first k x
>>=-raise (ok a) k h = later a refl h
>>=-raise (raise y) k h = at_once cc

clash : {G : Type 0} {b : Bool} → b ≡ true → b ≡ false → G
clash t f = cc

required-raise :
    (k : String) (ps : Props) {x : Exception} → required k ps ≡ raise x → is_caught x ≡ true
unfolding required is_caught
required-raise k ps h = ground arith

member-raise :
    (s : String) (ts : List WireEventType) {x : Exception}
    → member s ts ≡ raise x
    → is_caught x ≡ true
unfolding member is_caught
member-raise s [] h = ground arith
member-raise s (t ∷ ts) h = elim (Bool-cases (value t =? s)) [
  | inl same ↦ ground arith
  | inr other ↦ member-raise s ts (rw other at h)
]

to_event_type-raise : (v : Json) {x : Exception} → to_event_type v ≡ raise x → is_caught x ≡ true
unfolding to_event_type is_caught
to_event_type-raise (str s) h = member-raise s event_types h
to_event_type-raise null h = ground arith
to_event_type-raise (bool b) h = ground arith
to_event_type-raise (number n) h = ground arith
to_event_type-raise (arr vs) h = ground arith
to_event_type-raise (obj ps) h = ground arith

required-ok : (k : String) (ps : Props) {v : Json} → required k ps ≡ ok v → lookup k ps ≡ some v
unfolding required
required-ok k ps h = ground arith

module _ (float_of : String → Option ℕ) where
  -- An envelope that is written as a dict and read back is itself, if its timestamp is at most 2^53: beyond
  -- that not every natural number is a double.
  pub from_dict-to_props :
      (e : Envelope) → e.timestamp ≤ 2 ^ 53 → from_dict float_of (to_props e) ≡ ok e
  unfolding from_dict to_props required lookup to_event_type to_float to_double float_limit
  from_dict-to_props e h = ground (arith, member-value e.event_type)

  to_float-raise :
      (v : Json) {x : Exception}
      → to_float float_of v ≡ raise x
      → is_caught x ≡ false
      → (x ≡ overflow_error) × (n : ℕ) × (v ≡ number n) × (float_limit ≤ n)
  unfolding to_float is_caught
  to_float-raise null h c = ground arith
  to_float-raise (bool b) h c = ground arith
  to_float-raise (number n) h c = elim (Bool-cases (ltb n float_limit)) [
    | inl small ↦ ground arith
    | inr large ↦ (ground arith, n, refl, ground arith)
  ]
  to_float-raise (str s) h c = ground arith
  to_float-raise (arr vs) h c = ground arith
  to_float-raise (obj ps) h c = ground arith

  -- The timestamp that `float` does not take.
  abbrev pub IsTooLate : Props → Type 0
  IsTooLate ps = (n : ℕ) × (lookup "timestamp" ps ≡ some (number n)) × (float_limit ≤ n)

  at_timestamp-raise :
      (ps : Props) (made : ℕ → Envelope) {x : Exception}
      → (required "timestamp" ps >>= λ at. (to_float float_of at >>= λ t. ok (made t))) ≡ raise x
      → is_caught x ≡ false
      → (x ≡ overflow_error) × IsTooLate ps
  at_timestamp-raise ps made h c = elim (>>=-raise (required "timestamp" ps) _ h) [
    | at_once r ↦ clash (required-raise "timestamp" ps r) c
    | later at found h ↦ elim (>>=-raise (to_float float_of at) _ h) [
      | at_once r ↦
          let (same, n, number_n, large) = to_float-raise at r c in
          (same, (n, cc (required-ok "timestamp" ps found, number_n), large))
      | later t _ h ↦ cc
    ]
  ]

  from_dict-raise :
      (ps : Props) {x : Exception}
      → from_dict float_of ps ≡ raise x
      → is_caught x ≡ false
      → (x ≡ overflow_error) × IsTooLate ps
  unfolding from_dict
  from_dict-raise ps h c = elim (>>=-raise (required "event_type" ps) _ h) [
    | at_once r ↦ clash (required-raise "event_type" ps r) c
    | later kind _ h ↦ elim (>>=-raise (to_event_type kind) _ h) [
      | at_once r ↦ clash (to_event_type-raise kind r) c
      | later _ _ h ↦ elim (>>=-raise (required "correlation_id" ps) _ h) [
        | at_once r ↦ clash (required-raise "correlation_id" ps r) c
        | later _ _ h ↦ elim (>>=-raise (required "session_id" ps) _ h) [
          | at_once r ↦ clash (required-raise "session_id" ps r) c
          | later _ _ h ↦ at_timestamp-raise ps _ h c
        ]
      ]
    ]
  ]

  module _ (decode_utf8 : Bytes → Option String) (loads : String → Result Json) where
    -- A frame that is an object with a timestamp that `float` does not take.
    abbrev pub IsTooLateFrame : Bytes → Type 0
    IsTooLateFrame payload =
        (decoded_text : String) × (ps : Props) × (decode_utf8 payload ≡ some decoded_text)
        × (loads decoded_text ≡ ok (obj ps))
        × IsTooLate ps

    decode_value-raise :
        (v : Json) {x : Exception}
        → decode_value float_of v ≡ raise x
        → (x ≡ overflow_error) × (ps : Props) × (v ≡ obj ps) × IsTooLate ps
    unfolding decode_value
    decode_value-raise null h = cc
    decode_value-raise (bool b) h = cc
    decode_value-raise (number n) h = cc
    decode_value-raise (str s) h = cc
    decode_value-raise (arr vs) h = cc
    decode_value-raise (obj ps) h = elim (Result-cases (from_dict float_of ps)) [
      | inl (y, r) ↦ elim (Bool-cases (is_caught y)) [
        | inl caught ↦ ground arith
        | inr missed ↦
            let (same, late) = from_dict-raise ps r missed in (ground arith, ps, refl, late)
      ]
      | inr (e, r) ↦ ground arith
    ]

    -- What `json.loads` of a frame's text raises beside `JSONDecodeError`.
    abbrev pub IsUnreadFrame : Bytes → Exception → Type 0
    IsUnreadFrame payload x =
        (decoded_text : String) × (decode_utf8 payload ≡ some decoded_text)
        × (loads decoded_text ≡ raise x)
        × (is_json_decode_error x ≡ false)

    -- What decoding raises is the error that the server skips a frame for, or an overflow for an object with a
    -- timestamp beyond the range of a double, or what `json.loads` raised for the frame's text beside
    -- `JSONDecodeError`.
    pub decode_payload-raise :
        (payload : Bytes) {x : Exception}
        → decode_payload float_of decode_utf8 loads payload ≡ raise x
        → (x ≡ frame_decode_error)
          ⊎ (((x ≡ overflow_error) × IsTooLateFrame payload) ⊎ IsUnreadFrame payload x)
    unfolding decode_payload
    decode_payload-raise payload {x} h = elim (Option-cases (decode_utf8 payload)) [
      | inl no_text ↦ inl (ground arith)
      | inr (decoded_text, t) ↦ elim (Result-cases (loads decoded_text)) [
        | inl (y, r) ↦ elim (Bool-cases (is_json_decode_error y)) [
          | inl no_json ↦ inl (ground arith)
          | inr other ↦
              let same : y ≡ x = ground arith in
              inr
                (inr (decoded_text, t, cc, subst (λ z. is_json_decode_error z ≡ false) same other))
        ]
        | inr (v, j) ↦
            let (same, ps, is_obj, late) = decode_value-raise v (ground arith) in
            inr (inl (same, (decoded_text, ps, t, cc, late)))
      ]
    ]
