-- ===== src/Server/Connection/Delivery.antt =====
-- core/server/uds_server.py: what a connection's turns come to.
use ctxins.Base.{
  ℕ, ◌≡◌, refl, ap, ◌∙◌, Bool, true, List, [], ◌∷◌, ◌++◌, All, Option, none, flatten, Result,
  Result-cases, ok, raise, Exception, inl, inr,
}
use ctxins.Egress.RingBuffer.{Bytes}
use ctxins.Server.Framer.{FrameDecoder, fresh, feed}
use ctxins.Server.Framer.Chunks.{join-ok, feed_all, feed_all-cons_ok}
use ctxins.Server.Framer.Roundtrip.{stream, Fits, feed_all-stream}
use ctxins.Server.Connection.{
  Read, chunk, is_frame_decode_error, dispatch_frame, dispatch_frames, serve, handle_client,
}

-- Chunks that arrive while the server runs, and then the end of the connection.
unfoldable pub readings_of : List Bytes → List (Bool × Read)
readings_of [] = (true, chunk []) ∷ []
readings_of (c ∷ cs) = (true, chunk c) ∷ readings_of cs

abbrev pub NonEmpty : Bytes → Type 0
NonEmpty c = (b : ℕ) × (bs : Bytes) × (c ≡ b ∷ bs)

nil_frames : {frames : List Bytes} → ◌≡◌ {A = Result (List Bytes)} (ok []) (ok frames) → frames ≡ []
nil_frames h = cc

feed_all-cons_raise :
    (d : FrameDecoder) (c : Bytes) (cs : List Bytes) {x : Exception}
    → (feed d c).0 ≡ raise x
    → (feed_all d (c ∷ cs)).0 ≡ raise x
unfolding feed_all
feed_all-cons_raise d c cs h = rw (h, feed_all)

module _ {ℓ κ} {A : Type ℓ} (Holds : A → Type κ) where
  All-left : (xs ys : List A) → All Holds (xs ++ ys) → All Holds xs
  All-left [] ys h = tt
  All-left (x ∷ xs) ys h = (h.0, All-left xs ys h.1)

  All-right : (xs ys : List A) → All Holds (xs ++ ys) → All Holds ys
  All-right [] ys h = h
  All-right (x ∷ xs) ys h = All-right xs ys h.1

module _ {P S : Type 0} (decode : Bytes → Result P) (callback : P → S → Option Exception × S) where
  -- Decoding a payload gives a value or the error that the server skips a frame for.
  abbrev pub Settles : Bytes → Type 0
  Settles payload = (x : Exception) → decode payload ≡ raise x → is_frame_decode_error x ≡ true

  -- The turns of payloads that come one by one, without frames: the callback takes each that decodes.
  unfoldable pub deliver : List Bytes → S → S
  deliver [] s = s
  deliver (payload ∷ payloads) s =
      deliver payloads (elim (decode payload) [ ok p ↦ (callback p s).1 | raise x ↦ s ])

  dispatch_frame-Settles :
      (frame : Bytes) (s : S)
      → Settles frame
      → dispatch_frame decode callback frame s ≡ (none, deliver (frame ∷ []) s)
  unfolding dispatch_frame deliver
  dispatch_frame-Settles frame s h = elim (Result-cases (decode frame)) [
    | inl (x, r) ↦ rw (r, h x r, dispatch_frame, deliver)
    | inr (p, r) ↦ rw (r, dispatch_frame, deliver)
  ]

  deliver-append : (fs gs : List Bytes) (s : S) → deliver (fs ++ gs) s ≡ deliver gs (deliver fs s)
  unfolding deliver
  deliver-append [] gs s = refl
  deliver-append (f ∷ fs) gs s = deliver-append fs gs _

  dispatch_frames-Settles :
      (frames : List Bytes) (s : S)
      → All Settles frames
      → dispatch_frames decode callback frames s ≡ (none, deliver frames s)
  unfolding dispatch_frames deliver
  dispatch_frames-Settles [] s h = refl
  dispatch_frames-Settles (f ∷ fs) s h =
      rw (dispatch_frame-Settles f s h.0, dispatch_frames)
        (ap (λ (o : Option Exception × S). dispatch_frames decode callback fs o.1)
            (dispatch_frame-Settles f s h.0)
          ∙ dispatch_frames-Settles fs (deliver (f ∷ []) s) h.1)

  -- One chunk's round of the loop.
  serve-chunk :
      (d : FrameDecoder) (c : Bytes) (cs frames : List Bytes) (s : S)
      → NonEmpty c
      → (feed d c).0 ≡ ok frames
      → All Settles frames
      → serve decode callback d (readings_of (c ∷ cs)) s
        ≡ serve decode callback (feed d c).1 (readings_of cs) (deliver frames s)
  unfolding serve readings_of
  serve-chunk d [] cs frames s (b, bs, e) r settled = cc
  serve-chunk d (b ∷ bs) cs frames s _ r settled =
      rw (r, dispatch_frames-Settles frames s settled, serve)
        (ap
          (λ (o : Option Exception × S).
            serve decode callback (feed d (b ∷ bs)).1 (readings_of cs) o.1)
          (dispatch_frames-Settles frames s settled))

  serve-feed_all :
      (d : FrameDecoder) (chunks frames : List Bytes) (s : S)
      → All NonEmpty chunks
      → (feed_all d chunks).0 ≡ ok frames
      → All Settles frames
      → serve decode callback d (readings_of chunks) s ≡ deliver frames s
  unfolding serve readings_of feed_all deliver
  serve-feed_all d [] frames s some_bytes h settled = rw (nil_frames h) refl
  serve-feed_all d (c ∷ cs) frames s some_bytes h settled = elim (Result-cases (feed d c).0) [
    | inl (x, r) ↦ cc (feed_all-cons_raise d c cs r, h)
    | inr (now, r) ↦
        let (later, found, all) =
          join-ok now (feed_all (feed d c).1 cs).0 (rw (feed_all-cons_ok d c cs now r) at h) in
        let both : All Settles (now ++ later) = rw (← all) settled in
        rw (
          serve-chunk d c cs now s some_bytes.0 r (All-left Settles now later both),
          serve-feed_all (feed d c).1 cs later (deliver now s) some_bytes.1 found
              (All-right Settles now later both),
          all,
          deliver-append,
        )
  ]

  -- From the encoder to the callback, for payloads each of which decodes or raises `FrameDecodeError`, and
  -- nothing else: their frames, within the limit, sent as one stream that arrives in chunks of any sizes but
  -- empty ones while the server runs, give the callback just the payloads that decode, in order: the state is as
  -- if they had come one by one.
  pub handle_client-deliver :
      (m : ℕ) (payloads chunks : List Bytes) (s : S)
      → stream payloads ≡ ok (flatten chunks)
      → Fits m payloads
      → All NonEmpty chunks
      → All Settles payloads
      → handle_client decode callback m (readings_of chunks) s ≡ deliver payloads s
  unfolding handle_client
  handle_client-deliver m payloads chunks s sent fits some_bytes settled =
      serve-feed_all (fresh m) chunks payloads s some_bytes
        (ap (λ r. r.0) (feed_all-stream m payloads chunks sent fits)) settled
