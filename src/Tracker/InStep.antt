-- ===== src/Tracker/InStep.antt =====
-- interceptor/correlation/tracker.py: the keys of the tracker's two dicts.
use ctxins.Base.{
  ℕ, ◌≡◌, refl, Bool, true, false, List, [], ◌∷◌, Option, none, some, String, arith, if◌then◌else◌,
  string_eq,
}
use ctxins.Base.Dict.{Dict, get, get-insert, get-remove}
use ctxins.Egress.RingBuffer.{Bytes}
use ctxins.Tracker.{
  Accumulator, ErrorMessage, Turn, ActiveTurnTracker, set_item, remove_turn, update, update_found,
  abort_turn, reap_loop, reap_expired, is_expired, with_default, register_turn, del_item,
  update_request_headers, update_request_payload, update_response_headers, update_response_payload,
  update_status_code, record_chunk, clear, with_chunk,
}

-- A value is there, or not.
abbrev pub is_some {ℓ} : {A : Type ℓ} → Option A → Bool
is_some none = false
is_some (some a) = true

module _ (Any : Type 0) (A : Accumulator) where
  -- Each turn in flight has a time, and no other key has one.
  abbrev pub InStep : ActiveTurnTracker Any A → Type 0
  InStep t = (k : String) → is_some (get k t.turns) ≡ is_some (get k t.last_active)

  set_item-InStep :
      (t : ActiveTurnTracker Any A) (cid : String) (turn : Turn Any A) (now : ℕ)
      → InStep t
      → InStep (set_item Any A t cid turn now)
  unfolding set_item
  set_item-InStep t cid turn now h k =
      rw (get-insert cid k turn t.turns, get-insert cid k now t.last_active) (ground (arith, h k))

  remove_turn-InStep :
      (t : ActiveTurnTracker Any A) (cid : String) → InStep t → InStep (remove_turn Any A t cid).0
  unfolding remove_turn
  remove_turn-InStep t cid h k =
      rw (get-remove cid k t.turns, get-remove cid k t.last_active) (ground (arith, h k))

  update-InStep :
      (t : ActiveTurnTracker Any A) (cid : String) (now : ℕ) (f : Turn Any A → Turn Any A)
      → InStep t
      → InStep (update Any A t cid now f)
  unfolding update
  update-InStep t cid now f h = go (get cid t.turns)
    where
      go : (o : Option (Turn Any A)) → InStep (update_found Any A t cid now f o)
      go none = h
      go (some turn) = set_item-InStep t cid (f turn) now h

  abort_turn-InStep :
      (t : ActiveTurnTracker Any A) (cid reason : String) (error_message : Option ErrorMessage)
      (status : Option ℕ) (now : ℕ)
      → InStep t
      → InStep (abort_turn Any A t cid reason error_message status now).0
  unfolding abort_turn
  abort_turn-InStep t cid reason error_message status now h = remove_turn-InStep t cid h

  reap_loop-InStep :
      (ttl now : ℕ) (items : Dict String (Turn Any A)) (t : ActiveTurnTracker Any A)
      → InStep t
      → InStep (reap_loop Any A ttl now items t).0
  unfolding reap_loop
  reap_loop-InStep ttl now [] t h = h
  reap_loop-InStep ttl now ((cid, turn) ∷ items) t h =
      let gone =
        reap_loop-InStep ttl now items (remove_turn Any A t cid).0 (remove_turn-InStep t cid h) in
      let kept = reap_loop-InStep ttl now items t h in
      go (is_expired Any A t.last_active ttl now cid turn) gone kept
    where
      go :
          (b : Bool)
          → InStep (reap_loop Any A ttl now items (remove_turn Any A t cid).0).0
          → InStep (reap_loop Any A ttl now items t).0
          → InStep
              (if b
                then (
                  (reap_loop Any A ttl now items (remove_turn Any A t cid).0).0,
                  turn ∷ (reap_loop Any A ttl now items (remove_turn Any A t cid).0).1,
                )
                else reap_loop Any A ttl now items t).0
      go true gone kept = gone
      go false gone kept = kept

  -- The calls that change the tracker, at their times.
  pub data Call : Type 0 where
    registered : Turn Any A → ℕ → Call
    set : String → Turn Any A → ℕ → Call
    removed deleted : String → Call
    request_headers response_headers : String → Dict String String → ℕ → Call
    request_payload response_payload : String → Any → ℕ → Call
    status_code : String → ℕ → ℕ → Call
    chunk : String → Bytes → ℕ → ℕ → Call
    aborted : String → String → Option ErrorMessage → Option ℕ → ℕ → Call
    reaped : Option ℕ → ℕ → Call
    cleared : Call

  unfoldable pub step : ActiveTurnTracker Any A → Call → ActiveTurnTracker Any A
  step t (registered turn now) = register_turn Any A t turn now
  step t (set cid turn now) = set_item Any A t cid turn now
  step t (removed cid) = (remove_turn Any A t cid).0
  step t (deleted cid) = (del_item Any A t cid).1
  step t (request_headers cid headers now) = update_request_headers Any A t cid headers now
  step t (response_headers cid headers now) = update_response_headers Any A t cid headers now
  step t (request_payload cid payload now) = update_request_payload Any A t cid payload now
  step t (response_payload cid payload now) = update_response_payload Any A t cid payload now
  step t (status_code cid code now) = update_status_code Any A t cid code now
  step t (chunk cid bytes mono now) = (record_chunk Any A t cid bytes mono now).0
  step t (aborted cid reason error_message status now) =
      (abort_turn Any A t cid reason error_message status now).0
  step t (reaped ttl now) = (reap_expired Any A t ttl now).0
  step t cleared = clear Any A t

  unfoldable pub run : ActiveTurnTracker Any A → List Call → ActiveTurnTracker Any A
  run t [] = t
  run t (c ∷ calls) = run (step t c) calls

  step-InStep : (t : ActiveTurnTracker Any A) (c : Call) → InStep t → InStep (step t c)
  unfolding step register_turn del_item update_request_headers update_response_headers
      update_request_payload update_response_payload update_status_code record_chunk reap_expired
      clear get
  step-InStep t (registered turn now) h = set_item-InStep t turn.correlation_id turn now h
  step-InStep t (set cid turn now) h = set_item-InStep t cid turn now h
  step-InStep t (removed cid) h = remove_turn-InStep t cid h
  step-InStep t (deleted cid) h = remove_turn-InStep t cid h
  step-InStep t (request_headers cid headers now) h = update-InStep t cid now _ h
  step-InStep t (response_headers cid headers now) h = update-InStep t cid now _ h
  step-InStep t (request_payload cid payload now) h = update-InStep t cid now _ h
  step-InStep t (response_payload cid payload now) h = update-InStep t cid now _ h
  step-InStep t (status_code cid code now) h = update-InStep t cid now _ h
  step-InStep t (chunk cid bytes mono now) h =
      update-InStep t cid now (with_chunk Any A bytes mono) h
  step-InStep t (aborted cid reason error_message status now) h =
      abort_turn-InStep t cid reason error_message status now h
  step-InStep t (reaped ttl now) h =
      reap_loop-InStep (with_default ttl t.default_ttl) now t.turns t h
  step-InStep t cleared h = λ k. refl

  -- Whatever calls are made of the tracker, in whatever order: if each turn in flight had a time of its last
  -- activity before, and no other key had one, then so it is after them.
  pub run-InStep :
      (t : ActiveTurnTracker Any A) (calls : List Call) → InStep t → InStep (run t calls)
  unfolding run
  run-InStep t [] h = h
  run-InStep t (c ∷ calls) h = run-InStep (step t c) calls (step-InStep t c h)
