-- ===== src/Tracker/Aborting.antt =====
-- interceptor/correlation/tracker.py: `abort_turn`.
use ctxins.Base.{
  ℕ, ◌≡◌, ◌≢◌, refl, ◌∙◌, ap, Option, none, some, String, ◌=?◌, string_eq, beq_refl, Bool-cases,
  inl, inr,
}
use ctxins.Base.Dict.{get-remove}
use ctxins.Tracker.{
  Accumulator, ErrorMessage, Turn, Envelope, ActiveTurnTracker, remove_turn, get_turn, abort_turn,
  create_turn_error_envelope, envelope_for, message_for, or_else,
}

module _ (Any : Type 0) (A : Accumulator) where
  -- What an abort gives for a turn that is in flight.
  pub record Aborted (t : ActiveTurnTracker Any A) (turn : Turn Any A) (cid reason : String)
      (error_message : Option ErrorMessage) (status : Option ℕ)
      (r : ActiveTurnTracker Any A × Option (Envelope Any A)) : Type 0 where
    pub envelope : Envelope Any A
    pub sent : r.1 ≡ some envelope
    pub its_turn : envelope.correlation_id ≡ turn.correlation_id
    pub its_session : envelope.session_id ≡ turn.session_id
    pub its_message : envelope.payload.error_message ≡ message_for error_message reason
    pub its_http_status : envelope.payload.http_status ≡ or_else status turn.response_status_code
    pub gone : get_turn Any A r.0 cid ≡ none
    pub others : (j : String) → j ≢ cid → get_turn Any A r.0 j ≡ get_turn Any A t j

  abort_turn-gone :
      (t : ActiveTurnTracker Any A) (cid reason : String) (error_message : Option ErrorMessage)
      (status : Option ℕ) (now : ℕ)
      → get_turn Any A (abort_turn Any A t cid reason error_message status now).0 cid ≡ none
  unfolding abort_turn remove_turn get_turn
  abort_turn-gone t cid reason error_message status now =
      get-remove cid cid t.turns ∙ (rw (beq_refl cid) refl)

  abort_turn-others :
      (t : ActiveTurnTracker Any A) (cid reason : String) (error_message : Option ErrorMessage)
      (status : Option ℕ) (now : ℕ) (j : String)
      → j ≢ cid
      → get_turn Any A (abort_turn Any A t cid reason error_message status now).0 j
        ≡ get_turn Any A t j
  unfolding abort_turn remove_turn get_turn
  abort_turn-others t cid reason error_message status now j other =
      get-remove cid j t.turns ∙ elim (Bool-cases (cid =? j)) [
        | inl same ↦ absurd (other (cc ((string_eq.beq_iff cid j).0 same)))
        | inr apart ↦ rw apart refl
      ]

  pub abort_turn-Aborted :
      (t : ActiveTurnTracker Any A) (turn : Turn Any A) (cid reason : String)
      (error_message : Option ErrorMessage) (status : Option ℕ) (now : ℕ)
      → get_turn Any A t cid ≡ some turn
      → Aborted t turn cid reason error_message status
          (abort_turn Any A t cid reason error_message status now)
  unfolding abort_turn create_turn_error_envelope remove_turn get_turn
  abort_turn-Aborted t turn cid reason error_message status now h = record {
    envelope = create_turn_error_envelope Any A turn reason error_message status now;
    sent = rw h refl;
    its_turn = refl;
    its_session = refl;
    its_message = refl;
    its_http_status = refl;
    gone = abort_turn-gone t cid reason error_message status now;
    others = abort_turn-others t cid reason error_message status now;
  }

  -- An abort is reported once: a second abort of the same turn, for any reason, gives no envelope.
  pub abort_turn_once :
      (t : ActiveTurnTracker Any A) (cid reason reason' : String)
      (error_message error_message' : Option ErrorMessage) (status status' : Option ℕ)
      (now now' : ℕ)
      → let once = (abort_turn Any A t cid reason error_message status now).0 in
        (abort_turn Any A once cid reason' error_message' status' now').1 ≡ none
  unfolding abort_turn remove_turn get_turn
  abort_turn_once t cid reason reason' error_message error_message' status status' now now' =
      ap (λ found. envelope_for Any A found reason' error_message' status' now')
        (abort_turn-gone t cid reason error_message status now)
