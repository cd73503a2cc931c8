-- ===== src/Egress/Client/Sending.antt =====
-- interceptor/egress/uds_client.py: what `_send_frame` has written when it ends.
use ctxins.Base.{
  ℕ, zero, ◌+◌, ◌-◌, ◌≤◌, ◌≡◌, refl, sym, ap, subst, Bool, true, false, not, ◌&&◌, ◌==◌, ◌↔◌, ◌≢◌,
  take-append-drop, append_assoc, length-append, length-take, length-drop, suc, if◌then◌else◌, List,
  [], ◌∷◌, ◌++◌, arith, length, take, drop, min, drop-drop, leb, Bool-cases, inl, inr,
}
use ctxins.Egress.RingBuffer.{Bytes}
use ctxins.Egress.Client.{
  SendAnswer, stopping, sent, blocked, broken, SendOutcome, finished, halted, failed, pending,
  send_from, send_frame,
}

-- `r.1` was written of the bytes that remained: a prefix of them, and all of them exactly if the
-- sending finished.
pub record Wrote (remaining : Bytes) (r : SendOutcome × Bytes) : Type 0 where
  pub prefix : r.1 ++ drop (length r.1) remaining ≡ remaining
  pub complete : (r.0 ≡ finished) ↔ (r.1 ≡ remaining)

Wrote-if :
    (remaining : Bytes) (b : Bool) (r s : SendOutcome × Bytes)
    → (b ≡ true → Wrote remaining r)
    → (b ≡ false → Wrote remaining s)
    → Wrote remaining (if b then r else s)
Wrote-if remaining true r s h k = h refl
Wrote-if remaining false r s h k = k refl

nil_of_length : (xs : Bytes) → length xs ≡ 0 → xs ≡ []
nil_of_length [] h = refl
nil_of_length (x ∷ xs) h = absurd (omega arith)

prefix-take :
    (m : ℕ) (remaining w : Bytes)
    → m ≤ length remaining
    → w ++ drop (length w) (drop m remaining) ≡ drop m remaining
    → (take m remaining ++ w) ++ drop (length (take m remaining ++ w)) remaining ≡ remaining
prefix-take m remaining w h e =
    let cut_at : length (take m remaining ++ w) ≡ m + length w =
      omega (arith, length-append (take m remaining) w, length-take m remaining) in
    rw (cut_at, append_assoc, ← drop-drop (length w) m remaining, e) (take-append-drop m remaining)

whole-take :
    (m : ℕ) (remaining w : Bytes)
    → m ≤ length remaining
    → take m remaining ++ w ≡ remaining
    → w ≡ drop m remaining
whole-take zero remaining w h e = e
whole-take (suc m) [] w h e = absurd (omega arith)
whole-take (suc m) (x ∷ remaining) w h e = whole-take m remaining w (omega arith) (cc e)

Wrote-take :
    (m : ℕ) (remaining : Bytes) (r : SendOutcome × Bytes)
    → m ≤ length remaining
    → Wrote (drop m remaining) r
    → Wrote remaining (r.0, take m remaining ++ r.1)
Wrote-take m remaining r h w = record {
  prefix = prefix-take m remaining r.1 h w.prefix;
  complete = (
    λ e. rw (w.complete.0 e) (take-append-drop m remaining),
    λ e. w.complete.1 (whole-take m remaining r.1 h e),
  );
}

Wrote-done :
    (frame : Bytes) (n : ℕ) → leb (length frame) n ≡ true → Wrote (drop n frame) (finished, [])
Wrote-done frame n h =
    let none_left : drop n frame ≡ [] =
      nil_of_length (drop n frame) (ground (arith, length-drop n frame)) in
    rw none_left (record { prefix = refl; complete = (λ _. refl, λ _. refl) })

Wrote-none :
    (frame : Bytes) (n : ℕ) (o : SendOutcome)
    → leb (length frame) n ≡ false
    → o ≢ finished
    → Wrote (drop n frame) (o, [])
Wrote-none frame n o h k = record {
  prefix = refl;
  complete = (λ e. absurd (k e), λ e. absurd (ground (arith, length-drop n frame, ap length e)));
}

-- Nothing more is written: the frame is out exactly if nothing remained.
Wrote-nothing :
    (frame : Bytes) (n : ℕ) (o : SendOutcome)
    → o ≢ finished
    → Wrote (drop n frame) (if leb (length frame) n then finished else o, [])
Wrote-nothing frame n o k = elim (Bool-cases (leb (length frame) n)) [
  | inl e ↦ rw e (Wrote-done frame n e)
  | inr e ↦ rw e (Wrote-none frame n o e k)
]

send_from-Wrote :
    (frame : Bytes) (total_sent : ℕ) (answers : List SendAnswer)
    → Wrote (drop total_sent frame) (send_from frame total_sent answers)
unfolding send_from
send_from-Wrote frame n [] = Wrote-nothing frame n pending (λ e. cc e)
send_from-Wrote frame n (stopping ∷ answers) = Wrote-nothing frame n halted (λ e. cc e)
send_from-Wrote frame n (sent k ∷ answers) =
    let m = min k (length frame - n) in
    let later =
      subst (λ rest. Wrote rest (send_from frame (n + m) answers)) (sym (drop-drop m n frame))
        (send_from-Wrote frame (n + m) answers) in
    Wrote-if (drop n frame) (leb (length frame) n) _ _ (Wrote-done frame n) (λ more.
      Wrote-if (drop n frame) (m == 0) _ _ (λ _. Wrote-none frame n failed more (λ e. cc e))
        (λ _.
          Wrote-take m (drop n frame) (send_from frame (n + m) answers)
            (omega (arith, length-drop n frame)) later))
send_from-Wrote frame n (blocked writable stop ∷ answers) =
    let later = send_from-Wrote frame n answers in
    Wrote-if (drop n frame) (leb (length frame) n) _ _ (Wrote-done frame n) (λ more.
      Wrote-if (drop n frame) (not writable && stop) _ _
        (λ _. Wrote-none frame n halted more (λ e. cc e)) (λ _. later))
send_from-Wrote frame n (broken ∷ answers) = Wrote-nothing frame n failed (λ e. cc e)

-- Whatever the socket answers, what `_send_frame` wrote is a prefix of the frame, and it is the whole
-- frame exactly if the sending finished: a frame is never reported as sent in part.
pub send_frame-Wrote :
    (frame : Bytes) (answers : List SendAnswer) → Wrote frame (send_frame frame answers)
unfolding send_frame
send_frame-Wrote frame answers = send_from-Wrote frame 0 answers
