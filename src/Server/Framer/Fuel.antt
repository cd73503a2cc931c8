-- ===== src/Server/Framer/Fuel.antt =====
-- core/server/framer.py: the fuel of the loop of `feed`, and what a round looks at.
use ctxins.Base.{
  ℕ, zero, suc, ◌+◌, ◌≤◌, ◌<◌, ◌≡◌, refl, List, [], ◌∷◌, ◌++◌, arith, length, length-append,
  length-drop, drop, take-append_le, drop-append_le, Result, ok, raise, frame_decode_error, sym,
  ◌∙◌,
}
use ctxins.Egress.RingBuffer.{Bytes}
use ctxins.Egress.Framing.{unpack_be32}
use ctxins.Server.Framer.{Round, need_more, oversized, cut, round, rounds, prepend}

-- A round that cuts a frame leaves at least four bytes fewer.
pub round-shrinks :
    (m : ℕ) (buf : Bytes) {frame rest : Bytes}
    → round m buf ≡ cut frame rest
    → length rest + 4 ≤ length buf
unfolding round
round-shrinks m buf h = ground (arith, length-drop (4 + unpack_be32 buf) buf)

unpack-append : (buf more : Bytes) → 4 ≤ length buf → unpack_be32 (buf ++ more) ≡ unpack_be32 buf
unfolding unpack_be32
unpack-append (a ∷ b ∷ c ∷ d ∷ buf) more h = refl
unpack-append _ more h = absurd (omega arith)

-- The three kinds of round, each with its equation.
pub data RoundCase (m : ℕ) (buf : Bytes) : Type 0 where
  stops : round m buf ≡ need_more → RoundCase m buf
  fails : (n : ℕ) → round m buf ≡ oversized n → RoundCase m buf
  cuts : (frame rest : Bytes) → round m buf ≡ cut frame rest → RoundCase m buf

classify : (m : ℕ) (buf : Bytes) (r : Round) → round m buf ≡ r → RoundCase m buf
classify m buf need_more e = stops e
classify m buf (oversized n) e = fails n e
classify m buf (cut frame rest) e = cuts frame rest e

pub round-case : (m : ℕ) (buf : Bytes) → RoundCase m buf
round-case m buf = classify m buf (round m buf) refl

module _ (f m : ℕ) (buf : Bytes) where
  pub rounds-need_more : round m buf ≡ need_more → rounds (suc f) m buf ≡ (ok [], buf)
  unfolding rounds
  rounds-need_more e = rw (e, rounds)

  pub rounds-oversized :
      (n : ℕ) → round m buf ≡ oversized n → rounds (suc f) m buf ≡ (raise frame_decode_error, buf)
  unfolding rounds
  rounds-oversized n e = rw (e, rounds)

  pub rounds-cut :
      (frame rest : Bytes)
      → round m buf ≡ cut frame rest
      → rounds (suc f) m buf ≡ (prepend frame (rounds f m rest).0, (rounds f m rest).1)
  unfolding rounds
  rounds-cut frame rest e = rw (e, rounds)

-- Two amounts of fuel above the buffer's length give the same result.
pub rounds_fuel :
    (f g m : ℕ) (buf : Bytes) → length buf < f → length buf < g → rounds f m buf ≡ rounds g m buf
rounds_fuel zero g m buf h k = elim h [ ]
rounds_fuel (suc f) zero m buf h k = elim k [ ]
rounds_fuel (suc f) (suc g) m buf h k = elim (round-case m buf) [
  | stops e ↦ rounds-need_more f m buf e ∙ sym (rounds-need_more g m buf e)
  | fails n e ↦ rounds-oversized f m buf n e ∙ sym (rounds-oversized g m buf n e)
  | cuts frame rest e ↦
      let fewer = round-shrinks m buf e in
      rw (
        rounds-cut f m buf frame rest e,
        rounds-cut g m buf frame rest e,
        rounds_fuel f g m rest (omega arith) (omega arith),
      )
]

pub prepend-ok :
    (frame : Bytes) (r : Result (List Bytes)) {frames : List Bytes}
    → prepend frame r ≡ ok frames
    → (later : List Bytes) × (r ≡ ok later) × (frames ≡ frame ∷ later)
prepend-ok frame (ok later) h = (later, refl, cc)
prepend-ok frame (raise x) h = cc

-- What the rounds leave in the buffer is no complete frame, unless they raise: the loop does not end
-- for want of fuel.
pub rounds-stops :
    (f m : ℕ) (buf : Bytes) {frames : List Bytes}
    → length buf < f
    → (rounds f m buf).0 ≡ ok frames
    → round m (rounds f m buf).1 ≡ need_more
rounds-stops zero m buf h e = elim h [ ]
rounds-stops (suc f) m buf h e = elim (round-case m buf) [
  | stops s ↦ rw (rounds-need_more f m buf s) s
  | fails n s ↦ cc (rounds-oversized f m buf n s, e)
  | cuts frame rest s ↦
      let fewer = round-shrinks m buf s in
      let (later, found, same) =
        prepend-ok frame (rounds f m rest).0 (rw (rounds-cut f m buf frame rest s) at e) in
      rw (rounds-cut f m buf frame rest s) (rounds-stops f m rest (omega arith) found)
]

-- The bytes that follow a complete frame do not change the round that cuts it, and are left over.
pub round-append :
    (m : ℕ) (buf more : Bytes) {frame rest : Bytes}
    → round m buf ≡ cut frame rest
    → round m (buf ++ more) ≡ cut frame (rest ++ more)
unfolding round
round-append m buf more h = ground (
  arith,
  length-append buf more,
  unpack-append buf more,
  length-drop 4 buf,
  drop-append_le 4 buf more,
  drop-append_le (4 + unpack_be32 buf) buf more,
  take-append_le (unpack_be32 buf) (drop 4 buf) more,
)

-- Nor do they change a round that raises.
pub round-append_oversized :
    (m : ℕ) (buf more : Bytes) {n : ℕ}
    → round m buf ≡ oversized n
    → round m (buf ++ more) ≡ oversized n
unfolding round
round-append_oversized m buf more h = ground (arith, length-append buf more, unpack-append buf more)
