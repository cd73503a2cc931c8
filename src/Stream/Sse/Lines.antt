-- ===== src/Stream/Sse/Lines.antt =====
-- interceptor/stream/sse_parser.py: the search for a line break by positions, and a scan of the text.
use native.Mathlib.Nat.{suc-add}
use native.Mathlib.Numerals.{towards_suc}
use ctxins.Base.{
  ℕ, suc, ◌+◌, ◌≡◌, refl, ap, ◌∙◌, true, false, Bool-cases, inl, inr, [], ◌∷◌, Option, none, some,
  arith, ==_iff, take, drop, ◌==◌, if◌then◌else◌,
}
use ctxins.Stream.Sse.{Text, cr, lf, find, break_at_cr, choose_break, next_break}

-- A carriage return ends a line once the character after it is there; a line feed there belongs to it.
abbrev pub after_cr : Text → Option (Text × Text)
after_cr [] = none
after_cr (c ∷ cs) = if c == lf then some ([], cs) else some ([], c ∷ cs)

abbrev pub behind : ℕ → Option (Text × Text) → Option (Text × Text)
behind c none = none
behind c (some (line, rest)) = some (c ∷ line, rest)

-- One step of the scan, over what the scan of the later characters gives.
abbrev pub scan : ℕ → Text → Option (Text × Text) → Option (Text × Text)
scan c cs later = if c == lf then some ([], cs) else if c == cr then after_cr cs else behind c later

-- The first line of a text, and what follows its line break; none if no break is there yet.
unfoldable pub cut_line : Text → Option (Text × Text)
cut_line [] = none
cut_line (c ∷ cs) = scan c cs (cut_line cs)

-- The text cut at the positions that the parser found.
abbrev pub at_break : Text → Option (ℕ × ℕ) → Option (Text × Text)
at_break buffer none = none
at_break buffer (some (nl_pos, skip)) = some (take nl_pos buffer, drop (nl_pos + skip) buffer)

abbrev shift : Option ℕ → Option ℕ
shift none = none
shift (some i) = some (i + 1)

abbrev shift_break : Option (ℕ × ℕ) → Option (ℕ × ℕ)
shift_break none = none
shift_break (some (n, k)) = some (suc n, k)

break_at_cr-cons :
    (x c : ℕ) (cs : Text) (i : ℕ)
    → break_at_cr (x ∷ c ∷ cs) (i + 1) ≡ shift_break (break_at_cr (c ∷ cs) i)
unfolding break_at_cr
break_at_cr-cons x c cs i = simp towards_suc (ground arith)

choose_break-cons :
    (x c : ℕ) (cs : Text) (p q : Option ℕ)
    → choose_break (x ∷ c ∷ cs) (shift p) (shift q) ≡ shift_break (choose_break (c ∷ cs) p q)
unfolding choose_break
choose_break-cons x c cs none none = refl
choose_break-cons x c cs none (some j) = ground arith
choose_break-cons x c cs (some i) none = break_at_cr-cons x c cs i
choose_break-cons x c cs (some i) (some j) = ground (arith, break_at_cr-cons x c cs i)

at_break-shift :
    (x : ℕ) (cs : Text) (o : Option (ℕ × ℕ))
    → at_break (x ∷ cs) (shift_break o) ≡ behind x (at_break cs o)
at_break-shift x cs none = refl
at_break-shift x cs (some (n, k)) = rw suc-add

find-other : (c x : ℕ) (xs : Text) → (x == c) ≡ false → find c (x ∷ xs) ≡ shift (find c xs)
unfolding find
find-other c x xs h = ground arith

find-here : (c x : ℕ) (xs : Text) → (x == c) ≡ true → find c (x ∷ xs) ≡ some 0
unfolding find
find-here c x xs h = ground arith

-- A line feed in front is the break.
choose_break-lf :
    (cs : Text) (o : Option ℕ) → choose_break (lf ∷ cs) (shift o) (some 0) ≡ some (0, 1)
unfolding choose_break
choose_break-lf cs none = refl
choose_break-lf cs (some i) = ground arith

-- So is a carriage return, once the next character is there.
choose_break-cr :
    (cs : Text) (o : Option ℕ)
    → at_break (cr ∷ cs) (choose_break (cr ∷ cs) (some 0) (shift o)) ≡ after_cr cs
unfolding choose_break break_at_cr
choose_break-cr [] none = refl
choose_break-cr [] (some i) = ground arith
choose_break-cr (c ∷ cs) none = ground arith
choose_break-cr (c ∷ cs) (some i) = ground arith

choose_break-other :
    (x : ℕ) (cs : Text)
    → at_break (x ∷ cs) (choose_break (x ∷ cs) (shift (find cr cs)) (shift (find lf cs)))
      ≡ behind x (at_break cs (next_break cs))
unfolding next_break
choose_break-other x [] = unfold find choose_break in refl
choose_break-other x (c ∷ cs) =
    rw choose_break-cons
      (at_break-shift x (c ∷ cs) (choose_break (c ∷ cs) (find cr (c ∷ cs)) (find lf (c ∷ cs))))

next_break-cons :
    (c : ℕ) (cs : Text)
    → at_break cs (next_break cs) ≡ cut_line cs
    → at_break (c ∷ cs) (next_break (c ∷ cs)) ≡ cut_line (c ∷ cs)
unfolding next_break cut_line
next_break-cons c cs ih = elim (Bool-cases (c == lf)) [
  | inl e ↦
      let same : c ≡ lf = (==_iff c lf).0 e in
      rw (same, find-here lf lf cs refl, find-other cr lf cs refl, choose_break-lf)
  | inr e ↦ elim (Bool-cases (c == cr)) [
    | inl f ↦
        let same : c ≡ cr = (==_iff c cr).0 f in
        rw (same, find-here cr cr cs refl, find-other lf cr cs refl)
          (choose_break-cr cs (find lf cs))
    | inr f ↦
        rw (find-other lf c cs e, find-other cr c cs f, e, f)
          (choose_break-other c cs ∙ ap (behind c) ih)
  ]
]

-- The positions that the parser finds cut the text where a scan does that knows only line feeds,
-- carriage returns and the two together, and that leaves a carriage return at the end of the text
-- for later.
pub next_break-cut_line : (buffer : Text) → at_break buffer (next_break buffer) ≡ cut_line buffer
next_break-cut_line [] = unfold next_break cut_line find choose_break in refl
next_break-cut_line (c ∷ cs) = next_break-cons c cs (next_break-cut_line cs)
