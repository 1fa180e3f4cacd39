-- ===== src/Protocol/Sse/Chunks.antt =====
-- The decoder over a stream: every byte that is fed stands in one record, and the records do not
-- depend on how the stream was cut.
use tokenhush.Base.{
  ℕ, zero, suc, ◌+◌, ◌≤◌, ◌<◌, ◌≡◌, refl, sym, ap, ◌∙◌, Bool, false, none, some, List, [], ◌++◌,
  Bytes, length, arith, Option-cases, inl, inr, append_assoc, length-append,
}
use tokenhush.Protocol.Sse.{
  Event, Decoder, next_line, line_step, scan_lines, feed, enough, dispatch,
}
use tokenhush.Protocol.Sse.Lines.{
  InRange, grow, left, raws, raws-append, line_step-raws, line_step-left, line_step-grow,
  next_line_bounds, next_line-append,
}

abbrev Line : Type 0
Line = ℕ × ℕ × ℕ

scan_stop :
    (fuel : ℕ) (final : Bool) (d : Decoder)
    → next_line final d.buf d.scan ≡ none
    → scan_lines (suc fuel) final d ≡ ([], d)
unfolding scan_lines
scan_stop fuel final d h = rw (h, scan_lines)

scan_more :
    (fuel : ℕ) (final : Bool) (d : Decoder) (r : Line)
    → next_line final d.buf d.scan ≡ some r
    → scan_lines (suc fuel) final d ≡ (
      (line_step d r.0 r.1 r.2).0 ++ (scan_lines fuel final (line_step d r.0 r.1 r.2).1).0,
      (scan_lines fuel final (line_step d r.0 r.1 r.2).1).1,
    )
unfolding scan_lines
scan_more fuel final d r h = rw (h, scan_lines)

-- The raw bytes of the records and the buffer that is left are the buffer as it was.
pub scan_lines-raws :
    (fuel : ℕ) (final : Bool) (d : Decoder)
    → raws (scan_lines fuel final d).0 ++ (scan_lines fuel final d).1.buf ≡ d.buf
scan_lines-raws zero final d = unfold scan_lines in refl
scan_lines-raws (suc fuel) final d = elim (Option-cases (next_line final d.buf d.scan)) [
  | inl e ↦ rw (scan_stop fuel final d e)
  | inr (r, e) ↦
      let d' = (line_step d r.0 r.1 r.2).1 in
      let evs = (line_step d r.0 r.1 r.2).0 in
      rw (scan_more fuel final d r e) (
        ap (λ s. s ++ (scan_lines fuel final d').1.buf)
          (raws-append evs (scan_lines fuel final d').0)
        ∙ append_assoc (raws evs) _ _
        ∙ ap (◌++◌ (raws evs)) (scan_lines-raws fuel final d')
        ∙ line_step-raws d r.0 r.1 r.2)
]

-- The rounds of the loop for a decoder that is in range.
bounds :
    (d : Decoder) (r : Line)
    → InRange d
    → next_line false d.buf d.scan ≡ some r
    → (r.0 ≡ d.scan) × (d.scan ≤ r.1) × (r.1 < r.2) × (r.2 ≤ length d.buf)
bounds d r h e = next_line_bounds d.buf d.scan r.0 r.1 r.2 h e

step_fits :
    (d : Decoder) (r : Line)
    → InRange d
    → next_line false d.buf d.scan ≡ some r
    → InRange (line_step d r.0 r.1 r.2).1 × (left (line_step d r.0 r.1 r.2).1 < left d)
step_fits d r h e =
    let (a, b, c, f) = bounds d r h e in line_step-left d r.0 r.1 r.2 (omega arith) f

-- Fuel above the bytes left is enough: more changes nothing.
pub scan_fuel :
    (f g : ℕ) (d : Decoder)
    → InRange d
    → left d < f
    → left d < g
    → scan_lines f false d ≡ scan_lines g false d
scan_fuel zero g d h a b = absurd (omega arith)
scan_fuel (suc f) zero d h a b = absurd (omega arith)
scan_fuel (suc f) (suc g) d h a b = elim (Option-cases (next_line false d.buf d.scan)) [
  | inl e ↦ rw (scan_stop f false d e, scan_stop g false d e)
  | inr (r, e) ↦
      let (fits, less) = step_fits d r h e in
      rw (scan_more f false d r e, scan_more g false d r e)
        (ap (λ (t : List Event × Decoder). ((line_step d r.0 r.1 r.2).0 ++ t.0, t.1))
          (scan_fuel f g (line_step d r.0 r.1 r.2).1 fits (omega arith) (omega arith)))
]

pub left-grow : (d : Decoder) (y : Bytes) → InRange d → left (grow d y) ≡ left d + length y
left-grow d y h = omega (arith, length-append d.buf y)

grow_more :
    (g : ℕ) (d : Decoder) (y : Bytes) (r : Line)
    → InRange d
    → next_line false d.buf d.scan ≡ some r
    → scan_lines (suc g) false (grow d y) ≡ (
      (line_step d r.0 r.1 r.2).0 ++ (scan_lines g false (grow (line_step d r.0 r.1 r.2).1 y)).0,
      (scan_lines g false (grow (line_step d r.0 r.1 r.2).1 y)).1,
    )
grow_more g d y r h e =
    let (p, q, s, t) = bounds d r h e in
    scan_more g false (grow d y) r (next_line-append d.buf y d.scan r h e)
    ∙ ap
        (λ (t : List Event × Decoder).
          (t.0 ++ (scan_lines g false t.1).0, (scan_lines g false t.1).1))
        (line_step-grow d y r.0 r.1 r.2 (omega arith) (omega arith) t)

-- To read on with more bytes is to go on from where the reading stopped.
pub scan_grow :
    (f g n : ℕ) (d : Decoder) (y : Bytes)
    → InRange d
    → left d < f
    → left d + length y < g
    → left d + length y < n
    → scan_lines g false (grow d y) ≡ (
      (scan_lines f false d).0 ++ (scan_lines n false (grow (scan_lines f false d).1 y)).0,
      (scan_lines n false (grow (scan_lines f false d).1 y)).1,
    )
scan_grow zero g n d y h a b c = absurd (omega arith)
scan_grow (suc f) zero n d y h a b c = absurd (omega arith)
scan_grow (suc f) (suc g) n d y h a b c = elim (Option-cases (next_line false d.buf d.scan)) [
  | inl e ↦ rw (scan_stop f false d e) (
      scan_fuel (suc g) n (grow d y) (omega (arith, length-append d.buf y))
        (omega (arith, left-grow d y h)) (omega (arith, left-grow d y h)))
  | inr (r, e) ↦
      let (fits, less) = step_fits d r h e in
      let d' = (line_step d r.0 r.1 r.2).1 in
      let evs = (line_step d r.0 r.1 r.2).0 in
      grow_more g d y r h e
      ∙ ap (λ (t : List Event × Decoder). (evs ++ t.0, t.1))
          (scan_grow f g n d' y fits (omega arith) (omega arith) (omega arith))
      ∙ rw (scan_more f false d r e) (
          ap (λ s. (s, (scan_lines n false (grow (scan_lines f false d').1 y)).1))
            (sym (append_assoc evs (scan_lines f false d').0 _)))
]

-- The offset stays in the buffer, and the bytes left do not grow.
pub scan_lines_fits :
    (f : ℕ) (d : Decoder)
    → InRange d
    → InRange (scan_lines f false d).1 × (left (scan_lines f false d).1 ≤ left d)
scan_lines_fits zero d h = unfold scan_lines in (h, omega arith)
scan_lines_fits (suc f) d h = elim (Option-cases (next_line false d.buf d.scan)) [
  | inl e ↦ rw (scan_stop f false d e) (h, omega arith)
  | inr (r, e) ↦
      let (fits, less) = step_fits d r h e in
      let (ok, le) = scan_lines_fits f (line_step d r.0 r.1 r.2).1 fits in
      rw (scan_more f false d r e) (ok, omega arith)
]

-- An open decoder.
pub record IsOpen (d : Decoder) : Type 0 where
  pub in_range : InRange d
  pub not_closed : d.closed ≡ false

abbrev pub fed : Decoder → Bytes → List Event × Decoder
fed d x = scan_lines (enough (grow d x)) false (grow d x)

pub feed_open : (d : Decoder) (x : Bytes) → IsOpen d → feed d x ≡ (some (fed d x).0, (fed d x).1)
unfolding feed
feed_open d x o = rw (o.not_closed, feed)

line_step-closed :
    (d : Decoder) (start end next : ℕ) → (line_step d start end next).1.closed ≡ d.closed
unfolding line_step dispatch
line_step-closed d start end next = ground arith

scan_lines-closed :
    (f : ℕ) (final : Bool) (d : Decoder) → (scan_lines f final d).1.closed ≡ d.closed
scan_lines-closed zero final d = unfold scan_lines in refl
scan_lines-closed (suc f) final d = elim (Option-cases (next_line final d.buf d.scan)) [
  | inl e ↦ rw (scan_stop f final d e)
  | inr (r, e) ↦
      rw (scan_more f final d r e)
        (scan_lines-closed f final (line_step d r.0 r.1 r.2).1 ∙ line_step-closed d r.0 r.1 r.2)
]

pub fed-IsOpen : (d : Decoder) (x : Bytes) → IsOpen d → IsOpen (fed d x).1
fed-IsOpen d x o = record {
  in_range =
      (scan_lines_fits (enough (grow d x)) (grow d x)
        (omega (arith, length-append d.buf x, o.in_range))).0;
  not_closed = scan_lines-closed (enough (grow d x)) false (grow d x) ∙ o.not_closed;
}
