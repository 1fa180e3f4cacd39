-- ===== src/Protocol/Sse/Lines.antt =====
-- One line of the decoder's buffer: its bounds, what more input does not change, and what becomes of
-- the bytes.
use tokenhush.Base.{
  ℕ, ◌+◌, ◌-◌, ◌≤◌, ◌<◌, ◌≡◌, refl, sym, ap, ◌∙◌, Bool, true, false, none, some, List, [], ◌∷◌,
  ◌++◌, Bytes, ◌==◌, length, take, drop, arith, Bool-cases, Option-cases, inl, inr, take-append_le,
  drop-append_le, length-drop, take-append-drop, append_assoc, append-nil,
}
use tokenhush.Protocol.Sse.{Event, Decoder, line_loop, next_line, dispatch, event_of, line_step}

line_other :
    (final : Bool) (c : ℕ) (s : Bytes) (n : ℕ)
    → c == b'\n' ≡ false
    → c == b'\r' ≡ false
    → line_loop final (c ∷ s) n ≡ line_loop final s (n + 1)
unfolding line_loop
line_other final c s n a b = rw (a, line_loop) (rw (b, line_loop))

newline_append :
    (c : ℕ) (s y : Bytes) (n : ℕ) (r : ℕ × ℕ)
    → c == b'\n' ≡ true
    → line_loop false (c ∷ s) n ≡ some r
    → line_loop false (c ∷ s ++ y) n ≡ some r
unfolding line_loop
newline_append c s y n r a h = rw (a, line_loop) (rw (a, line_loop) at h)

return_append :
    (c : ℕ) (s y : Bytes) (n : ℕ) (r : ℕ × ℕ)
    → c == b'\n' ≡ false
    → c == b'\r' ≡ true
    → line_loop false (c ∷ s) n ≡ some r
    → line_loop false (c ∷ s ++ y) n ≡ some r
unfolding line_loop
return_append c [] y n r a b h = ground arith
return_append c (e ∷ s) y n r a b h = ground arith

-- A line that ends in the buffer ends there too when more bytes follow. A carriage return at the end
-- of the buffer ends no line yet.
pub line_loop-append :
    (s y : Bytes) (n : ℕ) (r : ℕ × ℕ)
    → line_loop false s n ≡ some r
    → line_loop false (s ++ y) n ≡ some r
line_loop-append [] y n r h = unfold line_loop in cc
line_loop-append (c ∷ s) y n r h = elim (Bool-cases (c == b'\n')) [
  | inl lf ↦ newline_append c s y n r lf h
  | inr a ↦ elim (Bool-cases (c == b'\r')) [
    | inl cr ↦ return_append c s y n r a cr h
    | inr b ↦
        line_other false c (s ++ y) n a b
        ∙ line_loop-append s y (n + 1) r (sym (line_other false c s n a b) ∙ h)
  ]
]

line_loop_bounds :
    (s : Bytes) (n m t : ℕ)
    → line_loop false s n ≡ some (m, t)
    → (n ≤ m) × (1 ≤ t) × (m + t ≤ n + length s)
unfolding line_loop
line_loop_bounds [] n m t h = cc
line_loop_bounds (c ∷ []) n m t h = ground arith
line_loop_bounds (c ∷ e ∷ s) n m t h = ground (arith, line_loop_bounds (e ∷ s) (n + 1) m t)

-- The decoder's offset lies in its buffer.
abbrev pub InRange : Decoder → Type 0
InRange d = d.scan ≤ length d.buf

pub next_line_bounds :
    (buf : Bytes) (scan start end next : ℕ)
    → scan ≤ length buf
    → next_line false buf scan ≡ some (start, end, next)
    → (start ≡ scan) × (scan ≤ end) × (end < next) × (next ≤ length buf)
unfolding next_line
next_line_bounds buf scan start end next le h =
    ground
      (arith, line_loop_bounds (drop scan buf) 0 (end - scan) (next - end), length-drop scan buf)

pub next_line-append :
    (buf y : Bytes) (scan : ℕ) (r : ℕ × ℕ × ℕ)
    → scan ≤ length buf
    → next_line false buf scan ≡ some r
    → next_line false (buf ++ y) scan ≡ some r
unfolding next_line
next_line-append buf y scan r le h =
    rw (drop-append_le scan buf y le, next_line)
      (elim (Option-cases (line_loop false (drop scan buf) 0)) [
        | inl e ↦ absurd (no_line e)
        | inr (q, e) ↦
            rw (line_loop-append (drop scan buf) y 0 q e, next_line) (rw (e, next_line) at h)
      ])
  where
    no_line : line_loop false (drop scan buf) 0 ≡ none → ⊥
    no_line e = cc (rw (e, next_line) at h)

-- The same state with more bytes behind it.
abbrev pub grow : Decoder → Bytes → Decoder
grow d y = record d { buf = d.buf ++ y }

pub line_step-grow :
    (d : Decoder) (y : Bytes) (start end next : ℕ)
    → start ≤ end
    → end ≤ next
    → next ≤ length d.buf
    → line_step (grow d y) start end next
      ≡ ((line_step d start end next).0, grow (line_step d start end next).1 y)
unfolding line_step dispatch
line_step-grow d y start end next a b c = rw (take-append_le next d.buf y c) (
    rw (drop-append_le next d.buf y c) (
      rw (drop-append_le start d.buf y (omega arith)) (
        rw
          (take-append_le (end - start) (drop start d.buf) y
            (omega (arith, length-drop start d.buf)))
          (ground arith))))

-- The bytes of the events of a list, in order.
abbrev pub raws : List Event → Bytes
raws [] = []
raws (ev ∷ evs) = ev.raw ++ raws evs

pub raws-append : (a b : List Event) → raws (a ++ b) ≡ raws a ++ raws b
raws-append [] b = refl
raws-append (ev ∷ a) b =
    ap (◌++◌ ev.raw) (raws-append a b) ∙ sym (append_assoc ev.raw (raws a) (raws b))

-- A line takes its bytes over to the event that it dispatches, or leaves them in the buffer.
pub line_step-raws :
    (d : Decoder) (start end next : ℕ)
    → raws (line_step d start end next).0 ++ (line_step d start end next).1.buf ≡ d.buf
unfolding line_step dispatch event_of
line_step-raws d start end next =
    ground (arith, take-append-drop next d.buf, append-nil (take next d.buf))

-- The bytes that a line leaves unread.
abbrev pub left : Decoder → ℕ
left d = length d.buf - d.scan

pub line_step-left :
    (d : Decoder) (start end next : ℕ)
    → d.scan < next
    → next ≤ length d.buf
    → InRange (line_step d start end next).1 × (left (line_step d start end next).1 < left d)
unfolding line_step dispatch
line_step-left d start end next a b = ground (arith, length-drop next d.buf)
