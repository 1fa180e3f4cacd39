-- ===== src/Protocol/Sse/Stream.antt =====
-- `Feed` and `Close` of pkg/protocol/sse.go over a stream that arrives in chunks.
use tokenhush.Base.{
  ℕ, ◌+◌, ◌<◌, ◌≡◌, refl, sym, ap, ◌∙◌, true, false, Option, none, some, List, [], ◌∷◌, ◌++◌, Bytes,
  ltb, length, arith, Bool-cases, inl, inr, append_assoc, append-nil, flatten, length-append,
  take-append-drop,
}
use tokenhush.Protocol.Sse.{Event, Decoder, scan_lines, feed, close, enough, dispatch, event_of}
use tokenhush.Protocol.Sse.Lines.{InRange, grow, left, raws, raws-append}
use tokenhush.Protocol.Sse.Chunks.{
  IsOpen, fed, feed_open, fed-IsOpen, scan_grow, scan_fuel, scan_lines_fits, scan_lines-raws,
  left-grow,
}

grow-InRange : (d : Decoder) (x : Bytes) → IsOpen d → InRange (grow d x)
grow-InRange d x o = omega (arith, length-append d.buf x, o.in_range)

grow-grow : (d : Decoder) (x y : Bytes) → grow (grow d x) y ≡ grow d (x ++ y)
grow-grow d x y = ap (λ b. record d { buf = b }) (append_assoc d.buf x y)

-- Any fuel above the bytes left gives what `feed` computes.
fed_fuel :
    (n : ℕ) (d : Decoder) (y : Bytes)
    → IsOpen d
    → left (grow d y) < n
    → scan_lines n false (grow d y) ≡ fed d y
fed_fuel n d y o h = scan_fuel n (enough (grow d y)) (grow d y) (grow-InRange d y o) h (omega arith)

fed-fed :
    (d : Decoder) (x y : Bytes)
    → IsOpen d
    → fed d (x ++ y) ≡ ((fed d x).0 ++ (fed (fed d x).1 y).0, (fed (fed d x).1 y).1)
fed-fed d x y o =
    let e = grow d x in
    let n = left e + length y + 1 in
    let o' = fed-IsOpen d x o in
    let (ok, le) = scan_lines_fits (enough e) e (grow-InRange d x o) in
    ap (λ e. scan_lines (enough e) false e) (sym (grow-grow d x y))
    ∙ scan_grow (enough e) (enough (grow e y)) n e y (grow-InRange d x o) (omega arith)
        (omega (arith, left-grow e y (grow-InRange d x o))) (omega arith)
    ∙ ap (λ (t : List Event × Decoder). ((fed d x).0 ++ t.0, t.1))
        (fed_fuel n (fed d x).1 y o' (omega (arith, left-grow (fed d x).1 y ok)))

-- The chunks of a stream one by one, the records in order.
abbrev pub feed_all : Decoder → List Bytes → Option (List Event) × Decoder
feed_all d [] = (some [], d)
feed_all d (x ∷ xs) =
    let (r, d') = feed d x in
    let (r', d'') = feed_all d' xs in
    elim r [
      | none ↦ (none, d')
      | some evs ↦ elim r' [ none ↦ (none, d'') | some more ↦ (some (evs ++ more), d'') ]
    ]

-- The result of a chunk's feed with that of the chunks behind it.
abbrev chain :
    Option (List Event) × Decoder → Option (List Event) × Decoder → Option (List Event) × Decoder
chain t u = elim t.0 [
  | none ↦ (none, t.1)
  | some evs ↦ elim u.0 [ none ↦ (none, u.1) | some more ↦ (some (evs ++ more), u.1) ]
]

-- For an open decoder whose offset lies in its buffer, to feed a chunk and further chunks one by one
-- gives the records, in order, and the state that one feed of all their bytes gives.
pub events_chunks :
    (d : Decoder) (x : Bytes) (xs : List Bytes)
    → IsOpen d
    → feed_all d (x ∷ xs) ≡ feed d (flatten (x ∷ xs))
events_chunks d x [] o =
    ap (λ t. chain t (feed_all t.1 [])) (feed_open d x o)
    ∙ ap (λ s. (some s, (fed d x).1)) (append-nil (fed d x).0)
    ∙ sym (feed_open d x o)
    ∙ ap (feed d) (sym (append-nil x))
events_chunks d x (y ∷ ys) o =
    let d' = (fed d x).1 in
    let o' = fed-IsOpen d x o in
    let rest = flatten (y ∷ ys) in
    ap (λ t. chain t (feed_all t.1 (y ∷ ys))) (feed_open d x o)
    ∙ ap (chain (some (fed d x).0, d')) (events_chunks d' y ys o' ∙ feed_open d' rest o')
    ∙ ap (λ (t : List Event × Decoder). (some t.0, t.1)) (sym (fed-fed d x rest o))
    ∙ sym (feed_open d (x ++ rest) o)

-- The bytes of the records that a call returns.
abbrev pub returned : Option (List Event) → Bytes
returned none = []
returned (some evs) = raws evs

dispatch-raws : (d : Decoder) → (dispatch d).0.raw ++ (dispatch d).1.buf ≡ d.buf
unfolding dispatch event_of
dispatch-raws d = ground (arith, take-append-drop d.scan d.buf)

-- The decoder at the end of the stream.
abbrev ended : Decoder → List Event × Decoder
ended d = scan_lines (enough d) true (record d { closed = true })

close-raws : (d : Decoder) → raws (close d).0 ++ (close d).1.buf ≡ d.buf
unfolding close
close-raws d = elim (Bool-cases d.closed) [
  | inl e ↦ rw (e, close) refl
  | inr e ↦
      rw (e, close)
        (elim (Bool-cases (ltb 0 (ended d).1.pending.data_n)) [
          | inr n ↦ rw n (scan_lines-raws (enough d) true (record d { closed = true }))
          | inl p ↦ rw p (
              ap (λ s. s ++ (dispatch (ended d).1).1.buf)
                (raws-append (ended d).0 ((dispatch (ended d).1).0 ∷ [])
                  ∙ ap (◌++◌ (raws (ended d).0)) (append-nil _))
              ∙ append_assoc (raws (ended d).0) _ _
              ∙ ap (◌++◌ (raws (ended d).0)) (dispatch-raws (ended d).1)
              ∙ scan_lines-raws (enough d) true (record d { closed = true }))
        ])
]

-- One chunk: the raw bytes of the records, with those of `close`, and the buffer.
pub feed_conserve :
    (d : Decoder) (s : Bytes)
    → IsOpen d
    → returned (feed d s).0 ++ (raws (close (feed d s).1).0 ++ (close (feed d s).1).1.buf)
      ≡ d.buf ++ s
feed_conserve d s o = rw (feed_open d s o) (
    ap (◌++◌ (raws (fed d s).0)) (close-raws (fed d s).1)
    ∙ scan_lines-raws (enough (grow d s)) false (grow d s))

-- For an open decoder whose offset lies in its buffer, and a stream that arrives in any chunks: the
-- raw bytes of the records that come out, followed by those of the records that `close` then returns
-- and the buffer that it leaves, are the bytes that were buffered followed by the bytes fed.
pub events_conserve :
    (d : Decoder) (x : Bytes) (xs : List Bytes)
    → IsOpen d
    → returned (feed_all d (x ∷ xs)).0
        ++ (raws (close (feed_all d (x ∷ xs)).1).0 ++ (close (feed_all d (x ∷ xs)).1).1.buf)
      ≡ d.buf ++ flatten (x ∷ xs)
events_conserve d x xs o = rw (events_chunks d x xs o) (feed_conserve d (flatten (x ∷ xs)) o)
