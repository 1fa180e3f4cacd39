-- ===== src/Protocol/Writer/Conserve.antt =====
-- The bound on the held bytes, and the conservation of bytes, of `BackfillWriter`.
use tokenhush.Base.{
  ℕ, zero, suc, ◌-◌, ◌≤◌, ◌≡◌, refl, sym, ap, ◌∙◌, none, List, [], ◌∷◌, ◌++◌, append-nil,
  append_assoc, Bytes, arith, ltb, length, take, drop, length-drop, take-append-drop, Bool-cases,
  inl, inr, flatten, subst,
}
use tokenhush.Protocol.Writer.Steps.{scan_token, scan_hold, scan_literal, replacement-none}
use tokenhush.Protocol.Writer.{
  TokenMatcher, BackfillWriter, sse_backfill_holdback_bytes, holdback_limit, at_token, may_grow,
  scan, trim, release, feed, flush, held_count, feed_all, stream,
}

length-trim : (limit : ℕ) (r : Bytes × Bytes) → length (trim limit r).1 ≤ limit
unfolding trim
length-trim limit (out, tail) = ground (arith, length-drop (length tail - limit) tail)

holdback_limit-le : (m : TokenMatcher) → holdback_limit m ≤ sse_backfill_holdback_bytes
unfolding holdback_limit
holdback_limit-le m = ground arith

-- After any chunk, from any state, the writer holds no more than its limit, which is at most
-- 256 KiB.
pub held_bound :
    (w : BackfillWriter) (p : Bytes)
    → (held_count (feed w p).1 ≤ holdback_limit w.matcher)
      × (held_count (feed w p).1 ≤ sse_backfill_holdback_bytes)
held_bound w p =
    let h : held_count (feed w p).1 ≤ holdback_limit w.matcher =
      unfold feed release held_count in
      length-trim (holdback_limit w.matcher)
        (scan w.matcher w.replace (length (w.held ++ p)) (w.held ++ p) []) in
    (h, omega (arith, holdback_limit-le w.matcher))

trim-append : (limit : ℕ) (r : Bytes × Bytes) → (trim limit r).0 ++ (trim limit r).1 ≡ r.0 ++ r.1
unfolding trim
trim-append limit (out, tail) = elim (Bool-cases (ltb limit (length tail))) [
  | inl over ↦ rw over (rw append_assoc (rw take-append-drop))
  | inr fits ↦ rw fits
]

scan-append_nil :
    (m : TokenMatcher) (fuel : ℕ) (rest out : Bytes)
    → (scan m none fuel rest out).0 ++ (scan m none fuel rest out).1 ≡ out ++ rest
scan-append_nil m zero rest out = unfold scan in refl
scan-append_nil m (suc fuel) [] out = unfold scan in refl
scan-append_nil m (suc fuel) (b ∷ bs) out = elim (Bool-cases (at_token m (b ∷ bs))) [
  | inl token ↦
      let n = m.token_len (b ∷ bs) in
      rw (scan_token m none fuel b bs out token, replacement-none (take n (b ∷ bs)))
        (scan-append_nil m fuel (drop n (b ∷ bs)) (out ++ take n (b ∷ bs))
          ∙ append_assoc out (take n (b ∷ bs)) (drop n (b ∷ bs))
          ∙ ap (◌++◌ out) (take-append-drop n (b ∷ bs)))
  | inr plain ↦ elim (Bool-cases (may_grow m (b ∷ bs))) [
    | inl grows ↦ rw (scan_hold m none fuel b bs out plain grows)
    | inr dead ↦
        rw (scan_literal m none fuel b bs out plain dead)
          (scan-append_nil m fuel bs (out ++ b ∷ []) ∙ append_assoc out (b ∷ []) bs)
  ]
]

feed-append :
    (w : BackfillWriter) (p : Bytes)
    → w.replace ≡ none
    → (feed w p).0 ++ (feed w p).1.held ≡ w.held ++ p
unfolding feed release
feed-append w p e =
    let h = w.held ++ p in
    trim-append (holdback_limit w.matcher) (scan w.matcher w.replace (length h) h [])
    ∙ subst (λ r. (scan w.matcher r (length h) h []).0 ++ (scan w.matcher r (length h) h []).1 ≡ h)
        (sym e) (scan-append_nil w.matcher (length h) h [])

pub feed-replace : (w : BackfillWriter) (p : Bytes) → (feed w p).1.replace ≡ w.replace
unfolding feed release
feed-replace w p = refl

feed_all_step :
    (w : BackfillWriter) (p : Bytes) (ps : List Bytes) (h rest : Bytes)
    → (feed_all (feed w p).1 ps).0 ++ (feed_all (feed w p).1 ps).1.held ≡ (feed w p).1.held ++ rest
    → (feed w p).0 ++ (feed w p).1.held ≡ h ++ p
    → (feed_all w (p ∷ ps)).0 ++ (feed_all w (p ∷ ps)).1.held ≡ h ++ (p ++ rest)
unfolding feed_all
feed_all_step w p ps h rest ih one =
    append_assoc (feed w p).0 _ _
    ∙ ap (◌++◌ (feed w p).0) ih
    ∙ sym (append_assoc (feed w p).0 (feed w p).1.held rest)
    ∙ ap (λ l. l ++ rest) one
    ∙ append_assoc h p rest

feed_all-append :
    (w : BackfillWriter) (ps : List Bytes)
    → w.replace ≡ none
    → (feed_all w ps).0 ++ (feed_all w ps).1.held ≡ w.held ++ flatten ps
feed_all-append w [] e = unfold feed_all in sym (append-nil w.held)
feed_all-append w (p ∷ ps) e =
    feed_all_step w p ps w.held (flatten ps)
      (feed_all-append (feed w p).1 ps (feed-replace w p ∙ e)) (feed-append w p e)

-- A writer with no replacement function is the identity on the stream: all chunks and then the
-- flush give out what was held and what was fed, each byte once and in order.
pub stream_identity :
    (w : BackfillWriter) (ps : List Bytes) → w.replace ≡ none → stream w ps ≡ w.held ++ flatten ps
unfolding stream flush
stream_identity w ps e = feed_all-append w ps e
