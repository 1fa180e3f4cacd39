-- ===== src/Redact/Matcher/Stream.antt =====
-- A placeholder in a stream: however it is cut into chunks, the writer rewrites it once and whole.
use native.Mathlib.Decide.{dec_lt}
use tokenhush.Base.{
  ℕ, zero, suc, ◌+◌, ◌-◌, ◌≤◌, ◌<◌, ◌≡◌, refl, sym, ap, ◌∙◌, true, false, Option, List, [], ◌∷◌,
  ◌++◌, Bytes, length, take, drop, arith, length-append, append_assoc, append-nil, flatten,
  take-length, drop-length, has_prefix,
}
use tokenhush.Protocol.Writer.{
  TokenMatcher, ReplaceFunc, BackfillWriter, new_backfill_writer, replacement, holdback_limit,
  at_token, may_grow, scan, feed, feed_all,
}
use tokenhush.Protocol.Writer.Steps.{scan_token, scan_hold}
use tokenhush.Protocol.Writer.Steps.{feed_of_scan}
use tokenhush.Redact.Grammar.{
  spell, IsType, IsDigest, placeholder_sep, placeholder_suffix, placeholder_prefix, is_type_char,
  all_type_chars,
}
use tokenhush.Redact.Matcher.Spell.{token_len_head, token_len-spell}
use tokenhush.Redact.Matcher.Grow.{prefix_len_head}
use tokenhush.Redact.Matcher.{
  token_len, prefix_len, placeholder_matcher, is_placeholder_prefix, prefix_loop,
}

limit_eq : holdback_limit placeholder_matcher ≡ 89
unfolding holdback_limit
limit_eq = refl

at_token_of :
    (x : Bytes) → 0 < token_len x → token_len x ≤ length x → at_token placeholder_matcher x ≡ true
unfolding at_token
at_token_of x h le = ground arith

no_token_of : (x : Bytes) → token_len x ≡ 0 → at_token placeholder_matcher x ≡ false
unfolding at_token
no_token_of x h = ground arith

grows_of : (x : Bytes) → prefix_len x ≡ length x → may_grow placeholder_matcher x ≡ true
unfolding may_grow
grows_of x h = ground arith

scan_empty :
    (m : TokenMatcher) (r : Option ReplaceFunc) (f : ℕ) (out : Bytes)
    → scan m r f [] out ≡ (out, [])
unfolding scan
scan_empty m r zero out = refl
scan_empty m r (suc f) out = refl

feed_all_of :
    (w w' : BackfillWriter) (p : Bytes) (ps : List Bytes) (out more : Bytes) (w'' : BackfillWriter)
    → feed w p ≡ (out, w')
    → feed_all w' ps ≡ (more, w'')
    → feed_all w (p ∷ ps) ≡ (out ++ more, w'')
unfolding feed_all
feed_all_of w w' p ps out more w'' e f =
    ap (λ (t : Bytes × BackfillWriter). (t.0 ++ (feed_all t.1 ps).0, (feed_all t.1 ps).1)) e
    ∙ ap (λ (t : Bytes × BackfillWriter). (out ++ t.0, t.1)) f

nil_of : (s : Bytes) → length s ≡ 0 → s ≡ []
nil_of [] h = refl
nil_of (b ∷ s) h = absurd (omega arith)

module _ (ty hex : Bytes) (r : Option ReplaceFunc) (t : IsType ty) (d : IsDigest hex)
    (short : length ty ≤ 14) where
  abbrev whole : Bytes
  whole = spell ty hex

  abbrev holding : Bytes → BackfillWriter
  holding x = record { matcher = placeholder_matcher; replace = r; held = x }

  length-whole : length whole ≡ length ty + length hex + 9
  length-whole = omega (
    arith,
    length-append ty (placeholder_sep ∷ (hex ++ placeholder_suffix)),
    length-append hex placeholder_suffix,
  )

  scan_head :
      (x z : Bytes)
      → x ++ z ≡ whole
      → 0 < length z
      → scan placeholder_matcher r (length x) x [] ≡ ([], x)
  scan_head [] z e h = unfold scan in refl
  scan_head (b ∷ bs) z e h =
      scan_hold placeholder_matcher r (length bs) b bs []
        (no_token_of (b ∷ bs) (token_len_head ty hex (b ∷ bs) z d short e h))
        (grows_of (b ∷ bs) (prefix_len_head ty hex (b ∷ bs) z t d e))

  feed_head :
      (x p z : Bytes)
      → x ++ (p ++ z) ≡ whole
      → 0 < length z
      → feed (holding x) p ≡ ([], holding (x ++ p))
  feed_head x p z e h =
      let e' : (x ++ p) ++ z ≡ whole = append_assoc x p z ∙ e in
      feed_of_scan (holding x) p [] (x ++ p) (scan_head (x ++ p) z e' h) (
        omega (
          arith,
          limit_eq,
          length-whole,
          ap length e',
          length-append (x ++ p) z,
          t.type_short,
          d.digest_short,
        ))

  scan_whole :
      (f : ℕ) (x : Bytes)
      → x ≡ whole
      → scan placeholder_matcher r (suc f) x [] ≡ (replacement r whole, [])
  scan_whole f [] e = absurd (omega (arith, ap length e))
  scan_whole f (b ∷ bs) e =
      let x = b ∷ bs in
      let n : token_len x ≡ length x =
        ap token_len (e ∙ sym (append-nil whole))
        ∙ token_len-spell ty hex [] d t.type_nonempty short
        ∙ sym (ap length e) in
      scan_token placeholder_matcher r f b bs [] (at_token_of x (omega arith) (omega arith))
      ∙ ap (λ k. scan placeholder_matcher r f (drop k x) (replacement r (take k x))) n
      ∙ ap (λ s. scan placeholder_matcher r f s (replacement r (take (length x) x))) (drop-length x)
      ∙ ap (λ s. scan placeholder_matcher r f [] (replacement r s)) (take-length x ∙ e)
      ∙ scan_empty placeholder_matcher r f (replacement r whole)

  feed-whole :
      (x p : Bytes) → x ++ p ≡ whole → feed (holding x) p ≡ (replacement r whole, holding [])
  feed-whole x p e =
      feed_of_scan (holding x) p (replacement r whole) []
        (ap (λ n. scan placeholder_matcher r n (x ++ p) []) {y = suc (length whole - 1)}
            (omega (arith, ap length e))
          ∙ scan_whole (length whole - 1) (x ++ p) e)
        (omega (arith, limit_eq))

  feed_nothing : feed (holding []) [] ≡ ([], holding [])
  feed_nothing =
      feed_of_scan (holding []) [] [] [] (scan_empty placeholder_matcher r 0 [])
        (omega (arith, limit_eq))

  feed_nothings : (ps : List Bytes) → flatten ps ≡ [] → feed_all (holding []) ps ≡ ([], holding [])
  feed_nothings [] e = unfold feed_all in refl
  feed_nothings ([] ∷ ps) e =
      feed_all_of (holding []) (holding []) [] ps [] [] (holding []) feed_nothing
        (feed_nothings ps e)
  feed_nothings ((b ∷ p) ∷ ps) e = cc

  -- From the middle of the placeholder.
  feed_rest :
      (x : Bytes) (ps : List Bytes)
      → x ++ flatten ps ≡ whole
      → 0 < length (flatten ps)
      → feed_all (holding x) ps ≡ (replacement r whole, holding [])
  feed_rest x [] e h = absurd (omega arith)
  feed_rest x (p ∷ ps) e h = elim (dec_lt 0 (length (flatten ps))) [
    | yes more ↦
        feed_all_of (holding x) (holding (x ++ p)) p ps [] (replacement r whole) (holding [])
          (feed_head x p (flatten ps) e more)
          (feed_rest (x ++ p) ps (append_assoc x p (flatten ps) ∙ e) more)
    | no last ↦
        let none_left : flatten ps ≡ [] = nil_of (flatten ps) (omega arith) in
        feed_all_of (holding x) (holding []) p ps (replacement r whole) [] (holding [])
          (feed-whole x p (ap (◌++◌ x) (sym (append-nil p) ∙ ap (◌++◌ p) (sym none_left)) ∙ e))
          (feed_nothings ps none_left)
        ∙ ap (λ s. (s, holding [])) (append-nil (replacement r whole))
  ]

-- For a placeholder with a type of 1 to 14 bytes over the type alphabet and a digest of 12 to 64
-- lowercase hex digits, however its bytes are cut into chunks: a fresh writer with the
-- placeholder matcher emits its replacement, once and nothing else, and is then as new.
pub placeholder_chunks :
    (ty hex : Bytes) (r : Option ReplaceFunc) (ps : List Bytes)
    → IsType ty
    → IsDigest hex
    → length ty ≤ 14
    → flatten ps ≡ spell ty hex
    → feed_all (new_backfill_writer placeholder_matcher r) ps
      ≡ (replacement r (spell ty hex), new_backfill_writer placeholder_matcher r)
placeholder_chunks ty hex r ps t d short e =
    feed_rest ty hex r t d short [] ps e (omega (arith, ap length e))

stray_chars : (c : ℕ) → is_type_char c ≡ false → all_type_chars (c ∷ []) ≡ false
unfolding all_type_chars
stray_chars c h = ground arith

-- For a byte outside the type alphabet and a digest of 12 to 64 lowercase hex digits: `token_len`
-- takes the text spelled with that byte for its type as a complete token, whatever follows,
-- although `is_placeholder_prefix` refuses the head of it that ends in that byte.
pub stray_type :
    (c : ℕ) (hex y : Bytes)
    → is_type_char c ≡ false
    → IsDigest hex
    → (token_len (spell (c ∷ []) hex ++ y) ≡ length (spell (c ∷ []) hex))
      × (is_placeholder_prefix (placeholder_prefix ++ c ∷ []) ≡ false)
unfolding is_placeholder_prefix prefix_loop has_prefix
stray_type c hex y stray d =
    (token_len-spell (c ∷ []) hex y d (omega arith) (omega arith), stray_chars c stray)
