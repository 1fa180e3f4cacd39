-- ===== src/Protocol/Span/Mapped.antt =====
-- Where `mapSpan` and `RawSpan` put a decoded span: in the raw bytes of the token, in order.
use tokenhush.Base.{
  ℕ, zero, suc, ◌+◌, ◌-◌, ◌≤◌, ◌<◌, ◌≡◌, refl, sym, ap, ◌∙◌, ◌≢◌, subst, inl, inr, true, ◌&&◌, none,
  some, [], ◌∷◌, Bytes, ltb, leb, if◌then◌else◌, length, drop, length-drop, arith, Bool-cases,
  Option-cases,
}
use tokenhush.Protocol.Spelling.{RawToken, root, inner}
use tokenhush.Protocol.Leaf.{Leaf}
use tokenhush.Protocol.Span.{
  rune_size, low_surrogate, unicode_unit, next_unit, decoded_loop, decoded_len, map_loop, map_span,
  raw_span_loop, raw_span,
}

rune_size_bounds :
    (c : ℕ) (s : Bytes) → (1 ≤ rune_size (c ∷ s)) × (rune_size (c ∷ s) ≤ length (c ∷ s))
unfolding rune_size
rune_size_bounds c [] = omega arith
rune_size_bounds c (d ∷ []) = ground arith
rune_size_bounds c (d ∷ e ∷ []) = ground arith
rune_size_bounds c (d ∷ e ∷ f ∷ s) = ground arith

low_surrogate_len : (s : Bytes) → low_surrogate s ≡ true → 6 ≤ length s
unfolding low_surrogate
low_surrogate_len [] h = cc
low_surrogate_len (a ∷ []) h = cc
low_surrogate_len (a ∷ b ∷ s) h = ground arith

unicode_unit_bounds : (s : Bytes) → (1 ≤ (unicode_unit s).0) × ((unicode_unit s).0 ≤ length s + 2)
unfolding unicode_unit
unicode_unit_bounds s = ground (arith, low_surrogate_len (drop 4 s), length-drop 4 s)

-- A unit has a raw byte at least, and ends in the text.
pub next_unit_bounds :
    (c : ℕ) (s : Bytes) → (1 ≤ (next_unit (c ∷ s)).0) × ((next_unit (c ∷ s)).0 ≤ length (c ∷ s))
unfolding next_unit
next_unit_bounds c [] = omega arith
next_unit_bounds c (d ∷ s) = ground (arith, rune_size_bounds c (d ∷ s), unicode_unit_bounds s)

-- The rest behind a unit.
abbrev rest_of : ℕ → Bytes → Bytes
rest_of c s = drop (next_unit (c ∷ s)).0 (c ∷ s)

rest_bound :
    (c : ℕ) (s : Bytes)
    → (length (rest_of c s) < length (c ∷ s))
      × ((next_unit (c ∷ s)).0 + length (rest_of c s) ≡ length (c ∷ s))
rest_bound c s = omega (arith, next_unit_bounds c s, length-drop (next_unit (c ∷ s)).0 (c ∷ s))

decoded_step :
    (f : ℕ) (c : ℕ) (s : Bytes)
    → decoded_loop (suc f) (c ∷ s) ≡ (next_unit (c ∷ s)).1 + decoded_loop f (rest_of c s)
unfolding decoded_loop
decoded_step f c s = refl

decoded_out : (raw : Bytes) → decoded_loop zero raw ≡ 0
unfolding decoded_loop
decoded_out raw = refl

decoded_nil : (f : ℕ) → decoded_loop (suc f) [] ≡ 0
unfolding decoded_loop
decoded_nil f = refl

module _ (start end : ℕ) where
  abbrev new_rs : ℕ → ℕ → ℕ → ℕ → ℕ
  new_rs i d k rs = if leb d start && ltb start (d + k) then i else rs

  abbrev new_re : ℕ → ℕ → ℕ → ℕ → ℕ
  new_re j d k re = if leb d (end - 1) && ltb (end - 1) (d + k) then j else re

  map_step :
      (f c : ℕ) (s : Bytes) (i d rs re : ℕ)
      → map_loop (suc f) (c ∷ s) i d start end (rs, re)
        ≡ map_loop f
            (rest_of c s)
            (i + (next_unit (c ∷ s)).0)
            (d + (next_unit (c ∷ s)).1)
            start
            end
            (
              new_rs i d (next_unit (c ∷ s)).1 rs,
              new_re (i + (next_unit (c ∷ s)).0) d (next_unit (c ∷ s)).1 re,
            )
  unfolding map_loop
  map_step f c s i d rs re = refl

  -- A start in front of the bytes left stands, and an end that is not behind them too.
  map_past :
      (f : ℕ) (raw : Bytes) (i d rs re : ℕ)
      → (start < d → (map_loop f raw i d start end (rs, re)).0 ≡ rs)
        × (0 < end → end ≤ d → (map_loop f raw i d start end (rs, re)).1 ≡ re)
  map_past zero raw i d rs re = unfold map_loop in ((λ h. refl), (λ g h. refl))
  map_past (suc f) [] i d rs re = unfold map_loop in ((λ h. refl), (λ g h. refl))
  map_past (suc f) (c ∷ s) i d rs re =
      let j = (next_unit (c ∷ s)).0 in
      let k = (next_unit (c ∷ s)).1 in
      let (p, q) =
        map_past f (rest_of c s) (i + j) (d + k) (new_rs i d k rs) (new_re (i + j) d k re) in
      (
        (λ h. ap (λ (t : ℕ × ℕ). t.0) (map_step f c s i d rs re) ∙ p (omega arith) ∙ ground arith),
        (λ g h.
            ap (λ (t : ℕ × ℕ). t.1) (map_step f c s i d rs re) ∙ q g (omega arith) ∙ ground arith),
      )

  -- Neither offset leaves the text.
  map_inside :
      (f : ℕ) (raw : Bytes) (i d rs re n : ℕ)
      → i + length raw ≤ n
      → rs ≤ n
      → re ≤ n
      → ((map_loop f raw i d start end (rs, re)).0 ≤ n)
        × ((map_loop f raw i d start end (rs, re)).1 ≤ n)
  map_inside zero raw i d rs re n h a b = unfold map_loop in (a, b)
  map_inside (suc f) [] i d rs re n h a b = unfold map_loop in (a, b)
  map_inside (suc f) (c ∷ s) i d rs re n h a b =
      let j = (next_unit (c ∷ s)).0 in
      let k = (next_unit (c ∷ s)).1 in
      subst (λ (t : ℕ × ℕ). (t.0 ≤ n) × (t.1 ≤ n)) (sym (map_step f c s i d rs re))
        (map_inside f (rest_of c s) (i + j) (d + k) (new_rs i d k rs) (new_re (i + j) d k re) n
          (omega (arith, rest_bound c s)) (ground arith) (ground (arith, rest_bound c s)))

  -- An end in the bytes left is found behind their first byte.
  map_end :
      (f : ℕ) (raw : Bytes) (i d rs re : ℕ)
      → d < end
      → end ≤ d + decoded_loop f raw
      → i < (map_loop f raw i d start end (rs, re)).1
  map_end zero raw i d rs re h b = absurd (omega (arith, decoded_out raw))
  map_end (suc f) [] i d rs re h b = absurd (omega (arith, decoded_nil f))
  map_end (suc f) (c ∷ s) i d rs re h b =
      let j = (next_unit (c ∷ s)).0 in
      let k = (next_unit (c ∷ s)).1 in
      let rs' = new_rs i d k rs in
      let re' = new_re (i + j) d k re in
      subst (λ (t : ℕ × ℕ). i < t.1) (sym (map_step f c s i d rs re))
        (elim (Bool-cases (ltb (end - 1) (d + k))) [
          | inl here ↦
              let same =
                (map_past f (rest_of c s) (i + j) (d + k) rs' re').1 (omega arith) (ground arith) in
              ground (arith, same, next_unit_bounds c s)
          | inr later ↦
              let far =
                map_end f (rest_of c s) (i + j) (d + k) rs' re' (ground arith)
                  (omega (arith, decoded_step f c s)) in
              omega (arith, far)
        ])

  -- A start and a later end in the bytes left are found in order.
  map_ordered :
      (f : ℕ) (raw : Bytes) (i d rs re : ℕ)
      → d ≤ start
      → start < end
      → end ≤ d + decoded_loop f raw
      → (map_loop f raw i d start end (rs, re)).0 < (map_loop f raw i d start end (rs, re)).1
  map_ordered zero raw i d rs re h lt b = absurd (omega (arith, decoded_out raw))
  map_ordered (suc f) [] i d rs re h lt b = absurd (omega (arith, decoded_nil f))
  map_ordered (suc f) (c ∷ s) i d rs re h lt b =
      let j = (next_unit (c ∷ s)).0 in
      let k = (next_unit (c ∷ s)).1 in
      let rs' = new_rs i d k rs in
      let re' = new_re (i + j) d k re in
      let step = decoded_step f c s in
      subst (λ (t : ℕ × ℕ). t.0 < t.1) (sym (map_step f c s i d rs re))
        (elim (Bool-cases (ltb start (d + k))) [
          | inr later ↦
              map_ordered f (rest_of c s) (i + j) (d + k) rs' re' (ground arith) lt
                (omega (arith, step))
          | inl here ↦
              let from = (map_past f (rest_of c s) (i + j) (d + k) rs' re').0 (ground arith) in
              elim (Bool-cases (ltb (end - 1) (d + k))) [
                | inl both ↦
                    let to =
                      (map_past f (rest_of c s) (i + j) (d + k) rs' re').1 (omega arith)
                        (ground arith) in
                    ground (arith, from, to, next_unit_bounds c s)
                | inr later ↦
                    let to =
                      map_end f (rest_of c s) (i + j) (d + k) rs' re' (ground arith)
                        (omega (arith, step)) in
                    ground (arith, from, to)
              ]
        ])

-- A span that is not empty maps to raw bytes that are not empty and lie in the token.
pub map_span_bounds :
    (raw : Bytes) (start end rs re : ℕ)
    → start < end
    → map_span raw start end ≡ some (rs, re)
    → (rs < re) × (re ≤ length raw)
unfolding map_span decoded_len
map_span_bounds raw start end rs re lt h =
    let n = length raw in
    let r = map_loop n raw 0 0 start end (0, 0) in
    let inside = map_inside start end n raw 0 0 0 0 n (omega arith) (omega arith) (omega arith) in
    let order = λ (b : end ≤ 0 + decoded_loop n raw).
      map_ordered start end n raw 0 0 0 0 (omega arith) lt b in
    ground (arith, inside, order)

raw_loop_step :
    (raw : Bytes) (st : ℕ) (parent : RawToken) (a b c d : ℕ)
    → map_span raw a b ≡ some (c, d)
    → raw_span_loop (inner raw st parent) a b ≡ raw_span_loop parent (c + (st + 1)) (d + (st + 1))
unfolding raw_span_loop
raw_loop_step raw st parent a b c d h = rw (h, raw_span_loop)

inner_none :
    (raw : Bytes) (st : ℕ) (parent : RawToken) (a b rs re : ℕ)
    → map_span raw a b ≡ none
    → raw_span_loop (inner raw st parent) a b ≢ some (rs, re)
unfolding raw_span_loop
inner_none raw st parent a b rs re e h = cc (rw (e, raw_span_loop) at h)

root_none :
    (raw : Bytes) (st a b rs re : ℕ)
    → map_span raw a b ≡ none
    → raw_span_loop (root raw st) a b ≢ some (rs, re)
unfolding raw_span_loop
root_none raw st a b rs re e h = cc (rw (e, raw_span_loop) at h)

root_some :
    (raw : Bytes) (st a b c d rs re : ℕ)
    → map_span raw a b ≡ some (c, d)
    → raw_span_loop (root raw st) a b ≡ some (rs, re)
    → (c + (st + 1) ≡ rs) × (d + (st + 1) ≡ re)
unfolding raw_span_loop
root_some raw st a b c d rs re e h =
    let h' : some (c + (st + 1), d + (st + 1)) ≡ some (rs, re) = rw (e, raw_span_loop) at h in
    (cc h', cc h')

-- The token of the document itself, behind all wrappers.
abbrev pub outer_start : RawToken → ℕ
outer_start (root raw start) = start
outer_start (inner raw start parent) = outer_start parent

abbrev pub outer_raw : RawToken → Bytes
outer_raw (root raw start) = raw
outer_raw (inner raw start parent) = outer_raw parent

raw_loop_bounds :
    (tok : RawToken) (a b rs re : ℕ)
    → a < b
    → raw_span_loop tok a b ≡ some (rs, re)
    → (rs < re) × (outer_start tok < rs) × (re ≤ outer_start tok + 1 + length (outer_raw tok))
raw_loop_bounds (root raw st) a b rs re lt h = elim (Option-cases (map_span raw a b)) [
  | inl off ↦ absurd (root_none raw st a b rs re off h)
  | inr ((c, d), e) ↦
      let (x, y) = map_span_bounds raw a b c d lt e in
      let (p, q) = root_some raw st a b c d rs re e h in (omega arith, omega arith, omega arith)
]
raw_loop_bounds (inner raw st parent) a b rs re lt h = elim (Option-cases (map_span raw a b)) [
  | inl off ↦ absurd (inner_none raw st parent a b rs re off h)
  | inr ((c, d), e) ↦
      let (x, y) = map_span_bounds raw a b c d lt e in
      raw_loop_bounds parent (c + (st + 1)) (d + (st + 1)) rs re (omega arith)
        (sym (raw_loop_step raw st parent a b c d e) ∙ h)
]

raw_span-some :
    (leaf : Leaf) (start end rs re : ℕ)
    → raw_span leaf start end ≡ some (rs, re)
    → (tok : RawToken) × (leaf.tok ≡ some tok) × (raw_span_loop tok start end ≡ some (rs, re))
unfolding raw_span
raw_span-some leaf start end rs re h = elim (Option-cases leaf.tok) [
  | inl e ↦ cc (rw (e, raw_span) at h)
  | inr (tok, e) ↦ let h' = rw (e, raw_span) at h in (tok, e, ground arith)
]

-- A leaf's span that is not empty and is located: its raw bytes are not empty, and they lie between
-- the quotes of the token of the document that holds the leaf.
pub raw_span_bounds :
    (leaf : Leaf) (start end rs re : ℕ)
    → start < end
    → raw_span leaf start end ≡ some (rs, re)
    → (tok : RawToken) × (leaf.tok ≡ some tok)
      × (rs < re)
      × (outer_start tok < rs)
      × (re ≤ outer_start tok + 1 + length (outer_raw tok))
raw_span_bounds leaf start end rs re lt h =
    let (tok, e, loop) = raw_span-some leaf start end rs re h in
    let (x, y, z) = raw_loop_bounds tok start end rs re lt loop in (tok, e, x, y, z)
