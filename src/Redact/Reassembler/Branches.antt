-- ===== src/Redact/Reassembler/Branches.antt =====
-- `acceptLeaf` keeps the state sound: its choice between the branches.
use tokenhush.Base.{
  ◌+◌, ◌-◌, ◌≤◌, ◌≡◌, Bool, true, false, not, ◌||◌, inl, inr, List, [], ◌++◌, Bytes, ltb, ◌==◌,
  if◌then◌else◌, length, take, bytes_eq, arith, Bool-cases, if-case, Option-cases, length-append,
}
use tokenhush.Protocol.Leaf.{Leaf}
use tokenhush.Protocol.Walk.{WalkResult, walk_leaves, walk_error}
use tokenhush.Redact.Grammar.{max_placeholder_len}
use tokenhush.Redact.Matcher.{token_len, prefix_len}
use tokenhush.Redact.Tokens.{trailing_prefix, unique_identity_match, has_identifiable_leaf}
use tokenhush.Redact.Tokens.Heads.{trailing_prefix-IsHead, prefix_len_full}
use tokenhush.Redact.Reassembler.{
  Host, walk_of, SseSegment, SseBackfiller, segment_value, fits_budget, handoff_writer,
  content_with,
}
use tokenhush.Redact.Reassembler.Accept.{
  accept_match, accept_leaves, keeps_origin, handled, unhandled, accept_leaf,
}
use tokenhush.Redact.Reassembler.Sound.{
  IsSound, Good, HandledGood, idle-IsSound, other-IsSound, alone-IsSound, complete-IsSound,
  more-IsSound, handoff-IsSound,
}

-- The tests for which a carry does not go on.
abbrev stops : SseBackfiller → SseSegment → Leaf → Bytes → Bytes → Bool
stops s seg m content combined =
    not (prefix_len combined == length combined)
    || ltb max_placeholder_len (length combined)
    || not (fits_budget s (length seg.raw + length content + length m.value))

module _ (shut : Bool) where
  goes_on :
      (s : SseBackfiller) (seg : SseSegment) (m : Leaf) (content combined : Bytes)
      → stops s seg m content combined ≡ false
      → (fits_budget s (length seg.raw + length content + length m.value) ≡ true)
        × (prefix_len combined ≡ length combined)
  goes_on s seg m content combined e = ground arith

  match-IsSound :
      (host : Host) (seg : SseSegment) (value : Bytes) (leaves : List Leaf) (m : Leaf)
      (s : SseBackfiller)
      → 1 ≤ length s.carry
      → IsSound shut s
      → IsSound shut (accept_match host seg value leaves m s).1
  unfolding accept_match
  match-IsSound host seg value leaves m s le h =
      let content = content_with host value leaves [] in
      let combined = s.carry ++ m.value in
      if-case (Good shut) (ltb (length s.carry) (token_len combined)) _ _
        (λ _.
          if-case (Good shut)
            (bytes_eq (host.restore (take (token_len combined) combined))
                (take (token_len combined) combined)
              || keeps_origin host s.carry_parts
                  (host.restore (take (token_len combined) combined)))
            _ _ (λ _. alone-IsSound shut seg content s h)
            (λ _.
              complete-IsSound shut host seg value leaves m (token_len combined - length s.carry)
                (host.restore (take (token_len combined) combined)) s h))
        (λ _.
          if-case (Good shut) (stops s seg m content combined) _ _
            (λ _. alone-IsSound shut seg content s h)
            (λ e.
              more-IsSound shut seg content m s ((goes_on s seg m content combined e).0)
                (prefix_len_full combined ((goes_on s seg m content combined e).1)
                  (omega (arith, length-append s.carry m.value)))
                h))

  leaves-IsSound :
      (host : Host) (seg : SseSegment) (value : Bytes) (leaves : List Leaf) (s : SseBackfiller)
      → IsSound shut s
      → IsSound shut (accept_leaves host seg value leaves s).1
  unfolding accept_leaves
  leaves-IsSound host seg value leaves s h = elim (Bool-cases (length s.carry == 0)) [
    | inl e ↦
        rw (e, accept_leaves)
          (idle-IsSound shut seg (content_with host value leaves []) (trailing_prefix leaves) s
            (trailing_prefix-IsHead leaves) h)
    | inr e ↦ elim (Option-cases (unique_identity_match leaves s.carry_key)) [
      | inl f ↦
          rw (f, e, accept_leaves)
            (other-IsSound shut seg (content_with host value leaves []) (trailing_prefix leaves) s
              (trailing_prefix-IsHead leaves) h)
      | inr (m, f) ↦
          rw (f, e, accept_leaves) (match-IsSound host seg value leaves m s (ground arith) h)
    ]
  ]

  pub leaf-IsSound :
      (host : Host) (seg : SseSegment) (s : SseBackfiller)
      → IsSound shut s
      → HandledGood shut (accept_leaf host seg s)
  unfolding accept_leaf
  leaf-IsSound host seg s h =
      if-case (HandledGood shut) (not (host.json_valid (segment_value seg))) _ _ (λ _. h)
        (λ _. go (walk_of host (segment_value seg)))
    where
      go :
          (w : WalkResult)
          → HandledGood shut (elim w [
            | walk_error e ↦ unhandled (handoff_writer s)
            | walk_leaves leaves ↦
                if not (has_identifiable_leaf leaves)
                then unhandled (handoff_writer s)
                else (let (out, s') =
                      accept_leaves host seg (segment_value seg) leaves (handoff_writer s) in
                    handled out s')
          ])
      go (walk_error e) = handoff-IsSound shut s h
      go (walk_leaves leaves) =
          if-case (HandledGood shut) (not (has_identifiable_leaf leaves)) _ _
            (λ _. handoff-IsSound shut s h)
            (λ _.
              leaves-IsSound host seg (segment_value seg) leaves (handoff_writer s)
                (handoff-IsSound shut s h))
