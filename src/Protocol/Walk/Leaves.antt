-- ===== src/Protocol/Walk/Leaves.antt =====
-- What holds of every leaf that `Walk` gives, by induction on the tokens and on the wrappers.
use tokenhush.Base.{
  ℕ, zero, suc, ◌+◌, ◌≤◌, ◌<◌, ◌≡◌, refl, sym, ap, ◌∙◌, subst, Bool, true, false, not, ◌&&◌, Option,
  none, some, List, [], ◌∷◌, ◌++◌, Bytes, ltb, leb, length, arith, All, All-append, Bool-cases,
  if-case, inl, inr,
}
use tokenhush.Protocol.Spelling.{RawToken, root, inner}
use tokenhush.Protocol.Leaf.{Leaf}
use tokenhush.Protocol.Identity.{max_identity_bytes, Frame, WalkContext, Occurred, child}
use tokenhush.Protocol.Walk.Places.{HasString, Located, Placed, token_node-Located}
use tokenhush.Protocol.Walk.{
  max_encoded_depth, Token, open_object, open_array, closes, scalar, string_token, Lexemes, eof,
  broken, lexeme, JsonDecoder, advance, child_segment, join_segs, token_node, Emit, WalkState,
  Stepped, going, ended, failed, Document, emit_leaf, open_step, close_step, string_step,
  scalar_step, token_step, Walked, leaves_of, walk_failed, walk_value, start_state, walk_document,
  literal_leaf, inner_document, inner_or_literal, append_leaf, walk_leaves, trailing_data,
  result_of, whole_document, walk,
}

-- The string tokens that a token stands in, itself included.
abbrev pub depth : RawToken → ℕ
depth (root raw start) = 1
depth (inner raw start parent) = suc (depth parent)

abbrev pub depth_of : Option RawToken → ℕ
depth_of none = 0
depth_of (some tok) = depth tok

-- What is said of a leaf of a walk.
pub record IsWalked (decoder : JsonDecoder) (text : Bytes) (leaf : Leaf) : Type 0 where
  pub token : RawToken
  pub has_token : leaf.tok ≡ some token
  pub place : Located decoder text token leaf.value
  pub bounded : depth token ≤ max_encoded_depth + 1
  pub flag : leaf.encoded ≡ (ltb 1 (depth token) && leb (depth token) max_encoded_depth)
  pub measured : leaf.length_of ≡ length leaf.value
  pub identified : leaf.identifiable ≡ leb (length leaf.identity) max_identity_bytes

token_depth :
    (text : Bytes) (start end : ℕ) (enclosing : Option RawToken)
    → depth (token_node text start end enclosing) ≡ suc (depth_of enclosing)
unfolding token_node
token_depth text start end none = refl
token_depth text start end (some p) = refl

-- An emission that gives such leaves to the strings of the documents inside `d` wrappers.
abbrev Gives : JsonDecoder → Bytes → ℕ → Emit → Type 0
Gives decoder text d emit =
    (raw path : Bytes) (tok : RawToken) (ctx : WalkContext) (occ : Occurred)
    → depth tok ≡ suc d
    → Located decoder text tok raw
    → All (IsWalked decoder text) (emit raw path (ltb 0 d) tok ctx occ).0

-- The leaves of a step.
abbrev StepGood : JsonDecoder → Bytes → Stepped → Type 0
StepGood decoder text (going st) = All (IsWalked decoder text) st.out
StepGood decoder text (ended st) = All (IsWalked decoder text) st.out
StepGood decoder text (failed e st) = Unit

abbrev WalkGood : JsonDecoder → Bytes → Walked → Type 0
WalkGood decoder text (leaves_of ls rest occ) = All (IsWalked decoder text) ls
WalkGood decoder text (walk_failed e occ) = Unit

module _ (decoder : JsonDecoder) (text : Bytes) (d : ℕ) (emit : Emit)
    (gives : Gives decoder text d emit) (doc : Document) (flag : doc.encoded ≡ ltb 0 d)
    (level : depth_of doc.enclosing ≡ d) (placed : Placed decoder text doc.enclosing doc.text) where
  emit_leaf-All :
      (st : WalkState) (raw path : Bytes) (start end : ℕ)
      → HasString (decoder doc.text) raw start end
      → All (IsWalked decoder text) st.out
      → All (IsWalked decoder text) (emit_leaf emit doc st raw path start end).out
  unfolding emit_leaf
  emit_leaf-All st raw path start end s h =
      let tok = token_node doc.text start end doc.enclosing in
      let ctx = child doc.context st.stack in
      All-append (IsWalked decoder text) st.out (emit raw path doc.encoded tok ctx st.occurred).0 h
        (subst (λ b. All (IsWalked decoder text) (emit raw path b tok ctx st.occurred).0) (sym flag)
          (gives raw path tok ctx st.occurred
            (token_depth doc.text start end doc.enclosing ∙ ap suc level)
            (token_node-Located decoder text doc.text raw start end doc.enclosing placed s)))

  open_good :
      (b : Bool) (st : WalkState)
      → All (IsWalked decoder text) st.out
      → StepGood decoder text (open_step b st)
  unfolding open_step
  open_good b st h = ground arith

  close_good :
      (st : WalkState) (s : List Frame)
      → st.stack ≡ s
      → All (IsWalked decoder text) st.out
      → StepGood decoder text (close_step st)
  unfolding close_step
  close_good st [] e h = rw (e, close_step) tt
  close_good st (f ∷ []) e h = rw (e, close_step) h
  close_good st (f ∷ g ∷ s) e h = rw (e, close_step) h

  scalar_good :
      (st : WalkState) (s : List Frame) (start end : ℕ)
      → st.stack ≡ s
      → All (IsWalked decoder text) st.out
      → StepGood decoder text (scalar_step doc st start end)
  unfolding scalar_step
  scalar_good st [] start end e h = rw (e, scalar_step) h
  scalar_good st (f ∷ s) start end e h = rw (e, scalar_step) (ground arith)

  string_good :
      (st : WalkState) (s : List Frame) (raw : Bytes) (start end : ℕ)
      → st.stack ≡ s
      → HasString (decoder doc.text) raw start end
      → All (IsWalked decoder text) st.out
      → StepGood decoder text (string_step emit doc st raw start end)
  unfolding string_step
  string_good st [] raw start end e k h =
      rw (e, string_step) (emit_leaf-All st raw doc.base start end k h)
  string_good st (f ∷ s) raw start end e k h =
      let st' : WalkState = record st { stack = advance st.stack } in
      rw (e, string_step)
        (if-case (StepGood decoder text) (f.is_object && not f.has_key) _
          (going (
            emit_leaf emit doc st' raw
              (doc.base ++ (join_segs (advance st.stack) ++ child_segment st.stack)) start end))
          (λ _. h)
          (λ _.
            emit_leaf-All st' raw
              (doc.base ++ (join_segs (advance st.stack) ++ child_segment st.stack)) start end k h))

  token_good :
      (st : WalkState) (t : Token) (start end : ℕ)
      → ((raw : Bytes) → t ≡ string_token raw → HasString (decoder doc.text) raw start end)
      → All (IsWalked decoder text) st.out
      → StepGood decoder text (token_step emit doc st t start end)
  unfolding token_step
  token_good st open_object start end k h = open_good true st h
  token_good st open_array start end k h = open_good false st h
  token_good st closes start end k h = close_good st st.stack refl h
  token_good st scalar start end k h = scalar_good st st.stack start end refl h
  token_good st (string_token raw) start end k h =
      string_good st st.stack raw start end refl (k raw refl) h

  value_good :
      (st : WalkState) (ls : Lexemes)
      → ((v : Bytes) (a b : ℕ) → HasString ls v a b → HasString (decoder doc.text) v a b)
      → All (IsWalked decoder text) st.out
      → WalkGood decoder text (walk_value emit doc st ls)
  unfolding walk_value
  value_good st eof k h = tt
  value_good st (broken b) k h = tt
  value_good st (lexeme t start end rest) k h =
      go (λ st' g. value_good st' rest (λ v a b m. k v a b (inr m)) g)
        (token_step emit doc st t start end)
        (token_good st t start end (λ raw e. k raw start end (inl (e, refl, refl))) h)
    where
      go :
          ((st' : WalkState)
            → All (IsWalked decoder text) st'.out
            → WalkGood decoder text (walk_value emit doc st' rest))
          → (s : Stepped) → StepGood decoder text s
          → WalkGood decoder text (elim s [
            | going st' ↦ walk_value emit doc st' rest
            | ended st' ↦ leaves_of st'.out rest st'.occurred
            | failed e st' ↦ walk_failed e st'.occurred
          ])
      go later (going st') g = later st' g
      go later (ended st') g = g
      go later (failed e st') g = tt

  document_good : (occ : Occurred) → WalkGood decoder text (walk_document decoder emit doc occ)
  unfolding walk_document
  document_good occ =
      go (walk_value emit doc (start_state occ) (decoder doc.text))
        (value_good (start_state occ) (decoder doc.text) (λ v a b m. m) tt)
    where
      go :
          (w : Walked)
          → WalkGood decoder text w
          → WalkGood decoder text (elim w [
            | walk_failed e occurred' ↦ walk_failed e occurred'
            | leaves_of leaves rest occurred' ↦ elim rest [
              | eof ↦ leaves_of leaves eof occurred'
              | broken _ ↦ walk_failed trailing_data occurred'
              | lexeme _ _ _ _ ↦ walk_failed trailing_data occurred'
            ]
          ])
      go (walk_failed e occ) g = tt
      go (leaves_of ls eof occ) g = g
      go (leaves_of ls (broken b) occ) g = tt
      go (leaves_of ls (lexeme t a b r) occ) g = tt

literal_good :
    (decoder : JsonDecoder) (text : Bytes) (d : ℕ) (encoded : Bool) (raw path : Bytes)
    (tok : RawToken) (ctx : WalkContext) (occ : Occurred)
    → depth tok ≡ suc d
    → Located decoder text tok raw
    → d ≤ max_encoded_depth
    → encoded ≡ (ltb 0 d && ltb d max_encoded_depth)
    → All (IsWalked decoder text) (literal_leaf raw path encoded tok ctx occ).0
unfolding literal_leaf
literal_good decoder text d encoded raw path tok ctx occ e p b f = (
  record {
    token = tok;
    has_token = refl;
    place = p;
    bounded = omega arith;
    flag = ground arith;
    measured = refl;
    identified = refl;
  },
  tt,
)

inner_good :
    (decoder : JsonDecoder) (text : Bytes) (d : ℕ) (w : Walked) (raw path : Bytes) (tok : RawToken)
    (ctx : WalkContext)
    → depth tok ≡ suc d
    → Located decoder text tok raw
    → d < max_encoded_depth
    → WalkGood decoder text w
    → All (IsWalked decoder text) (inner_or_literal w raw path (ltb 0 d) tok ctx).0
unfolding inner_or_literal
inner_good decoder text d (walk_failed e occ) raw path tok ctx h p b g =
    literal_good decoder text d (ltb 0 d) raw path tok ctx occ h p (omega arith) (ground arith)
inner_good decoder text d (leaves_of [] rest occ) raw path tok ctx h p b g =
    literal_good decoder text d (ltb 0 d) raw path tok ctx occ h p (omega arith) (ground arith)
inner_good decoder text d (leaves_of (l ∷ ls) rest occ) raw path tok ctx h p b g = g

spent_good :
    (decoder : JsonDecoder) (text : Bytes)
    → Gives decoder text max_encoded_depth (append_leaf decoder zero)
unfolding append_leaf
spent_good decoder text raw path tok ctx occ e p =
    literal_good decoder text max_encoded_depth false raw path tok ctx occ e p (omega arith) refl

nested_good :
    (decoder : JsonDecoder) (text : Bytes) (budget d : ℕ)
    → d < max_encoded_depth
    → Gives decoder text (suc d) (append_leaf decoder budget)
    → Gives decoder text d (append_leaf decoder (suc budget))
unfolding append_leaf
nested_good decoder text budget d b gives raw path tok ctx occ e p =
    inner_good decoder text d
      (walk_document decoder (append_leaf decoder budget) (inner_document raw path tok ctx) occ) raw
      path tok ctx e p b
      (document_good decoder text (suc d) (append_leaf decoder budget) gives
        (inner_document raw path tok ctx) (ground arith) e p occ)

append_leaf-Gives :
    (decoder : JsonDecoder) (text : Bytes) (budget d : ℕ)
    → budget + d ≡ max_encoded_depth
    → Gives decoder text d (append_leaf decoder budget)
append_leaf-Gives decoder text zero d h =
    subst (λ k. Gives decoder text k (append_leaf decoder zero)) {x = max_encoded_depth}
      (omega arith) (spent_good decoder text)
append_leaf-Gives decoder text (suc budget) d h =
    nested_good decoder text budget d (omega arith)
      (append_leaf-Gives decoder text budget (suc d) (omega arith))

-- For every decoder: each leaf that `Walk` gives has the place of its token. The lexer reads the
-- leaf's value there, as a string of the document or of the string that the token around it stands
-- for, and so on out to the document; the token opens at the first quote between the lexer's offsets,
-- or one byte in front of them where there is none, and its raw bytes are those from behind that place
-- to the last byte between the offsets, which is left out. At most `MaxEncodedDepth` wrappers stand
-- around the token; the leaf is marked as encoded exactly when it has a wrapper and fewer than
-- `MaxEncodedDepth`; its length is that of its value; and it is identifiable exactly when its identity
-- has at most 1024 bytes.
pub walk_leaves_lem :
    (is_utf8 : Bytes → Bool) (decoder : JsonDecoder) (text : Bytes) (leaves : List Leaf)
    → walk is_utf8 decoder text ≡ walk_leaves leaves
    → All (IsWalked decoder text) leaves
unfolding walk
walk_leaves_lem is_utf8 decoder text leaves h = elim (Bool-cases (is_utf8 text)) [
  | inr e ↦ cc (rw (e, walk) at h)
  | inl e ↦
      go leaves
        (walk_document decoder (append_leaf decoder max_encoded_depth) (whole_document text) [])
        (document_good decoder text 0 (append_leaf decoder max_encoded_depth)
          (append_leaf-Gives decoder text max_encoded_depth 0 (omega arith)) (whole_document text)
          refl refl refl [])
        (rw (e, walk) at h)
]
  where
    go :
        (ls : List Leaf) (w : Walked)
        → WalkGood decoder text w
        → result_of w ≡ walk_leaves ls
        → All (IsWalked decoder text) ls
    go ls (leaves_of ks rest occ) g h = subst (All (IsWalked decoder text)) (cc) g
    go ls (walk_failed e occ) g h = cc
