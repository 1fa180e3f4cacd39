-- ===== src/Protocol/Walk.antt =====
-- `Walk` of pkg/protocol/walk.go. `encoding/json` is a parameter: `decoder` gives the tokens of a
-- document with the offsets of `InputOffset` around each, and how they end; `is_utf8` is `utf8.Valid`.
-- The innermost open frame is the head of the stack.
pub mod Places
pub mod Leaves
use tokenhush.Base.{
  ℕ, zero, suc, ◌+◌, ◌-◌, ◌≤◌, ◌<◌, Bool, true, false, not, ◌&&◌, ◌||◌, Option, none, some, List,
  [], ◌∷◌, ◌++◌, Bytes, codes, ltb, leb, ◌==◌, if◌then◌else◌, length, take, drop, index,
}
use tokenhush.Protocol.Spelling.{RawToken, root, inner}
use tokenhush.Protocol.Leaf.{Leaf}
use tokenhush.Protocol.Identity.{
  max_identity_bytes, FrameScalar, Frame, WalkContext, Occurred, itoa, child, next_occurrence,
  join_identity, member_name, capture_scalar, scalar_raw,
}

abbrev pub max_nesting_depth : ℕ
max_nesting_depth = 10000

abbrev pub max_encoded_depth : ℕ
max_encoded_depth = 32

pub data WalkError : Type 0 where
  malformed_json trailing_data non_utf8 max_depth : WalkError

pub data Token : Type 0 where
  open_object open_array closes scalar : Token
  string_token : Bytes → Token

-- What the decoder reads: a token between two offsets, the end of the input, or an error. The
-- Boolean says that the error is its own nesting ceiling.
pub data Lexemes : Type 0 where
  eof : Lexemes
  broken : Bool → Lexemes
  lexeme : Token → ℕ → ℕ → Lexemes → Lexemes

abbrev pub JsonDecoder : Type 0
JsonDecoder = Bytes → Lexemes

-- `tokenError`.
unfoldable pub token_error : Bool → WalkError
token_error ceiling = if ceiling then max_depth else malformed_json

-- `strings.ReplaceAll` of one byte.
unfoldable pub replace_byte : ℕ → Bytes → Bytes → Bytes
replace_byte c rep [] = []
replace_byte c rep (x ∷ s) =
    if x == c then rep ++ replace_byte c rep s else x ∷ replace_byte c rep s

unfoldable pub escape_pointer : Bytes → Bytes
escape_pointer token = replace_byte b'/' (codes "~1") (replace_byte b'~' (codes "~0") token)

unfoldable pub child_segment : List Frame → Bytes
child_segment [] = []
child_segment (top ∷ stack) =
    b'/' ∷ (if top.is_object then escape_pointer top.key else itoa top.index)

unfoldable pub advance : List Frame → List Frame
advance [] = []
advance (top ∷ stack) =
    if top.is_object
    then record top { has_key = false } ∷ stack
    else record top { index = top.index + 1 } ∷ stack

unfoldable pub join_segs : List Frame → Bytes
join_segs [] = []
join_segs (f ∷ stack) = join_segs stack ++ f.seg

abbrev pub slice : Bytes → ℕ → ℕ → Bytes
slice s from to = take (to - from) (drop from s)

-- `tokenNode`. `bytes.IndexByte` gives -1 for a token with no quote.
unfoldable pub token_node : Bytes → ℕ → ℕ → Option RawToken → RawToken
token_node text start end enclosing =
    let open_at : ℕ = elim (index (b'"' ∷ []) (slice text start end)) [
      | none ↦ start - 1
      | some i ↦ start + i
    ] in
    elim enclosing [
      | none ↦ root (slice text (open_at + 1) (end - 1)) open_at
      | some parent ↦ inner (slice text (open_at + 1) (end - 1)) open_at parent
    ]

-- What `appendLeaf` appends for a string at a path, and the counter behind it.
abbrev pub Emit : Type 0
Emit = Bytes → Bytes → Bool → RawToken → WalkContext → Occurred → List Leaf × Occurred

-- The state of the loop of `walkValue`.
pub record WalkState : Type 0 where
  pub stack : List Frame
  pub out : List Leaf
  pub occurred : Occurred

-- What one token does: go on, end with the leaves, or fail.
pub data Stepped : Type 0 where
  going ended : WalkState → Stepped
  failed : WalkError → WalkState → Stepped

-- The parameters that one document keeps.
pub record Document : Type 0 where
  pub text : Bytes
  pub base : Bytes
  pub encoded : Bool
  pub enclosing : Option RawToken
  pub context : WalkContext

unfoldable pub emit_leaf : Emit → Document → WalkState → Bytes → Bytes → ℕ → ℕ → WalkState
emit_leaf emit doc st raw path start end =
    let (leaves, occurred) =
      emit raw path doc.encoded (token_node doc.text start end doc.enclosing)
        (child doc.context st.stack) st.occurred in
    record st { out = st.out ++ leaves; occurred = occurred }

-- A delimiter that opens.
unfoldable pub open_step : Bool → WalkState → Stepped
open_step is_object st =
    if leb max_nesting_depth (length st.stack)
    then failed max_depth st
    else going (record st {
      stack =
          (record {
            is_object = is_object;
            key = [];
            has_key = false;
            index = 0;
            seg = child_segment st.stack;
            scalars = [];
          })
          ∷ advance st.stack;
    })

-- A delimiter that closes.
unfoldable pub close_step : WalkState → Stepped
close_step st = elim st.stack [
  | [] ↦ failed malformed_json st
  | _ ∷ [] ↦ ended (record st { stack = [] })
  | _ ∷ f ∷ rest ↦ going (record st { stack = f ∷ rest })
]

-- A string.
unfoldable pub string_step : Emit → Document → WalkState → Bytes → ℕ → ℕ → Stepped
string_step emit doc st raw start end = elim st.stack [
  | [] ↦ ended (emit_leaf emit doc st raw doc.base start end)
  | top ∷ rest ↦
      if top.is_object && not top.has_key
      then going (record st { stack = record top { key = raw; has_key = true } ∷ rest })
      else (let st' = record st { stack = advance st.stack } in
          going (
            emit_leaf emit doc st' raw (doc.base ++ (join_segs st'.stack ++ child_segment st.stack))
              start end))
]

-- Any other scalar.
unfoldable pub scalar_step : Document → WalkState → ℕ → ℕ → Stepped
scalar_step doc st start end = elim st.stack [
  | [] ↦ ended st
  | top ∷ rest ↦
      if top.is_object && not top.has_key
      then failed malformed_json st
      else going (record st {
        stack =
            capture_scalar (advance st.stack) (member_name st.stack)
              (scalar_raw (slice doc.text start end));
      })
]

unfoldable pub token_step : Emit → Document → WalkState → Token → ℕ → ℕ → Stepped
token_step emit doc st open_object start end = open_step true st
token_step emit doc st open_array start end = open_step false st
token_step emit doc st closes start end = close_step st
token_step emit doc st scalar start end = scalar_step doc st start end
token_step emit doc st (string_token raw) start end = string_step emit doc st raw start end

-- The leaves of a value and the tokens behind it, or the error; the counter in both cases.
pub data Walked : Type 0 where
  leaves_of : List Leaf → Lexemes → Occurred → Walked
  walk_failed : WalkError → Occurred → Walked

-- The loop of `walkValue`.
unfoldable pub walk_value : Emit → Document → WalkState → Lexemes → Walked
walk_value emit doc st eof = walk_failed malformed_json st.occurred
walk_value emit doc st (broken ceiling) = walk_failed (token_error ceiling) st.occurred
walk_value emit doc st (lexeme t start end rest) = elim (token_step emit doc st t start end) [
  | going st' ↦ walk_value emit doc st' rest
  | ended st' ↦ leaves_of st'.out rest st'.occurred
  | failed e st' ↦ walk_failed e st'.occurred
]

abbrev pub start_state : Occurred → WalkState
start_state occurred = record { stack = []; out = []; occurred = occurred }

-- `walkDocument`: nothing may stand behind the value.
unfoldable pub walk_document : JsonDecoder → Emit → Document → Occurred → Walked
walk_document decoder emit doc occurred =
    elim (walk_value emit doc (start_state occurred) (decoder doc.text)) [
      | walk_failed e occurred' ↦ walk_failed e occurred'
      | leaves_of leaves rest occurred' ↦ elim rest [
        | eof ↦ leaves_of leaves eof occurred'
        | broken _ ↦ walk_failed trailing_data occurred'
        | lexeme _ _ _ _ ↦ walk_failed trailing_data occurred'
      ]
    ]

-- The end of `appendLeaf`: the string itself.
unfoldable pub literal_leaf :
    Bytes → Bytes → Bool → RawToken → WalkContext → Occurred → List Leaf × Occurred
literal_leaf raw path encoded tok ctx occurred =
    let (n, occurred') = next_occurrence occurred path in
    let identity = join_identity path ctx.inherited n in
    (
      (record {
        path = path;
        value = raw;
        length_of = length raw;
        encoded = encoded;
        member = ctx.member;
        key = ctx.key;
        identity = identity;
        identifiable = leb (length identity) max_identity_bytes;
        tok = some tok;
      })
          ∷ [],
      occurred',
    )

-- The inner document that `appendLeaf` tries.
abbrev pub inner_document : Bytes → Bytes → RawToken → WalkContext → Document
inner_document raw path tok ctx = record {
  text = raw;
  base = path;
  encoded = true;
  enclosing = some tok;
  context = ctx;
}

-- What becomes of the inner document.
unfoldable pub inner_or_literal :
    Walked → Bytes → Bytes → Bool → RawToken → WalkContext → List Leaf × Occurred
inner_or_literal (walk_failed e occurred) raw path encoded tok ctx =
    literal_leaf raw path encoded tok ctx occurred
inner_or_literal (leaves_of [] rest occurred) raw path encoded tok ctx =
    literal_leaf raw path encoded tok ctx occurred
inner_or_literal (leaves_of (l ∷ ls) rest occurred) raw path encoded tok ctx = (l ∷ ls, occurred)

-- `appendLeaf`, on the wrappers that may still be decoded: `MaxEncodedDepth` less the depth.
unfoldable pub append_leaf : JsonDecoder → ℕ → Emit
append_leaf decoder zero raw path encoded tok ctx occurred =
    literal_leaf raw path false tok ctx occurred
append_leaf decoder (suc budget) raw path encoded tok ctx occurred =
    inner_or_literal
      (walk_document decoder (append_leaf decoder budget) (inner_document raw path tok ctx)
        occurred)
      raw path encoded tok ctx

pub data WalkResult : Type 0 where
  walk_leaves : List Leaf → WalkResult
  walk_error : WalkError → WalkResult

abbrev pub result_of : Walked → WalkResult
result_of (leaves_of leaves rest occurred) = walk_leaves leaves
result_of (walk_failed e occurred) = walk_error e

abbrev pub whole_document : Bytes → Document
whole_document text = record {
  text = text;
  base = [];
  encoded = false;
  enclosing = none;
  context = record { inherited = []; member = false; key = [] };
}

unfoldable pub walk : (Bytes → Bool) → JsonDecoder → Bytes → WalkResult
walk is_utf8 decoder text =
    if not (is_utf8 text)
    then walk_error non_utf8
    else result_of
        (walk_document decoder (append_leaf decoder max_encoded_depth) (whole_document text) [])
