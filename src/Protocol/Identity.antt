-- ===== src/Protocol/Identity.antt =====
-- pkg/protocol/identity.go: the channel identity of a leaf, from its path, the scalars in front of it
-- in the open frames, and its occurrence. The innermost frame of a stack is its head.
use tokenhush.Base.{
  ℕ, zero, suc, ◌+◌, ◌/◌, ◌%◌, Bool, true, false, not, ◌||◌, none, some, List, [], ◌∷◌, ◌++◌, Bytes,
  ltb, ◌==◌, if◌then◌else◌, lookup, insert,
}

abbrev pub max_identity_bytes : ℕ
max_identity_bytes = 1024

abbrev pub identity_sep : ℕ
identity_sep = 0x1f

pub record FrameScalar : Type 0 where
  pub name : Bytes
  pub raw : Bytes

-- `frame` of walk.go.
pub record Frame : Type 0 where
  pub is_object : Bool
  pub key : Bytes
  pub has_key : Bool
  pub index : ℕ
  pub seg : Bytes
  pub scalars : List FrameScalar

-- `walkContext`, but for its counter, which the whole call shares.
pub record WalkContext : Type 0 where
  pub inherited : List FrameScalar
  pub member : Bool
  pub key : Bytes

-- The counter `occurred`.
abbrev pub Occurred : Type 0
Occurred = List (Bytes × ℕ)

-- `strconv.Itoa`, on fuel.
unfoldable pub decimal_loop : ℕ → ℕ → Bytes → Bytes
decimal_loop zero n out = out
decimal_loop (suc fuel) n out =
    let rest = decimal_loop fuel (n / 10) ((b'0' + n % 10) ∷ out) in
    if ltb n 10 then (b'0' + n) ∷ out else rest

unfoldable pub itoa : ℕ → Bytes
itoa n = decimal_loop (n + 1) n []

unfoldable pub flatten_scalars : List Frame → List FrameScalar
flatten_scalars [] = []
flatten_scalars (f ∷ stack) = flatten_scalars stack ++ f.scalars

unfoldable pub member_key : List Frame → Bool × Bytes
member_key [] = (false, [])
member_key (top ∷ stack) = if not top.is_object then (false, []) else (true, top.key)

-- `child`.
unfoldable pub child : WalkContext → List Frame → WalkContext
child c stack =
    let (member, key) = member_key stack in
    record { inherited = c.inherited ++ flatten_scalars stack; member = member; key = key }

-- `next`: the occurrence of the path, and the counter behind it.
unfoldable pub next_occurrence : Occurred → Bytes → ℕ × Occurred
next_occurrence occurred path = elim (lookup path occurred) [
  | none ↦ (0, insert path 1 occurred)
  | some n ↦ (n, insert path (n + 1) occurred)
]

unfoldable pub render_scalars : List FrameScalar → Bytes
render_scalars [] = []
render_scalars (s ∷ ss) = identity_sep ∷ (s.name ++ (b'=' ∷ (s.raw ++ render_scalars ss)))

unfoldable pub join_identity : Bytes → List FrameScalar → ℕ → Bytes
join_identity path scalars occurrence =
    path ++ (render_scalars scalars ++ (identity_sep ∷ itoa occurrence))

unfoldable pub member_name : List Frame → Bytes
member_name [] = []
member_name (top ∷ stack) = if top.is_object then top.key else itoa top.index

unfoldable pub capture_scalar : List Frame → Bytes → Bytes → List Frame
capture_scalar [] name raw = []
capture_scalar (top ∷ stack) name raw =
    record top { scalars = top.scalars ++ record { name = name; raw = raw } ∷ [] } ∷ stack

unfoldable pub is_skipped : ℕ → Bool
is_skipped c = c == b' ' || c == b'\t' || c == b'\r' || c == b'\n' || c == b',' || c == b':'

-- `scalarRaw`, of the slice `data[start:end]`.
unfoldable pub scalar_raw : Bytes → Bytes
scalar_raw [] = []
scalar_raw (c ∷ s) = elim (is_skipped c) [ true ↦ scalar_raw s | false ↦ c ∷ s ]
