-- ===== src/Proxy/Resolve.antt =====
-- The routing of pkg/proxy/resolve.go. `trim_space` stands for `strings.TrimSpace`; `none` as a result
-- of `resolve` is `ErrUnknownUpstream`.
pub mod Longest
use tokenhush.Base.{
  ℕ, zero, suc, ◌+◌, ◌≤◌, ◌<◌, Bool, true, false, not, ◌&&◌, ◌||◌, Option, none, some, List, [],
  ◌∷◌, ◌++◌, Bytes, codes, ltb, leb, ◌==◌, if◌then◌else◌, length, bytes_eq, has_prefix, lookup,
}
use tokenhush.Supply.Revocation.{bytes_less}

pub record Upstream : Type 0 where
  pub base_url : Bytes
  pub is_local : Bool

-- An entry of `config.Upstreams`.
pub record ConfigUpstream : Type 0 where
  pub match : Bytes
  pub target : Bytes

abbrev pub anthropic_base_url : Bytes
anthropic_base_url = codes "https://api.anthropic.com"

abbrev pub openai_base_url : Bytes
openai_base_url = codes "https://api.openai.com"

abbrev pub openai : Upstream
openai = record { base_url = openai_base_url; is_local = false }

abbrev pub anthropic : Upstream
anthropic = record { base_url = anthropic_base_url; is_local = false }

abbrev pub builtin_routes : List (Bytes × Upstream)
builtin_routes =
    (codes "/v1/audio/speech", openai)
    ∷ (codes "/v1/audio/transcriptions", openai)
    ∷ (codes "/v1/audio/translations", openai)
    ∷ (codes "/v1/chat/completions", openai)
    ∷ (codes "/v1/completions", openai)
    ∷ (codes "/v1/embeddings", openai)
    ∷ (codes "/v1/images/edits", openai)
    ∷ (codes "/v1/images/generations", openai)
    ∷ (codes "/v1/moderations", openai)
    ∷ (codes "/v1/responses", openai)
    ∷ (codes "/v1/messages", anthropic)
    ∷ (codes "/v1/messages/batches", anthropic)
    ∷ (codes "/v1/messages/count_tokens", anthropic)
    ∷ (codes "/v1/models", record { base_url = []; is_local = true })
    ∷ []

-- The path in front of the first `?` or `#`.
unfoldable pub cut_query : Bytes → Bytes
cut_query [] = []
cut_query (c ∷ s) = if c == b'?' || c == b'#' then [] else c ∷ cut_query s

-- `strings.TrimRight(s, "/")`.
unfoldable pub trim_slashes : Bytes → Bytes
trim_slashes [] = []
trim_slashes (c ∷ s) = elim (trim_slashes s) [
  | [] ↦ (if c == b'/' then [] else c ∷ [])
  | d ∷ t ↦ c ∷ d ∷ t
]

-- `canonicalRoutePath`; `none` when the path is empty.
unfoldable pub canonical_route_path : Bytes → Option Bytes
canonical_route_path path =
    let cut = cut_query path in
    elim (if bytes_eq cut (codes "/") then cut else trim_slashes cut) [
      | [] ↦ none
      | c ∷ s ↦ some (c ∷ s)
    ]

unfoldable pub route_matches : Bytes → Bytes → Bool
route_matches key path =
    bytes_eq key path || bytes_eq key (codes "/") || has_prefix (key ++ codes "/") path

-- The key and the target of an entry that applies to the path.
unfoldable pub candidate : (Bytes → Bytes) → Bytes → ConfigUpstream → Option (Bytes × Bytes)
candidate trim_space path entry = elim (canonical_route_path (trim_space entry.match)) [
  | none ↦ none
  | some key ↦
      if not (route_matches key path)
      then none
      else elim (trim_slashes (trim_space entry.target)) [ [] ↦ none | c ∷ s ↦ some (key, c ∷ s) ]
]

-- The test that a key replaces the best key.
unfoldable pub better_key : Bytes → Bytes → Bool
better_key key best =
    ltb (length best) (length key) || (length key == length best && bytes_less key best)

unfoldable pub choose : Option (Bytes × Bytes) → Bytes × Bytes → Bytes × Bytes
choose none best = best
choose (some (key, target)) best = if better_key key best.0 then (key, target) else best

-- The loop of `configuredUpstream`.
unfoldable pub configured_loop :
    (Bytes → Bytes) → Bytes → List ConfigUpstream → Bytes × Bytes → Bytes × Bytes
configured_loop trim_space path [] best = best
configured_loop trim_space path (e ∷ es) best =
    configured_loop trim_space path es (choose (candidate trim_space path e) best)

unfoldable pub configured_upstream : (Bytes → Bytes) → Bytes → List ConfigUpstream → Option Upstream
configured_upstream trim_space path upstreams =
    let (key, target) = configured_loop trim_space path upstreams ([], []) in
    elim key [ [] ↦ none | _ ∷ _ ↦ some (record { base_url = target; is_local = false }) ]

unfoldable pub resolve : (Bytes → Bytes) → Bytes → List ConfigUpstream → Option Upstream
resolve trim_space path upstreams = elim (canonical_route_path path) [
  | none ↦ none
  | some canonical ↦ elim (configured_upstream trim_space canonical upstreams) [
    | some u ↦ some u
    | none ↦ lookup canonical builtin_routes
  ]
]
