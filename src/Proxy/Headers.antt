-- ===== src/Proxy/Headers.antt =====
-- `copyEndToEndHeaders` and `copyRequestHeaders` of pkg/proxy/forward.go. A header is a map from names
-- to values; `canonical` stands for `http.CanonicalHeaderKey`, `trim` for
-- `strings.TrimSpace`, `lower` for `strings.ToLower` and `equal_fold` for `strings.EqualFold`.
pub mod Names
pub mod Skipped
use tokenhush.Base.{
  ◌≡◌, ◌⊎◌, refl, ap, ◌∙◌, subst, inl, inr, Bool, true, false, ◌||◌, none, some, List, [], ◌∷◌,
  ◌++◌, Bytes, codes, ◌==◌, if◌then◌else◌, bytes_eq, bytes_eq_iff, lookup, insert, lookup-insert,
  arith, Bool-cases, map,
}

abbrev pub Header : Type 0
Header = List (Bytes × List Bytes)

-- What the header operations take from the libraries.
pub record Text : Type 0 where
  pub canonical : Bytes → Bytes
  pub trim : Bytes → Bytes
  pub lower : Bytes → Bytes
  pub equal_fold : Bytes → Bytes → Bool

abbrev pub hop_by_hop_headers : List Bytes
hop_by_hop_headers =
    codes "Connection"
    ∷ codes "Keep-Alive"
    ∷ codes "Proxy-Authenticate"
    ∷ codes "Proxy-Authorization"
    ∷ codes "Proxy-Connection"
    ∷ codes "Te"
    ∷ codes "Trailer"
    ∷ codes "Transfer-Encoding"
    ∷ codes "Upgrade"
    ∷ []

unfoldable pub contains_name : List Bytes → Bytes → Bool
contains_name [] name = false
contains_name (n ∷ ns) name = bytes_eq n name || contains_name ns name

-- `strings.Split(value, ",")`.
unfoldable pub split_loop : Bytes → Bytes → List Bytes
split_loop acc [] = acc ∷ []
split_loop acc (c ∷ s) = elim (c == b',') [
  | true ↦ acc ∷ split_loop [] s
  | false ↦ split_loop (acc ++ c ∷ []) s
]

unfoldable pub split_commas : Bytes → List Bytes
split_commas value = split_loop [] value

-- `header.Values`.
unfoldable pub values_of : Text → Bytes → Header → List Bytes
values_of text name header = elim (lookup (text.canonical name) header) [ none ↦ [] | some vs ↦ vs ]

-- The names that one `Connection` value adds.
unfoldable pub connection_names : Text → List Bytes → List Bytes
connection_names text [] = []
connection_names text (token ∷ tokens) = elim (text.trim token) [
  | [] ↦ connection_names text tokens
  | c ∷ name ↦ text.canonical (c ∷ name) ∷ connection_names text tokens
]

unfoldable pub connections : Text → List Bytes → List Bytes
connections text [] = []
connections text (value ∷ values) =
    connection_names text (split_commas value) ++ connections text values

-- The set `skip`.
unfoldable pub skipped_names : Text → Header → List Bytes
skipped_names text src =
    map text.canonical hop_by_hop_headers
    ++ connections text (values_of text (codes "Connection") src)

unfoldable pub copy_loop : Text → List Bytes → Header → Header → Header
copy_loop text skip dst [] = dst
copy_loop text skip dst ((name, values) ∷ src) = elim (contains_name skip (text.canonical name)) [
  | true ↦ copy_loop text skip dst src
  | false ↦ copy_loop text skip (insert (text.canonical name) values dst) src
]

unfoldable pub copy_end_to_end_headers : Text → Header → Header → Header
copy_end_to_end_headers text dst src = copy_loop text (skipped_names text src) dst src

-- `header.Del` and `header.Set`.
unfoldable pub delete_key : Bytes → Header → Header
delete_key key [] = []
delete_key key ((k, v) ∷ h) = if bytes_eq k key then delete_key key h else (k, v) ∷ delete_key key h

unfoldable pub copy_request_headers : Text → Header → Header → Header
copy_request_headers text dst src =
    delete_key (text.canonical (codes "Accept-Encoding")) (copy_end_to_end_headers text dst src)

-- `identityOnlyEncoding`.
unfoldable pub identity_tokens : Text → List Bytes → Bool
identity_tokens text [] = true
identity_tokens text (token ∷ tokens) =
    elim (text.equal_fold (text.trim token) (codes "identity")) [
      | true ↦ identity_tokens text tokens
      | false ↦ false
    ]

unfoldable pub identity_values : Text → List Bytes → Bool
identity_values text [] = true
identity_values text (value ∷ values) = elim (identity_tokens text (split_commas value)) [
  | true ↦ identity_values text values
  | false ↦ false
]

unfoldable pub identity_only_encoding : Text → Header → Bool
identity_only_encoding text header =
    identity_values text (values_of text (codes "Content-Encoding") header)
