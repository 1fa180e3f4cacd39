-- ===== src/Tests/Proxy.antt =====
-- The routing at a concrete configuration: two entries that both apply.
use tokenhush.Base.{◌≡◌, ◌⊎◌, refl, some, List, [], ◌∷◌, Bytes, codes, lookup, All, bytes_eq}
use tokenhush.Proxy.Resolve.{
  ConfigUpstream, builtin_routes, cut_query, trim_slashes, canonical_route_path, candidate, resolve,
}
use tokenhush.Proxy.Resolve.Longest.{key_length, IsConfigured, resolve_longest}

abbrev trim : Bytes → Bytes
trim s = s

abbrev upstreams : List ConfigUpstream
upstreams =
    record { match = codes "/v1"; target = codes "http://a/" }
    ∷ record { match = codes "/v1/chat/"; target = codes "http://b" }
    ∷ []

chat_canonical :
    canonical_route_path (codes "/v1/chat/completions?x=1") ≡ some (codes "/v1/chat/completions")
unfolding canonical_route_path cut_query trim_slashes bytes_eq
chat_canonical = refl

resolve_longest_example :
    IsConfigured trim (codes "/v1/chat/completions?x=1") (codes "/v1/chat/completions") upstreams
    ⊎ (All
          (λ (e : ConfigUpstream). key_length (candidate trim (codes "/v1/chat/completions") e) ≡ 0)
          upstreams
        × (resolve trim (codes "/v1/chat/completions?x=1") upstreams
            ≡ lookup (codes "/v1/chat/completions") builtin_routes))
resolve_longest_example =
    resolve_longest trim (codes "/v1/chat/completions?x=1") (codes "/v1/chat/completions") upstreams
      chat_canonical
