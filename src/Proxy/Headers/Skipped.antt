-- ===== src/Proxy/Headers/Skipped.antt =====
-- What `copyEndToEndHeaders` never copies.
use tokenhush.Base.{
  ◌≡◌, ◌⊎◌, refl, ap, sym, ◌∙◌, subst, inl, inr, true, false, none, some, List, [], ◌∷◌, Bytes,
  codes, bytes_eq, bytes_eq_iff, lookup, insert, lookup-insert, arith, Bool-cases, map, ℕ, All,
  get_elem?,
}
use tokenhush.Proxy.Headers.{
  Text, Header, hop_by_hop_headers, contains_name, split_commas, values_of, connection_names,
  connections, skipped_names, copy_loop, copy_end_to_end_headers, delete_key, copy_request_headers,
}
use tokenhush.Proxy.Headers.Names.{
  IsPlain, join_commas, contains-append_left, contains-append_right, split-join, contains_canonical,
  connection_names-contains, connections-contains,
}

module _ (text : Text) (skip : List Bytes) where
  copy_skip :
      (dst src : Header) (name : Bytes) (vs : List Bytes)
      → contains_name skip (text.canonical name) ≡ true
      → copy_loop text skip dst ((name, vs) ∷ src) ≡ copy_loop text skip dst src
  unfolding copy_loop
  copy_skip dst src name vs e = rw (e, copy_loop)

  copy_take :
      (dst src : Header) (name : Bytes) (vs : List Bytes)
      → contains_name skip (text.canonical name) ≡ false
      → copy_loop text skip dst ((name, vs) ∷ src)
        ≡ copy_loop text skip (insert (text.canonical name) vs dst) src
  unfolding copy_loop
  copy_take dst src name vs e = rw (e, copy_loop)

  -- A skipped name keeps what it had.
  copy_loop-skipped :
      (dst src : Header) (key : Bytes)
      → contains_name skip key ≡ true
      → lookup key (copy_loop text skip dst src) ≡ lookup key dst
  copy_loop-skipped dst [] key h = unfold copy_loop in refl
  copy_loop-skipped dst ((name, vs) ∷ src) key h =
      elim (Bool-cases (contains_name skip (text.canonical name))) [
        | inl e ↦ ap (lookup key) (copy_skip dst src name vs e) ∙ copy_loop-skipped dst src key h
        | inr e ↦
            ap (lookup key) (copy_take dst src name vs e)
            ∙ copy_loop-skipped (insert (text.canonical name) vs dst) src key h
            ∙ untouched dst name vs key e h
      ]
    where
      untouched :
          (dst : Header) (name : Bytes) (vs : List Bytes) (key : Bytes)
          → contains_name skip (text.canonical name) ≡ false
          → contains_name skip key ≡ true
          → lookup key (insert (text.canonical name) vs dst) ≡ lookup key dst
      untouched dst name vs key e h = elim (Bool-cases (bytes_eq (text.canonical name) key)) [
        | inr f ↦ lookup-insert (text.canonical name) key vs dst ∙ rw f
        | inl f ↦ absurd (
            cc (
              subst (λ k. contains_name skip k ≡ false)
                  ((bytes_eq_iff (text.canonical name) key).0 f) e,
              h,
            ))
      ]

-- The headers that belong to one connection: those of RFC 7230 and RFC 7235, with `Keep-Alive` and
-- `Proxy-Connection`.
abbrev pub connection_headers : List Bytes
connection_headers =
    codes "Connection"
    ∷ codes "Keep-Alive"
    ∷ codes "Proxy-Authenticate"
    ∷ codes "Proxy-Authorization"
    ∷ codes "Proxy-Connection"
    ∷ codes "Te"
    ∷ codes "Trailer"
    ∷ codes "Transfer-Encoding"
    ∷ codes "Upgrade"
    ∷ []

-- The key is that of such a header.
pub record IsHop (text : Text) (key : Bytes) : Type 0 where
  pub k : ℕ
  pub name : Bytes
  pub listed : get_elem? connection_headers k ≡ some name
  pub spelled : key ≡ text.canonical name

-- The key is that of a name which a value of the `Connection` header lists, between commas and
-- perhaps spaces.
pub record IsNamed (text : Text) (src : Header) (key : Bytes) : Type 0 where
  pub values : List Bytes
  pub header : lookup (text.canonical (codes "Connection")) src ≡ some values
  pub j : ℕ
  pub first : Bytes
  pub others : List Bytes
  pub value : get_elem? values j ≡ some (join_commas (first ∷ others))
  pub plain : IsPlain first × All IsPlain others
  pub k : ℕ
  pub token : Bytes
  pub listed : get_elem? (first ∷ others) k ≡ some token
  pub c : ℕ
  pub name : Bytes
  pub trimmed : text.trim token ≡ c ∷ name
  pub spelled : key ≡ text.canonical (c ∷ name)

IsHop-skipped :
    (text : Text) (src : Header) (key : Bytes)
    → IsHop text key
    → contains_name (skipped_names text src) key ≡ true
unfolding skipped_names
IsHop-skipped text src key h = contains-append_left (map text.canonical hop_by_hop_headers) _ key (
    subst (λ x. contains_name (map text.canonical hop_by_hop_headers) x ≡ true) (sym h.spelled)
      (contains_canonical text hop_by_hop_headers h.k h.name h.listed))

IsNamed-skipped :
    (text : Text) (src : Header) (key : Bytes)
    → IsNamed text src key
    → contains_name (skipped_names text src) key ≡ true
unfolding skipped_names values_of
IsNamed-skipped text src key h =
    let tokens : split_commas (join_commas (h.first ∷ h.others)) ≡ h.first ∷ h.others =
      split-join h.first h.others h.plain.0 h.plain.1 in
    let name : contains_name (connection_names text (h.first ∷ h.others)) key ≡ true =
      subst (λ x. contains_name (connection_names text (h.first ∷ h.others)) x ≡ true)
        (sym h.spelled)
        (connection_names-contains text (h.first ∷ h.others) h.k h.token h.c h.name h.listed
          h.trimmed) in
    rw (h.header, values_of)
      (contains-append_right (map text.canonical hop_by_hop_headers) (connections text h.values) key
        (connections-contains text h.values h.j (join_commas (h.first ∷ h.others)) key h.value
          (subst (λ ts. contains_name (connection_names text ts) key ≡ true) (sym tokens) name)))

-- For every header: no header that belongs to one connection, and no name that a value of the
-- `Connection` header lists between its commas, trimmed, is copied into an empty header, neither for a
-- response nor for a request.
pub headers_end_to_end :
    (text : Text) (src : Header) (key : Bytes)
    → IsHop text key ⊎ IsNamed text src key
    → (lookup key (copy_end_to_end_headers text [] src) ≡ none)
      × (lookup key (copy_request_headers text [] src) ≡ none)
unfolding copy_end_to_end_headers copy_request_headers lookup delete_key
headers_end_to_end text src key h =
    let gone =
      copy_loop-skipped text (skipped_names text src) [] src key (skipped h) ∙ lookup-nil key in
    (gone, delete_none (text.canonical (codes "Accept-Encoding")) _ key gone)
  where
    skipped :
        IsHop text key ⊎ IsNamed text src key → contains_name (skipped_names text src) key ≡ true
    skipped (inl h) = IsHop-skipped text src key h
    skipped (inr h) = IsNamed-skipped text src key h

    lookup-nil : (key : Bytes) → lookup {V = List Bytes} key [] ≡ none
    lookup-nil key = refl

    delete_none :
        (k : Bytes) (h : Header) (key : Bytes)
        → lookup key h ≡ none
        → lookup key (delete_key k h) ≡ none
    delete_none k [] key e = e
    delete_none k ((j, v) ∷ h) key e = ground (arith, delete_none k h key)
