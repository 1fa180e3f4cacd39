-- ===== src/Proxy/Headers/Names.antt =====
-- The names that the values of a `Connection` header add to the set `skip`.
use tokenhush.Base.{
  ◌≡◌, refl, ap, sym, ◌∙◌, subst, true, false, some, List, [], ◌∷◌, ◌++◌, Bytes, ◌==◌, bytes_eq_iff,
  arith, map, ℕ, zero, suc, All, get_elem?, append-nil, append_assoc,
}
use tokenhush.Proxy.Headers.{
  Text, contains_name, split_loop, split_commas, connection_names, connections,
}

pub contains-append_left :
    (xs ys : List Bytes) (name : Bytes)
    → contains_name xs name ≡ true
    → contains_name (xs ++ ys) name ≡ true
unfolding contains_name
contains-append_left [] ys name h = cc h
contains-append_left (x ∷ xs) ys name h = ground (arith, contains-append_left xs ys name)

pub contains-append_right :
    (xs ys : List Bytes) (name : Bytes)
    → contains_name ys name ≡ true
    → contains_name (xs ++ ys) name ≡ true
unfolding contains_name
contains-append_right [] ys name h = h
contains-append_right (x ∷ xs) ys name h = ground (arith, contains-append_right xs ys name h)

-- No comma stands in these bytes.
abbrev pub IsPlain : Bytes → Type 0
IsPlain = All (λ c. (c == b',') ≡ false)

-- A value that lists these elements.
abbrev pub join_commas : List Bytes → Bytes
join_commas [] = []
join_commas (t ∷ []) = t
join_commas (t ∷ u ∷ ts) = t ++ b',' ∷ join_commas (u ∷ ts)

split_plain :
    (acc t rest : Bytes) → IsPlain t → split_loop acc (t ++ rest) ≡ split_loop (acc ++ t) rest
unfolding split_loop
split_plain acc [] rest h = ap (λ a. split_loop a rest) (sym (append-nil acc))
split_plain acc (c ∷ t) rest (hc, h) =
    rw (hc, split_loop)
      (split_plain (acc ++ c ∷ []) t rest h
        ∙ ap (λ a. split_loop a rest) (append_assoc acc (c ∷ []) t))

split_last : (t : Bytes) → IsPlain t → split_commas t ≡ t ∷ []
unfolding split_commas split_loop
split_last t h = ap (split_loop []) (sym (append-nil t)) ∙ split_plain [] t [] h

split_first : (t rest : Bytes) → IsPlain t → split_commas (t ++ b',' ∷ rest) ≡ t ∷ split_commas rest
unfolding split_commas
split_first t rest h = split_plain [] t (b',' ∷ rest) h ∙ unfold split_loop in refl

pub split-join :
    (t : Bytes) (ts : List Bytes)
    → IsPlain t
    → All IsPlain ts
    → split_commas (join_commas (t ∷ ts)) ≡ t ∷ ts
split-join t [] h hs = split_last t h
split-join t (u ∷ ts) h (hu, hs) =
    split_first t (join_commas (u ∷ ts)) h ∙ ap (◌∷◌ t) (split-join u ts hu hs)

pub contains_canonical :
    (text : Text) (names : List Bytes) (k : ℕ) (name : Bytes)
    → get_elem? names k ≡ some name
    → contains_name (map text.canonical names) (text.canonical name) ≡ true
unfolding contains_name
contains_canonical text [] k name e = cc e
contains_canonical text (n ∷ ns) zero name e =
    let same : n ≡ name = cc e in
    rw ((bytes_eq_iff (text.canonical n) (text.canonical name)).1 (ap text.canonical same))
contains_canonical text (n ∷ ns) (suc k) name e =
    ground (arith, contains_canonical text ns k name e)

pub connection_names-contains :
    (text : Text) (tokens : List Bytes) (k : ℕ) (token : Bytes) (c : ℕ) (name : Bytes)
    → get_elem? tokens k ≡ some token
    → text.trim token ≡ c ∷ name
    → contains_name (connection_names text tokens) (text.canonical (c ∷ name)) ≡ true
unfolding connection_names contains_name
connection_names-contains text [] k token c name e f = cc e
connection_names-contains text (t ∷ ts) zero token c name e f =
    let same : t ≡ token = cc e in
    rw (ap text.trim same ∙ f, connection_names)
      (rw ((bytes_eq_iff (text.canonical (c ∷ name)) (text.canonical (c ∷ name))).1 refl))
connection_names-contains text (t ∷ ts) (suc k) token c name e f =
    go (text.trim t) (connection_names-contains text ts k token c name e f)
  where
    go :
        (u : Bytes)
        → contains_name (connection_names text ts) (text.canonical (c ∷ name)) ≡ true
        → contains_name
            (elim u as (λ _. List Bytes) [
              | [] ↦ connection_names text ts
              | d ∷ more ↦ text.canonical (d ∷ more) ∷ connection_names text ts
            ])
            (text.canonical (c ∷ name))
          ≡ true
    go [] h = h
    go (d ∷ more) h =
        contains-append_right (text.canonical (d ∷ more) ∷ []) (connection_names text ts)
          (text.canonical (c ∷ name)) h

pub connections-contains :
    (text : Text) (values : List Bytes) (j : ℕ) (value key : Bytes)
    → get_elem? values j ≡ some value
    → contains_name (connection_names text (split_commas value)) key ≡ true
    → contains_name (connections text values) key ≡ true
unfolding connections
connections-contains text [] j value key e h = cc e
connections-contains text (v ∷ vs) zero value key e h =
    let same : value ≡ v = cc e in
    contains-append_left (connection_names text (split_commas v)) (connections text vs) key
      (subst (λ x. contains_name (connection_names text (split_commas x)) key ≡ true) same h)
connections-contains text (v ∷ vs) (suc j) value key e h =
    contains-append_right (connection_names text (split_commas v)) (connections text vs) key
      (connections-contains text vs j value key e h)
