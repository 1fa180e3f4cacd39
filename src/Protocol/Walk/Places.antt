-- ===== src/Protocol/Walk/Places.antt =====
-- Where the token of a string stands, through the documents inside it: `tokenNode` of
-- pkg/protocol/walk.go.
use tokenhush.Base.{
  ℕ, ◌+◌, ◌-◌, ◌≡◌, refl, ap, subst, ◌⊎◌, ◌==◌, Option, none, some, [], ◌∷◌, Bytes, take, drop,
  index, has_prefix, if◌then◌else◌, arith,
}
use tokenhush.Protocol.Spelling.{RawToken, root, inner}
use tokenhush.Protocol.Walk.{string_token, Lexemes, eof, broken, lexeme, JsonDecoder, token_node}

-- The lexer reads the string `v` between the offsets `a` and `b`.
abbrev pub HasString : Lexemes → Bytes → ℕ → ℕ → Type 0
HasString eof v a b = ⊥
HasString (broken _) v a b = ⊥
HasString (lexeme t start end rest) v a b =
    ((t ≡ string_token v) × (start ≡ a) × (end ≡ b)) ⊎ HasString rest v a b

abbrev pub between : Bytes → ℕ → ℕ → Bytes
between text from to = take (to - from) (drop from text)

-- The offset of the first quote.
unfoldable pub first_quote : Bytes → Option ℕ
first_quote [] = none
first_quote (c ∷ s) =
    if c == b'"' then some 0 else elim (first_quote s) [ none ↦ none | some i ↦ some (i + 1) ]

-- The token between two offsets: it opens at the first quote there, or one byte in front of them where
-- there is none, and its raw bytes are those behind that place and in front of the last byte.
pub record TokenAt (text : Bytes) (a b : ℕ) (raw : Bytes) (start : ℕ) : Type 0 where
  pub opened : start ≡ (elim (first_quote (between text a b)) [ none ↦ a - 1 | some i ↦ a + i ])
  pub raw_bytes : raw ≡ between text (start + 1) (b - 1)

-- A token for the string `v`: the lexer reads `v` in the text, or in the string of the token around
-- it, where the token says.
abbrev pub Located : JsonDecoder → Bytes → RawToken → Bytes → Type 0
Located decoder text (root raw start) v =
    (a : ℕ) × (b : ℕ) × HasString (decoder text) v a b × TokenAt text a b raw start
Located decoder text (inner raw start parent) v =
    (w : Bytes) × (a : ℕ) × (b : ℕ) × Located decoder text parent w
    × HasString (decoder w) v a b
    × TokenAt w a b raw start

-- A document is the text, or the string of the token around it.
abbrev pub Placed : JsonDecoder → Bytes → Option RawToken → Bytes → Type 0
Placed decoder text none w = w ≡ text
Placed decoder text (some p) w = Located decoder text p w

index-first_quote : (s : Bytes) → index (b'"' ∷ []) s ≡ first_quote s
unfolding index first_quote has_prefix
index-first_quote [] = refl
index-first_quote (c ∷ s) = ground (arith, index-first_quote s)

opens :
    (text : Bytes) (a b : ℕ)
    → (elim (index (b'"' ∷ []) (between text a b)) as (λ _. ℕ) [ none ↦ a - 1 | some i ↦ a + i ])
      ≡ (elim (first_quote (between text a b)) as (λ _. ℕ) [ none ↦ a - 1 | some i ↦ a + i ])
opens text a b =
    ap (λ o. elim o as (λ _. ℕ) [ none ↦ a - 1 | some i ↦ a + i ])
      (index-first_quote (between text a b))

-- `tokenNode` gives the place of a string that the lexer reads in a document.
pub token_node-Located :
    (decoder : JsonDecoder) (text w v : Bytes) (a b : ℕ) (enclosing : Option RawToken)
    → Placed decoder text enclosing w
    → HasString (decoder w) v a b
    → Located decoder text (token_node w a b enclosing) v
unfolding token_node
token_node-Located decoder text w v a b none e h =
    let at = elim (index (b'"' ∷ []) (between w a b)) as (λ _. ℕ) [
      | none ↦ a - 1
      | some i ↦ a + i
    ] in
    subst
      (λ t.
        (a' : ℕ) × (b' : ℕ) × HasString (decoder t) v a' b'
        × TokenAt t a' b' (between w (at + 1) (b - 1)) at)
      e (a, b, h, record { opened = opens w a b; raw_bytes = refl })
token_node-Located decoder text w v a b (some p) e h =
    (w, a, b, e, h, record { opened = opens w a b; raw_bytes = refl })
