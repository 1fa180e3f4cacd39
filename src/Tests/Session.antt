-- ===== src/Tests/Session.antt =====
-- The properties of the placeholder session at concrete inputs: a constant digest function, so that
-- the second secret of a kind gets a longer digest.
use tokenhush.Base.{◌≡◌, refl, some, List, [], ◌∷◌, Bytes, codes, arith, lookup, insert, bytes_eq}
use tokenhush.Redact.Grammar.{IsType, IsDigest, spell}
use tokenhush.Redact.Placeholder.{
  DigestFunc, Engine, new_engine, sanitize_byte, sanitize_loop, sanitize_kind, hex_encode, taken,
  ladder_loop, mint_new, placeholder,
}
use tokenhush.Redact.Placeholder.Shape.{IsByteDigest, sanitize_kind-IsType}
use tokenhush.Redact.Placeholder.Unique.{IsSession, new_engine-IsSession, placeholder-IsSession}
use tokenhush.Redact.Backfiller.{new_backfiller, map_secret, mint}
use tokenhush.Redact.Session.{
  IsGood, new-IsGood, run, later, mint_restores, mint_distinct, mint_spelled,
}

abbrev constant_digest : DigestFunc
constant_digest salt kind secret = 0x10 ∷ 0x32 ∷ 0x54 ∷ 0x76 ∷ 0x98 ∷ 0xba ∷ 0xdc ∷ 0xfe ∷ []

constant_digest-IsByteDigest : IsByteDigest constant_digest
constant_digest-IsByteDigest salt kind secret = ground arith

abbrev engine : Engine
engine = new_engine constant_digest (codes "salt")

engine-IsGood : IsGood new_backfiller engine
engine-IsGood = new-IsGood constant_digest (codes "salt") constant_digest-IsByteDigest

abbrev first : Bytes
first = codes "__PII_email_1032547698ba__"

first_minted : (mint new_backfiller engine (codes "a@x.org") (codes "email")).0 ≡ some first
unfolding mint placeholder mint_new ladder_loop taken sanitize_kind sanitize_loop sanitize_byte
    hex_encode lookup bytes_eq
first_minted = refl

abbrev others : List (Bytes × Bytes)
others = (codes "b@x.org", codes "email") ∷ []

first_again :
    (mint
      (later new_backfiller engine (codes "a@x.org") (codes "email") others).0
      (later new_backfiller engine (codes "a@x.org") (codes "email") others).1
      (codes "a@x.org")
      (codes "email")).0
    ≡ some first
unfolding mint placeholder mint_new ladder_loop taken sanitize_kind sanitize_loop sanitize_byte
    hex_encode lookup bytes_eq run insert map_secret
first_again = refl

mint_restores_example :
    (lookup first (later new_backfiller engine (codes "a@x.org") (codes "email") others).0.reverse
      ≡ some (codes "a@x.org"))
    × (placeholder
          (later new_backfiller engine (codes "a@x.org") (codes "email") others).1
          (codes "a@x.org")
          (codes "email")
        ≡ (some first, (later new_backfiller engine (codes "a@x.org") (codes "email") others).1))
mint_restores_example =
    mint_restores new_backfiller engine (codes "a@x.org") (codes "email") first others engine-IsGood
      first_minted

mint_distinct_example :
    (codes "a@x.org" ≡ codes "a@x.org")
    × (sanitize_kind (codes "email") ≡ sanitize_kind (codes "email"))
mint_distinct_example =
    mint_distinct new_backfiller engine (codes "a@x.org") (codes "email") (codes "a@x.org")
      (codes "email") first others engine-IsGood first_minted first_again

mint_spelled_example :
    (hex : Bytes) × IsDigest hex
    × IsType (sanitize_kind (codes "email"))
    × (first ≡ spell (sanitize_kind (codes "email")) hex)
mint_spelled_example =
    mint_spelled new_backfiller engine (codes "a@x.org") (codes "email") first engine-IsGood
      first_minted

sanitize_kind-IsType_example : IsType (sanitize_kind (codes "E-Mail address of"))
sanitize_kind-IsType_example = sanitize_kind-IsType (codes "E-Mail address of")

placeholder-IsSession_example :
    IsSession (placeholder engine (codes "a@x.org") (codes "email")).1
    × ((placeholder engine (codes "a@x.org") (codes "email")).1.digest ≡ constant_digest)
placeholder-IsSession_example =
    placeholder-IsSession engine (codes "a@x.org") (codes "email") constant_digest-IsByteDigest
      (new_engine-IsSession constant_digest (codes "salt"))
