-- ===== src/Protocol/Leaf.antt =====
-- `Leaf` of pkg/protocol/walk.go: one string value of a JSON document. `none` for `tok` is a leaf with
-- no raw location, made by hand or by a plugin.
use tokenhush.Base.{ℕ, Bool, false, Option, none, [], Bytes, length}
use tokenhush.Protocol.Spelling.{RawToken}

pub record Leaf : Type 0 where
  pub path : Bytes
  pub value : Bytes
  pub length_of : ℕ
  pub encoded : Bool
  pub member : Bool
  pub key : Bytes
  pub identity : Bytes
  pub identifiable : Bool
  pub tok : Option RawToken

-- A leaf made by hand from its value.
abbrev pub plain_leaf : Bytes → Leaf
plain_leaf value = record {
  path = [];
  value = value;
  length_of = length value;
  encoded = false;
  member = false;
  key = [];
  identity = [];
  identifiable = false;
  tok = none;
}
