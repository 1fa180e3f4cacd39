-- ===== src/Tests/Spelling.antt =====
-- The properties of the JSON spelling at concrete inputs.
use tokenhush.Base.{◌≡◌, some, [], ◌∷◌, codes}
use tokenhush.Protocol.Spelling.{backslash, escape_json_string, root, inner, raw_spelling}
use tokenhush.Protocol.Spelling.RoundTrip.{
  unescape, unescape-escape_json_string, unescape_times, unescape-raw_spelling,
}

unescape-escape_json_string_example :
    unescape (escape_json_string (b'"' ∷ b'x' ∷ 7 ∷ backslash ∷ []))
    ≡ some (b'"' ∷ b'x' ∷ 7 ∷ backslash ∷ [])
unescape-escape_json_string_example = unescape-escape_json_string (b'"' ∷ b'x' ∷ 7 ∷ backslash ∷ [])

unescape-raw_spelling_example :
    unescape_times 2
      (raw_spelling (some (inner (codes "x") 1 (root (codes "y") 2))) (b'"' ∷ 10 ∷ []))
    ≡ some (b'"' ∷ 10 ∷ [])
unescape-raw_spelling_example =
    unescape-raw_spelling (inner (codes "x") 1 (root (codes "y") 2)) (b'"' ∷ 10 ∷ [])
