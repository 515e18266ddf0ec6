-- ===== src/Chains/JsonRpc/Escape.antt =====
-- The name of a method cannot leave its place in a request.
use izan_wallet.Base.{
  ℕ, zero, suc, ◌+◌, ◌-◌, ◌*◌, ◌==◌, ltb, [], ◌∷◌, if◌then◌else◌, Option, none, some,
}
use izan_wallet.Base.Bytes.{Bytes}
use izan_wallet.Json.{Json}

-- A reader of JSON strings: in the text, behind a backslash, or `k` digits into the rest of \uXXXX.
pub data Place : Type 0 where
  plain : Place
  escaped : Place
  digits : ℕ → ℕ → Place

abbrev hex_value : ℕ → ℕ
hex_value c = if ltb c b'a' then c - b'0' else c - b'a' + 10

abbrev prepend : ℕ → Option (Bytes × Bytes) → Option (Bytes × Bytes)
prepend c none = none
prepend c (some (s, rest)) = some (c ∷ s, rest)

-- The string up to the closing quote, and what stands behind that quote.
unfoldable pub read_string : Place → Bytes → Option (Bytes × Bytes)
read_string place [] = none
read_string plain (c ∷ cs) =
    let inside = read_string plain cs in
    let behind = read_string escaped cs in
    if c == b'"' then some ([], cs) else if c == b'\\' then behind else prepend c inside
read_string escaped (c ∷ cs) =
    let inside = read_string plain cs in
    let number = read_string (digits 3 0) cs in
    if c == b'u'
    then number
    else if c == b'"'
    then prepend c inside
    else if c == b'\\'
    then prepend c inside
    else none
read_string (digits zero n) (c ∷ cs) = prepend (n * 16 + hex_value c) (read_string plain cs)
read_string (digits (suc k) n) (c ∷ cs) = read_string (digits k (n * 16 + hex_value c)) cs
