-- ===== src/Sol/Meta.antt =====
-- domain/sol/solana.cpp: parse_metaplex_meta, the name and symbol in a metadata account.
pub mod RoundTrip
use izan_wallet.Base.{
  ℕ, ◌+◌, Bool, true, false, ◌||◌, List, [], ◌∷◌, ◌==◌, ltb, if◌then◌else◌, length, take, drop,
  Result, ok, err, ◌>>=◌, ◌>>◌, throw_if,
}
use izan_wallet.Base.Bytes.{Bytes, text, le_value}

pub record MintMeta : Type 0 where
  pub name : Bytes
  pub symbol : Bytes

-- `s.resize(s.find('\0'))`
unfoldable pub cut_nul : Bytes → Bytes
cut_nul [] = []
cut_nul (b ∷ bs) = let rest = cut_nul bs in if b == 0 then [] else b ∷ rest

-- `read_str`, from the position `pos`: the string, and the position behind it.
unfoldable pub read_str : Bytes → ℕ → Result (Bytes × ℕ)
read_str bytes pos = do
  throw_if (ltb (length bytes) (pos + 4)) (text "sol: metadata truncated")
  let len = le_value 4 (drop pos bytes)
  throw_if (ltb 4096 len || ltb (length bytes) (pos + 4 + len)) (text "sol: metadata truncated")
  ok (cut_nul (take len (drop (pos + 4) bytes)), pos + 4 + len)

unfoldable pub parse_metaplex_meta : Bytes → Result MintMeta
parse_metaplex_meta bytes = do
  throw_if (ltb (length bytes) (65 + 4)) (text "sol: metadata truncated")
  (name, at) ← read_str bytes 65
  (symbol, end) ← read_str bytes at
  ok (record { name = name; symbol = symbol })
