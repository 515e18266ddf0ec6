-- ===== src/Net/Urls.antt =====
-- URLs that are put together from a host, a port and a target are split into them again.
use izan_wallet.Base.{ℕ, ◌≡◌, ◌≢◌, refl, ne→==, [], ◌∷◌, ◌++◌, All, All-append, ok, arith}
use izan_wallet.Base.Bytes.{Bytes, text, beq}
use izan_wallet.Net.{is_empty, split_at, parse_https_url}

split_at-without :
    (c : ℕ) (s rest : Bytes) → All (λ b. b ≢ c) s → split_at c (s ++ c ∷ rest) ≡ (s, c ∷ rest)
unfolding split_at
split_at-without c [] rest h = ground arith
split_at-without c (b ∷ s) rest (hb, h) = rw (ne→== b c hb, split_at-without c s rest h)

split_at-none : (c : ℕ) (s : Bytes) → All (λ b. b ≢ c) s → split_at c s ≡ (s, [])
unfolding split_at
split_at-none c [] h = refl
split_at-none c (b ∷ s) (hb, h) = rw (ne→== b c hb, split_at-none c s h)

-- The URL of a host, a port and a target behind its slash.
abbrev pub print_url : Bytes → Bytes → Bytes → Bytes
print_url host port path = text "https://" ++ ((host ++ b':' ∷ port) ++ b'/' ∷ path)

-- An https URL with a host and a port, neither of them empty and neither with a slash, and the host
-- without a colon, is split into that host, that port and everything from its first slash on.
pub parse_https_url-print_url :
    (h p : ℕ) (host port path : Bytes)
    → All (λ b. b ≢ b':') (h ∷ host)
    → All (λ b. b ≢ b'/') (h ∷ host)
    → All (λ b. b ≢ b'/') (p ∷ port)
    → parse_https_url (print_url (h ∷ host) (p ∷ port) path)
      ≡ ok (record { host = h ∷ host; port = p ∷ port; target = b'/' ∷ path })
unfolding parse_https_url is_empty text beq
parse_https_url-print_url h p host port path no_colon no_slash no_slash' = rw (
  split_at-without b'/' ((h ∷ host) ++ b':' ∷ (p ∷ port)) path (
      All-append (λ b. b ≢ b'/') (h ∷ host) (b':' ∷ p ∷ port) no_slash
        ((λ e. omega arith), no_slash')),
  split_at-without b':' (h ∷ host) (p ∷ port) no_colon,
)
