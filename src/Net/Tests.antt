-- ===== src/Net/Tests.antt =====
-- URLs of endpoints.
use izan_wallet.Base.{◌≡◌, refl, [], ◌∷◌, ok, arith}
use izan_wallet.Base.Bytes.{text, beq}
use izan_wallet.Net.{parse_https_url, is_empty, split_at}
use izan_wallet.Net.Urls.{print_url, parse_https_url-print_url}

-- https://a.b:81/x
parse_https_url-print_url_example :
    parse_https_url (print_url (97 ∷ 46 ∷ 98 ∷ []) (56 ∷ 49 ∷ []) (120 ∷ []))
    ≡ ok (record { host = 97 ∷ 46 ∷ 98 ∷ []; port = 56 ∷ 49 ∷ []; target = 47 ∷ 120 ∷ [] })
parse_https_url-print_url_example =
    parse_https_url-print_url 97 56 (46 ∷ 98 ∷ []) (49 ∷ []) (120 ∷ [])
      ((λ e. omega arith), ((λ e. omega arith), ((λ e. omega arith), tt)))
      ((λ e. omega arith), ((λ e. omega arith), ((λ e. omega arith), tt)))
      ((λ e. omega arith), ((λ e. omega arith), tt))

no_port :
    parse_https_url (text "https://a.b")
    ≡ ok (record { host = text "a.b"; port = text "443"; target = text "/" })
unfolding parse_https_url is_empty split_at text beq
no_port = refl
