-- ===== src/Sol/Text/Points.antt =====
-- The texts that a token may show, told by code points and without the words of the filter.
use izan_wallet.Base.{
  ℕ, suc, ◌+◌, ◌-◌, ◌/◌, ◌%◌, ◌==◌, ◌*◌, ◌≤◌, ◌<◌, ◌≡◌, ◌≢◌, true, List, [], ◌∷◌, length, All,
  arith, ◌⊎◌, inl, inr, some, Bool-cases,
}
use izan_wallet.Base.Bytes.{Bytes}
use izan_wallet.Sol.Text.{char_len, lead_bits, code_point, bad_point}
use izan_wallet.Sol.Text.Clean.{clean_point, is_clean, concat, KeptText}

abbrev Outside : ℕ → ℕ → ℕ → Type 0
Outside low high cp = (cp < low) ⊎ (high < cp)

-- The code points that a token may show.
abbrev pub Shown : ℕ → Type 0
Shown cp =
    (0x20 ≤ cp)
    × (cp ≢ 0x7f)
    × Outside 0x200b 0x200f cp
    × Outside 0x202a 0x202e cp
    × Outside 0x2066 0x2069 cp
    × (cp ≢ 0xfeff)

abbrev Follows : ℕ → Type 0
Follows b = (0x80 ≤ b) × (b < 0xc0)

-- One character of one to four bytes: 0xxxxxxx, 110xxxxx 10xxxxxx and so on.
abbrev pub CleanChar : Bytes → Type 0
CleanChar [] = ⊥
CleanChar (a ∷ []) = (a < 0x80) × Shown a
CleanChar (a ∷ b ∷ []) = (0xc0 ≤ a) × (a < 0xe0) × Follows b × Shown ((a - 0xc0) * 64 + (b - 0x80))
CleanChar (a ∷ b ∷ c ∷ []) =
    (0xe0 ≤ a)
    × (a < 0xf0)
    × Follows b
    × Follows c
    × Shown (((a - 0xe0) * 64 + (b - 0x80)) * 64 + (c - 0x80))
CleanChar (a ∷ b ∷ c ∷ d ∷ []) =
    (0xf0 ≤ a)
    × (a < 0xf8)
    × Follows b
    × Follows c
    × Follows d
    × Shown ((((a - 0xf0) * 64 + (b - 0x80)) * 64 + (c - 0x80)) * 64 + (d - 0x80))
CleanChar (a ∷ b ∷ c ∷ d ∷ e ∷ more) = ⊥

-- The text consists of such characters and has at most `max_bytes` bytes.
abbrev pub CleanText : ℕ → Bytes → Type 0
CleanText max_bytes out =
    (cs : List Bytes) × All CleanChar cs × (out ≡ concat cs) × (length out ≤ max_bytes)

clean_point-Shown : (cp : ℕ) → clean_point (some cp) ≡ true → Shown cp
unfolding clean_point bad_point
clean_point-Shown cp h = ground (arith, h)

follows :
    (cp b : ℕ) (bs : Bytes)
    → clean_point (code_point cp (b ∷ bs)) ≡ true
    → Follows b × (clean_point (code_point (cp * 64 + (b - 0x80)) bs) ≡ true)
unfolding code_point
follows cp b bs h = elim (Bool-cases (b / 64 == 2)) [
  | inl good ↦
      let same : b % 64 ≡ b - 0x80 = ground (arith, good) in
      (ground (arith, good), rw (good, same) at h)
  | inr bad ↦ absurd (unfold clean_point in cc (rw bad at h))
]

last-Shown : (cp : ℕ) → clean_point (code_point cp []) ≡ true → Shown cp
unfolding code_point
last-Shown cp h = clean_point-Shown cp h

-- The pattern of the first byte, by the length of the character.
lead_one : (a : ℕ) → char_len a ≡ 1 → (a < 0x80) × (lead_bits a ≡ a)
unfolding char_len lead_bits
lead_one a h = ground arith

lead_two : (a : ℕ) → char_len a ≡ 2 → (0xc0 ≤ a) × (a < 0xe0) × (lead_bits a ≡ a - 0xc0)
unfolding char_len lead_bits
lead_two a h = ground arith

lead_three : (a : ℕ) → char_len a ≡ 3 → (0xe0 ≤ a) × (a < 0xf0) × (lead_bits a ≡ a - 0xe0)
unfolding char_len lead_bits
lead_three a h = ground arith

lead_four : (a : ℕ) → char_len a ≡ 4 → (0xf0 ≤ a) × (a < 0xf8) × (lead_bits a ≡ a - 0xf0)
unfolding char_len lead_bits
lead_four a h = ground arith

char_len-le-four : (a : ℕ) → char_len a ≤ 4
unfolding char_len
char_len-le-four a = ground arith

is_clean-parts :
    (a : ℕ) (tail : Bytes)
    → is_clean (a ∷ tail) ≡ true
    → (char_len a ≡ suc (length tail)) × (clean_point (code_point (lead_bits a) tail) ≡ true)
unfolding is_clean
is_clean-parts a tail h = ground arith

is_clean-CleanChar : (c : Bytes) → is_clean c ≡ true → CleanChar c
is_clean-CleanChar [] h = unfold is_clean in cc
is_clean-CleanChar (a ∷ []) h =
    let (n, p) = is_clean-parts a [] h in
    let (low, bits) = lead_one a n in (low, last-Shown a (rw bits at p))
is_clean-CleanChar (a ∷ b ∷ []) h =
    let (n, p) = is_clean-parts a (b ∷ []) h in
    let (low, high, bits) = lead_two a n in
    let (fb, p1) = follows (a - 0xc0) b [] (rw bits at p) in (low, high, fb, last-Shown _ p1)
is_clean-CleanChar (a ∷ b ∷ c ∷ []) h =
    let (n, p) = is_clean-parts a (b ∷ c ∷ []) h in
    let (low, high, bits) = lead_three a n in
    let (fb, p1) = follows (a - 0xe0) b (c ∷ []) (rw bits at p) in
    let (fc, p2) = follows _ c [] p1 in (low, high, fb, fc, last-Shown _ p2)
is_clean-CleanChar (a ∷ b ∷ c ∷ d ∷ []) h =
    let (n, p) = is_clean-parts a (b ∷ c ∷ d ∷ []) h in
    let (low, high, bits) = lead_four a n in
    let (fb, p1) = follows (a - 0xf0) b (c ∷ d ∷ []) (rw bits at p) in
    let (fc, p2) = follows _ c (d ∷ []) p1 in
    let (fd, p3) = follows _ d [] p2 in (low, high, fb, fc, fd, last-Shown _ p3)
is_clean-CleanChar (a ∷ b ∷ c ∷ d ∷ e ∷ more) h =
    let (n, p) = is_clean-parts a (b ∷ c ∷ d ∷ e ∷ more) h in
    absurd (omega (arith, n, char_len-le-four a))

All-CleanChar : (cs : List Bytes) → All (λ c. is_clean c ≡ true) cs → All CleanChar cs
All-CleanChar [] h = tt
All-CleanChar (c ∷ cs) (hc, h) = (is_clean-CleanChar c hc, All-CleanChar cs h)

pub KeptText-CleanText :
    (max_bytes : ℕ) (out : Bytes) → KeptText max_bytes out → CleanText max_bytes out
KeptText-CleanText max_bytes out (cs, kept, same, short) = (cs, All-CleanChar cs kept, same, short)
