-- ===== src/Sol/Text.antt =====
-- domain/sol/solana.cpp: sanitize_token_text, the filter on the names that a token gives itself.
pub mod Clean
pub mod Points
pub mod Trim
pub mod Rounds
use izan_wallet.Base.{
  ℕ, zero, suc, ◌+◌, ◌*◌, ◌/◌, ◌%◌, Bool, true, false, not, ◌&&◌, ◌||◌, List, [], ◌∷◌, ◌++◌, ◌==◌,
  ltb, leb, if◌then◌else◌, length, take, drop, Option, none, some,
}
use izan_wallet.Base.Bytes.{Bytes}

-- How many bytes the character takes that starts with `lead`; 0 for none.
unfoldable pub char_len : ℕ → ℕ
char_len lead =
    if ltb lead 0x80
    then 1
    else if lead / 32 == 0x6
    then 2
    else if lead / 16 == 0xe
    then 3
    else if lead / 8 == 0x1e
    then 4
    else 0

-- `len == 1 ? lead : lead & (0x7f >> len)`
unfoldable pub lead_bits : ℕ → ℕ
lead_bits lead =
    let len = char_len lead in
    if len == 2
    then lead % 32
    else if len == 3
    then lead % 16
    else if len == 4
    then lead % 8
    else lead

-- The loop over the continuation bytes, each of the form 10xxxxxx.
unfoldable pub code_point : ℕ → Bytes → Option ℕ
code_point cp [] = some cp
code_point cp (b ∷ bs) =
    let rest = code_point (cp * 64 + b % 64) bs in if b / 64 == 2 then rest else none

-- Controls, zero-width characters, overrides of the writing direction, and the byte order mark.
unfoldable pub bad_point : ℕ → Bool
bad_point cp =
    ltb cp 0x20
    || ((cp == 0x7f)
        || ((leb 0x200b cp && leb cp 0x200f)
            || ((leb 0x202a cp && leb cp 0x202e)
                || ((leb 0x2066 cp && leb cp 0x2069) || (cp == 0xfeff)))))

-- A loop that breaks is trimmed afterwards; one that meets a bad continuation byte returns at once.
pub data Walk : Type 0 where
  broke : Bytes → Walk
  returned : Bytes → Walk

-- One character with its code point goes to the text unless it is bad or does not fit; `go` walks on.
unfoldable pub keep_char : ℕ → (Bytes → Walk) → Bytes → Bytes → Option ℕ → Walk
keep_char max_bytes go out char none = returned out
keep_char max_bytes go out char (some cp) =
    if bad_point cp
    then go out
    else if ltb max_bytes (length out + length char)
    then broke out
    else go (out ++ char)

-- Each round takes a byte at least, so `length raw` rounds are enough.
unfoldable pub walk : ℕ → ℕ → Bytes → Bytes → Walk
walk max_bytes zero raw out = broke out
walk max_bytes (suc fuel) [] out = broke out
walk max_bytes (suc fuel) (lead ∷ rest) out =
    let len = char_len lead in
    if len == 0 || ltb (suc (length rest)) len
    then broke out
    else keep_char max_bytes (walk max_bytes fuel (drop len (lead ∷ rest))) out
        (take len (lead ∷ rest)) (code_point (lead_bits lead) (drop 1 (take len (lead ∷ rest))))

-- A byte in front of what is left of the text behind it.
abbrev prepend_kept : ℕ → Bytes → Bytes
prepend_kept b [] = if b == b' ' then [] else b ∷ []
prepend_kept b (c ∷ cs) = b ∷ c ∷ cs

-- `while (!out.empty() && out.back() == ' ') out.pop_back();`
unfoldable pub trim_end : Bytes → Bytes
trim_end [] = []
trim_end (b ∷ bs) = prepend_kept b (trim_end bs)

unfoldable pub trim_start : Bytes → Bytes
trim_start [] = []
trim_start (b ∷ bs) = let rest = trim_start bs in if b == b' ' then rest else b ∷ bs

unfoldable pub trim_walk : Walk → Bytes
trim_walk (broke out) = trim_start (trim_end out)
trim_walk (returned out) = out

unfoldable pub sanitize_token_text : Bytes → ℕ → Bytes
sanitize_token_text raw max_bytes = trim_walk (walk max_bytes (length raw) raw [])
