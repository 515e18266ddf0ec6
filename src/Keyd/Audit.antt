-- ===== src/Keyd/Audit.antt =====
-- keyd/audit.hpp and audit.cpp: the append-only ledger in which every line commits to all before it.
-- SHA-256 is a parameter. The ledger's file is a part of the state; a line ends in '\n'. A ledger that
-- exists is taken to open for reading.
pub mod Hex
pub mod Lines
pub mod Plain
pub mod Ledger
pub mod Chain
pub mod Evidence
mod Tests
use izan_wallet.Base.{
  ℕ, zero, suc, ◌+◌, ◌-◌, ◌*◌, ◌/◌, ◌%◌, Bool, true, false, not, ◌&&◌, ◌||◌, List, [], ◌∷◌, ◌++◌,
  ◌==◌, ltb, leb, if◌then◌else◌, length, take, drop, get_or, replicate, Option, none, some, Result,
  ok, err,
}
use izan_wallet.Base.Bytes.{Bytes, text, beq}
use izan_wallet.Base.Hex.{to_hex}

pub nib : ℕ → Option ℕ
nib c =
    if leb b'0' c && leb c b'9'
    then some (c - b'0')
    else if leb b'a' c && leb c b'f'
    then some (c - b'a' + 10)
    else none

-- The byte of two digits.
pub pair_byte : Option ℕ → Option ℕ → Option ℕ
pair_byte (some hi) (some lo) = some (hi * 16 + lo)
pair_byte (some hi) none = none
pair_byte none lo = none

abbrev prepend : ℕ → Bool × Bytes → Bool × Bytes
prepend b (done, out) = (done, b ∷ out)

-- The loop of `from_hex64`, over the digits and the bytes of `out` that are left. It stops at the
-- first bad digit, with the bytes before it overwritten.
pub hex_fill : Bytes → Bytes → Bool × Bytes
hex_fill [] out = (true, out)
hex_fill (h ∷ []) out = (true, out)
hex_fill (h ∷ l ∷ hex) [] = (true, [])
hex_fill (h ∷ l ∷ hex) (o ∷ out) =
    let rest = hex_fill hex out in
    elim (pair_byte (nib h) (nib l)) [ none ↦ (false, o ∷ out) | some b ↦ prepend b rest ]

pub from_hex64 : Bytes → Bytes → Bool × Bytes
from_hex64 hex out = if length hex == 64 then hex_fill hex out else (false, out)

-- std::getline until the end of the file.
pub split_lines : Bytes → Bytes → List Bytes
split_lines [] [] = []
split_lines [] (c ∷ cur) = (c ∷ cur) ∷ []
split_lines (b ∷ bs) cur =
    let next = split_lines bs [] in
    let more = split_lines bs (cur ++ b ∷ []) in if b == b'\n' then cur ∷ next else more

unfoldable pub zero32 : Bytes
zero32 = replicate 32 0

-- Whether a CR stands in front of a line end.
abbrev pub before_lf : Bytes → Bool
before_lf [] = false
before_lf (b ∷ bs) = b == b'\n'

-- What a std::ifstream in text mode, as both readers open it, gives on Windows, where the child runs:
-- CR LF is one '\n', and 0x1a ends the file. `append` writes the bytes as they are ("ab").
pub text_mode : Bytes → Bytes
text_mode [] = []
text_mode (b ∷ bs) =
    let rest = text_mode bs in
    if b == 0x1a then [] else if (b == 0x0d) && before_lf bs then rest else b ∷ rest

pub record AuditLog : Type 0 where
  pub file : Option Bytes
  pub chain : Bytes
  pub loaded : Bool

-- The constructor, over the file that is there.
abbrev pub open_log : Option Bytes → AuditLog
open_log file = record { file = file; chain = zero32; loaded = false }

abbrev pub contents : Option Bytes → Bytes
contents none = []
contents (some f) = f

pub last_line : List Bytes → Bytes → Bytes
last_line [] last = last
last_line ([] ∷ ls) last = last_line ls last
last_line ((c ∷ l) ∷ ls) last = last_line ls (c ∷ l)

-- The result of `from_hex64` is not looked at.
pub load_tail : AuditLog → AuditLog
load_tail a =
    let last = last_line (split_lines (text_mode (contents a.file)) []) [] in
    record a {
      chain = if ltb (length last) 64 then a.chain else (from_hex64 (take 64 last) a.chain).1;
      loaded = true;
    }

unfoldable pub has_newline : Bytes → Bool
has_newline [] = false
has_newline (c ∷ cs) = (c == b'\n') || has_newline cs

-- fopen fails, the write or the flush fails with some bytes in the file, or the line is written.
pub data Stdio : Type 0 where
  no_open : Stdio
  cut_off : ℕ → Stdio
  written : Stdio

module _ (sha256 : Bytes → Bytes) where
  abbrev pub chain_step : Bytes → Bytes → Bytes
  chain_step prev event = sha256 (prev ++ event)

  abbrev pub row : Bytes → Bytes → Bytes
  row next event = to_hex next ++ (b' ' ∷ event)

  unfoldable pub write_line : Stdio → Bytes → AuditLog → AuditLog × Result (Unit {0})
  write_line io event a =
      let next = chain_step a.chain event in
      let line = row next event ++ b'\n' ∷ [] in
      elim io [
        | no_open ↦ (a, err (text "audit: cannot open "))
        | cut_off n ↦ (
          record a { file = some (contents a.file ++ take n line) },
          err (text "audit: write failed "),
        )
        | written ↦ (record a { file = some (contents a.file ++ line); chain = next }, ok tt)
      ]

  unfoldable pub append : Stdio → Bytes → AuditLog → AuditLog × Result (Unit {0})
  append io event a =
      if has_newline event
      then (a, err (text "audit: event must be single-line"))
      else write_line io event (if a.loaded then a else load_tail a)

  abbrev pub bad_shape : Bytes → Bool
  bad_shape line = ltb (length line) 66 || not (get_or line 64 0 == b' ')

  -- One line of the replay: the chain behind it, if the line is good.
  pub check_line : Bytes → Bytes → Option Bytes
  check_line chain line =
      let expect = chain_step chain (drop 65 line) in
      let (read, claimed) = from_hex64 (take 64 line) zero32 in
      if bad_shape line then none else if read && beq claimed expect then some expect else none

  pub verify_lines : List Bytes → Bytes → ℕ → Option ℕ
  verify_lines [] chain count = some count
  verify_lines ([] ∷ ls) chain count = verify_lines ls chain count
  verify_lines ((c ∷ l) ∷ ls) chain count = elim (check_line chain (c ∷ l)) [
    | none ↦ none
    | some next ↦ verify_lines ls next (count + 1)
  ]

  pub verify : Option Bytes → Option ℕ
  verify none = some 0
  verify (some f) = verify_lines (split_lines (text_mode f) []) zero32 0
