-- ===== src/Chains/Trust.antt =====
-- domain/config/config_trust.cpp: whether a configuration file is one that was shipped. SHA-256 is a
-- parameter.
use izan_wallet.Base.{List, [], ◌∷◌, if◌then◌else◌}
use izan_wallet.Base.Bytes.{Bytes, text, beq}
use izan_wallet.Base.Hex.{to_hex}

pub data Trust : Type 0 where
  shipped_default modified : Trust

pub record Shipped : Type 0 where
  pub name : Bytes
  pub sha256 : Bytes

-- kShipped
abbrev pub shipped : List Shipped
shipped =
    record {
      name = text "chains.json";
      sha256 = text "ada9533b2b528ca481036cced382b8866c44edd56fa626b5b600be31aa1ec881";
    }
    ∷ record {
      name = text "tokens.json";
      sha256 = text "21f58e7e7970823239a9a201d3f999b11cf8da9b4d15a87e567066e56b3b639c";
    }
    ∷ []

module _ (sha256_raw : Bytes → Bytes) where
  abbrev pub sha256_hex : Bytes → Bytes
  sha256_hex contents = to_hex (sha256_raw contents)

  -- The first entry of that name decides.
  unfoldable pub classify_in : List Shipped → Bytes → Bytes → Trust
  classify_in [] filename contents = Trust.modified
  classify_in (s ∷ rest) filename contents =
      let later = classify_in rest filename contents in
      if beq s.name filename
      then (if beq (sha256_hex contents) s.sha256 then Trust.shipped_default else Trust.modified)
      else later

  abbrev pub classify : Bytes → Bytes → Trust
  classify = classify_in shipped
