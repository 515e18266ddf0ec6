-- ===== src/Wallet/Meta.antt =====
-- ui/wallet/store.hpp and store.cpp: the sidecar of a wallet and how it is read. `parse` is glaze's
-- reader, which fails on a text that is no sidecar.
use izan_wallet.Base.{
  ℕ, ◌%◌, ◌^◌, ◌==◌, ltb, leb, Bool, false, not, ◌&&◌, ◌||◌, List, [], if◌then◌else◌, length,
  Option, none, some,
}
use izan_wallet.Base.Bytes.{Bytes, text, beq}
use izan_wallet.Keyd.Presets.{DerivePreset, derive_preset_count, preset_byte}

pub record AccountsMeta : Type 0 where
  pub name : Bytes
  pub count : ℕ
  pub active : ℕ
  pub preset : ℕ
  pub btc_preset : ℕ
  pub kind : Bytes
  pub labels : List Bytes
  pub watch : List Bytes
  pub watch_family : Bytes
  pub pinned : Bool

abbrev pub new_meta : AccountsMeta
new_meta = record {
  name = [];
  count = 1;
  active = 0;
  preset = 0;
  btc_preset = 0;
  kind = [];
  labels = [];
  watch = [];
  watch_family = [];
  pinned = false;
}

abbrev pub meta_or_new : Option AccountsMeta → AccountsMeta
meta_or_new none = new_meta
meta_or_new (some meta) = meta

abbrev pub parsed_meta : (Bytes → Option AccountsMeta) → Option Bytes → AccountsMeta
parsed_meta parse none = new_meta
parsed_meta parse (some sidecar) = meta_or_new (parse sidecar)

-- A watch wallet has as many accounts as addresses, and a family that the wallet knows.
unfoldable pub settle_watch : AccountsMeta → AccountsMeta
settle_watch m =
    if beq m.kind (text "watch")
    then record m {
      count = length m.watch % 2 ^ 32;
      watch_family =
          if not (beq m.watch_family (text "btc")) && not (beq m.watch_family (text "sol"))
          then text "evm"
          else m.watch_family;
    }
    else m

unfoldable pub settle_count : AccountsMeta → AccountsMeta
settle_count m = if m.count == 0 then record m { count = 1 } else m

unfoldable pub settle_active : AccountsMeta → AccountsMeta
settle_active m = if leb m.count m.active then record m { active = 0 } else m

unfoldable pub settle_preset : AccountsMeta → AccountsMeta
settle_preset m = if leb derive_preset_count m.preset then record m { preset = 0 } else m

unfoldable pub settle_btc : AccountsMeta → AccountsMeta
unfolding preset_byte
settle_btc m =
    if ltb m.btc_preset (preset_byte DerivePreset.btc_legacy)
      || ltb (preset_byte DerivePreset.btc_taproot) m.btc_preset
    then record m { btc_preset = 0 }
    else m

-- `sidecar` is the file's content, if it can be opened.
unfoldable pub read_meta : (Bytes → Option AccountsMeta) → Option Bytes → AccountsMeta
read_meta parse sidecar =
    settle_btc
      (settle_preset (settle_active (settle_count (settle_watch (parsed_meta parse sidecar)))))
