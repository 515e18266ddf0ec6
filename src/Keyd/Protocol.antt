-- ===== src/Keyd/Protocol.antt =====
-- keyd/protocol.hpp: the opcodes of the password channel and of the proposal pipe, the reveal
-- kinds, the throttle's constants, and the ids in little-endian order.
use izan_wallet.Base.{ℕ}
use izan_wallet.Base.Bytes.{Bytes, le_bytes, le_value}

-- Requests and replies of the password channel.
pub data Op : Type 0 where
  unlock lock status shutdown approve deny pending fetch reveal address : Op
  hello ok_reply err_reply state_reply pending_list proposal_body root_secret : Op
  signed address_is signed_sol signed_btc : Op

unfoldable pub code_of : Op → ℕ
code_of Op.unlock = 0x01
code_of Op.lock = 0x02
code_of Op.status = 0x03
code_of Op.shutdown = 0x04
code_of Op.approve = 0x05
code_of Op.deny = 0x06
code_of Op.pending = 0x07
code_of Op.fetch = 0x08
code_of Op.reveal = 0x09
code_of Op.address = 0x0a
code_of Op.hello = 0x40
code_of Op.ok_reply = 0x41
code_of Op.err_reply = 0x42
code_of Op.state_reply = 0x43
code_of Op.pending_list = 0x44
code_of Op.proposal_body = 0x45
code_of Op.root_secret = 0x46
code_of Op.signed = 0x47
code_of Op.address_is = 0x48
code_of Op.signed_sol = 0x49
code_of Op.signed_btc = 0x4a

pub data RevealKind : Type 0 where
  seed_entropy private_key ed25519_key : RevealKind

unfoldable pub kind_byte : RevealKind → ℕ
kind_byte RevealKind.seed_entropy = 0
kind_byte RevealKind.private_key = 1
kind_byte RevealKind.ed25519_key = 2

abbrev pub pass_throttle_after : ℕ
pass_throttle_after = 3

abbrev pub pass_throttle_cap_seconds : ℕ
pass_throttle_cap_seconds = 10

abbrev pub protocol_version : ℕ
protocol_version = 1

abbrev pub proposal_mac_bytes : ℕ
proposal_mac_bytes = 32

-- Requests and replies of the proposal pipe.
pub data PipeOp : Type 0 where
  submit query accepted rejected query_state : PipeOp

unfoldable pub pipe_code : PipeOp → ℕ
pipe_code PipeOp.submit = 0x01
pipe_code PipeOp.query = 0x02
pipe_code PipeOp.accepted = 0x41
pipe_code PipeOp.rejected = 0x42
pipe_code PipeOp.query_state = 0x43

abbrev pub put_u64le : ℕ → Bytes
put_u64le v = le_bytes 8 v

abbrev pub get_u64le : Bytes → ℕ
get_u64le bs = le_value 8 bs
