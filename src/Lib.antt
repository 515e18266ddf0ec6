-- ===== src/Lib.antt =====
-- izan-wallet: the signing core of a desktop wallet. The program runs as two processes. The UI asks;
-- keyd, the signer, holds the vault, keeps a queue of proposed transactions, signs one only when a human
-- approves it with the passphrase, and records what it does in a ledger whose lines commit to all before
-- them.
--
-- The parts and their files:
-- * core/secure/vault.cpp. Vault/Payload.antt is the plaintext (pack_payload, unpack_payload),
--   Vault/File.antt the encrypted file (`seal` is `save` up to the blob, `unseal` is `open` from it on),
--   Vault/Disk.antt the files path, path.tmp and path.bak (`save`, `open_vault`, `shred`,
--   `change_password`).
-- * keyd/proposals.hpp. Keyd/Proposals.antt is ProposalQueue: `submit`, `state_of`, `resolve`,
--   `pending_ids`, `get`.
-- * keyd/audit.cpp. Keyd/Audit.antt is AuditLog: `load_tail`, `append`, `verify`.
-- * keyd/protocol.hpp. Keyd/Protocol.antt has the codes of the frames and pipe messages.
-- * keyd/signer.cpp. Keyd/Presets.antt has the derivation presets, Keyd/Envelope.antt parse_proposal and
--   make_envelope, Keyd/Signer.antt the EVM and Solana signers and account_address, Keyd/Signer/Btc.antt
--   and Keyd/Signer/Der.antt sign_btc_payload.
-- * keyd/child.cpp. Keyd/Child.antt is the state of the process and the calls of which its handlers
--   consist; Keyd/Child/Approve.antt with Sign.antt is Op::Approve, Password.antt the handlers around the
--   passphrase, Plane.antt the queue's handlers and the pipe thread, Loop.antt the switch and the threads
--   as one sequence of events.
-- * keyd/client.cpp. Keyd/Client.antt has KeydClient's requests, over a `Peer`; Keyd/Client/Child.antt
--   makes a peer of the child process.
-- * domain/btc/coin_select.cpp. Coins.antt chooses the coins of a Bitcoin payment (`select_coins`,
--   `sweep_coins`), Coins/Utxos.antt reads them (`parse_utxos`).
-- * domain/assets/token_registry.cpp. Assets/Tokens.antt is TokenRegistry.
-- * domain/btc/esplora.cpp. Esplora.antt has the fee tiers, the balance, the broadcast and the walk over
--   the endpoints, Esplora/History.antt parse_txs.
-- * domain/chains. Chains/Registry.antt is ChainRegistry, Chains/JsonRpc.antt the messages of jsonrpc.cpp,
--   Chains/Client.antt RpcClient with `round_robin`. Chains/Trust.antt is domain/config/config_trust.cpp.
--   Json.antt has the JSON values.
-- * domain/tx/txflow.cpp. Quantity.antt reads a quantity of a node (`quantity_u64`), Txflow.antt has the
--   rest.
-- * domain/sol/solana.cpp. Sol/Text.antt is sanitize_token_text, Sol/Meta.antt parse_metaplex_meta.
-- * domain/swap/lifi.cpp. Swap.antt reads quotes and token lists.
-- * platform/ipc/secret_channel.cpp. Channel.antt is one direction of a SecretChannel.
-- * platform/net/http_client.cpp. Net.antt has parse_https_url and HttpsClient's requests.
-- * ui/wallet. Wallet/Meta.antt is read_meta of store.cpp, Wallet/Store.antt the rest of it (`rescan`,
--   `delete_wallet`, whose calls of the file system end as `Removal` says),
--   Wallet/Presets.antt presets.cpp, Wallet/Import.antt import_model.cpp, Wallet/Session.antt
--   session.cpp.
--
-- How they interact: a handler of the child is a function of the whole state that returns the new state
-- and a result, so that an exception leaves what was done before it. The child calls the queue, the
-- ledger, the vault (`opens` of `Env`) and the signer, in the order of the source. A request, a
-- pipe message and a lock notice are one step each, and an interleaving is a list of such events. That is
-- an abstraction: in the source only the calls of the queue and of the ledger are under mutexes, so that
-- two handlers of different threads may interleave between those calls.
--
-- The ledger is written in binary and read by streams in text mode; `text_mode` is what such a stream
-- gives on Windows, where the child runs. A read of the secret channel that would block on an open pipe
-- is taken as one at the end of the pipe. A message above the 65536 bytes of the proposal pipe never
-- reaches the child.
--
-- The clients of the network pass a world `W` from call to call: a request is a function of the world
-- and of the client, and gives both back. Txflow calls RpcClient, which calls HttpsClient and the
-- messages of JSON-RPC; a `Reply` keeps RpcError apart from the other exceptions.
--
-- A result is `ok`, `err` with the fixed part of what() for an exception, and `fault` for undefined
-- behaviour. Bytes are numbers; where a theorem needs them below 256 it says so.
--
-- Parameters: libsodium (`Sodium`, with `SodiumLaws`), SHA-256, core/crypto, trezor-crypto and the
-- transaction codec (`Crypto`, one record for the signer and one for Txflow), libsodium's secretstream
-- (`Stream`, with `StreamLaws`), glaze's reader and writer and the doubles in which it keeps numbers
-- (`Doubles`), Boost's connections (`Network`), the detection of secrets (`Secrets`), the amounts of a
-- quote (`Amounts`), the Solana parsers that Approve consults (`SolReader`), the random bytes, and what
-- the operating system makes of each call on a file.
--
-- Fuel: `to_string` prints a number in 20 rounds, which is enough for 64 bits; `noise_blocks` takes as
-- many rounds as the file has bytes, and each round but the last takes one byte at least; `walk` of
-- Sol/Text has as many rounds as the text has bytes, and takes one byte at least in each; `read_items`
-- of Keyd/Client has as many rounds as the list has bytes, and takes nine in each.
--
-- Not modelled: wiping of memory, the process hardening, the start of keyd, from either side, and its
-- threads, the pipes of the operating system, the pages of the UI, the rest of domain/assets and of
-- domain/sol, and what a wallet's directory looks like when a file of it cannot be written.
pub mod Base
pub mod Vault
pub mod Keyd
pub mod Coins
pub mod Quantity
pub mod Sol
pub mod Channel
pub mod Json
pub mod Net
pub mod Chains
pub mod Txflow
pub mod Esplora
pub mod Wallet
pub mod Assets
pub mod Swap
