-- ===== src/Lib.antt =====
-- Models of the stellar CLI (cmd/) and theorems about them.
--
-- The CLI turns the text and JSON arguments of a contract call into contract values by the spec of
-- the contract, simulates the transaction, assembles it with the response, and shows the result as
-- JSON by the same spec. The files:
--
-- Spec (cmd/crates/soroban-spec-tools/src): Spec/Types and Spec/Json hold the types, the values and
--   the JSON; Spec/Base the errors and the interface `Crates` to serde_json, stellar-strkey, ethnum,
--   hex and stellar-xdr; Spec/Find `Spec::find` and its kin; Spec/Primitives
--   `from_json_primitives`; Spec/FromJson `from_json`, `from_string` and the `parse_` functions;
--   Spec/ToJson `to_json` and `to_string`; Spec/Output `xdr_to_json` and its parts; Spec/Names
--   `arg_value_name`; Spec/Example `example`. The proofs are in Spec/Stands,
--   Spec/Reading, Spec/RoundTrip and Spec/Termination.
-- Assembled (cmd/soroban-cli/src/assembled.rs): `assemble`, `restore`, `requires_auth` and the methods
--   of `Assembled`, over the XDR records of Xdr. The proofs are in Assembled/Assemble and
--   Assembled/Restore.
-- Signer (cmd/soroban-cli/src/signer.rs): `sign_soroban_authorizations` and the signature of one entry.
--   The proofs are in Signer/Authorizations and Signer/Missing.
-- Fee (cmd/soroban-cli/src/fee.rs): the padding of instructions, on top of Assembled.
-- Toid (cmd/soroban-cli/src/toid.rs): ids that pack a ledger, a transaction and an operation.
-- Ledger (cmd/crates/stellar-ledger/src): the commands to a hardware wallet, and their answers; the
--   transport is a state that every exchange changes. The proofs are in Ledger/Chunks and
--   Ledger/Signing.
-- TxNew (cmd/soroban-cli/src/commands/tx/new, set_trustline_flags.rs and set_options.rs): the operations
--   whose flags are or-ed together. The proofs are in TxNew/Flags.
-- Upgrade (cmd/soroban-cli/src/upgrade_check.rs, with config/upgrade_check.rs): when a newer release is
--   looked for and offered. The proofs are in Upgrade/Offers.
-- Config (cmd/soroban-cli/src/config, utils.rs and signer/keyring.rs): Config/Paths and Config/Disk stand
--   for `std::path` and `std::fs`; Config/Directories says where the configuration lies,
--   Config/KeyTypes has `KeyType`, Config/Locator the reading and Config/Writes the writing
--   operations of `locator::Args`; Config/Secrets, Config/Keys, Config/KeyNames and Config/Networks
--   are what the files hold and how it is named; Config/Resolve turns arguments into accounts,
--   contracts, addresses and networks by the locator; Config/Defaults is `Config`, the file of
--   `UpgradeCheck`, and `remove_identity` with the keyring. The proofs are in the children of Disk,
--   Directories, Writes and Defaults, and in Config/KeyNames and Config/Meaning.
-- ArgParsing (cmd/soroban-cli/src/commands/contract/arg_parsing.rs): the call that `contract invoke`
--   makes, by Spec for the values and by Config for addresses and signers; clap is a parameter. The
--   proofs are in ArgParsing/Arguments.
-- Envelopes (cmd/soroban-cli/src/signer.rs and config/sign_with.rs): the signing of transaction
--   envelopes by a key of Config. The proofs are in Envelopes/Signed.
-- Commands (cmd/soroban-cli/src/commands, events.rs, contract/extend.rs and contract/restore.rs): the
--   checks and the request of `events`, and what `contract extend` and `contract restore` read from the
--   response.
-- Invoke (cmd/soroban-cli/src/commands/contract/invoke.rs): the run of `contract invoke` on top of
--   Assembled and Fee, with the requests to the server in their order; `Steps` has the operations of
--   ArgParsing, Config, Signer and Envelopes. The proofs are in Invoke/Sending and Invoke/Sent.
-- Snapshot (cmd/soroban-cli/src/commands/snapshot/create.rs and tx/builder/asset.rs): Snapshot/Entries has
--   `data_into_key`, Snapshot/Search the loop over the buckets, Snapshot/Assets the issuer of an asset,
--   Snapshot/Archive the addresses of the archive, Snapshot/Run `run`. The proofs are in
--   Snapshot/Newest, Advances, Steps, Streams, Rounds, Complete, Closed and Distinct.
-- SpecJson (cmd/crates/soroban-spec-json/src): the JSON of a spec. The proofs are in SpecJson/Laws.
-- Generate (cmd/soroban-cli/src/commands/keys/generate.rs and signer/secure_store.rs): a new identity on
--   top of Config. The proof is in Generate/Stored.
-- Prelude: tests, lists, text, results, bits, integers and number parsing.
--
-- Machine integers are natural numbers with their wrap-around written out; `u64` addition in
-- `assemble` wraps as in a release build. A panic of the source is an error of the model
-- (`panic`), and `none` in `from_u64`. A struct that was mutated is returned.
--
-- Fuel: `from_json`, `xdr_to_json`, `arg_value_name` and `example` recur on values and types and,
-- through the names of user-defined types, on the spec, which may be circular; the fuel bounds the
-- nesting, and running out is the error `out_of_fuel` or `overflow`. `Spec.Stands.depth` and
-- `Spec.Termination.weight` measure that nesting.
--
-- Paths are lists of components, and the disk maps them to files and directories; symbolic links, `..`
-- inside a path and other processes are not modelled, and all paths count from one root. A `Host`
-- says which calls of `std::fs` fail, and what a failed write leaves. A `HashMap` is an association
-- list, and theorems speak of look-ups only.
--
-- Parameters: what other crates do is in the records `Crates`, `Xdr`, `Codec`, `Crypto`, `KeyCrates` and
-- `Format`. `SemVer` is the order of versions. `IsLawful` states what the round trip takes from them:
-- JSON numbers keep integers, and XDR limits admit lengths up to the limit. `ReadsBack` and
-- `PrintsMaps` say that toml and serde_json parse what they printed.
-- `WalletCrates` and `Transport` are those of Ledger, and `IsSigner` is how the wallet treats the
-- chunks: the first starts a new text, and the last is answered by a signature.
--
-- Not modelled: `Spec::doc` and reading specs from WASM, `hash` and `log` of `Assembled`, the order
-- of keys in JSON objects, the parsing of ledger keys, and the rest of the CLI:
-- the calls over the network, the other transaction and contract commands, the cache of
-- responses and the bindings.
pub mod Prelude
pub mod Xdr
pub mod ArgParsing
pub mod Assembled
pub mod Config
pub mod Commands
pub mod Envelopes
pub mod Fee
pub mod Invoke
pub mod Generate
pub mod Ledger
pub mod Snapshot
pub mod Signer
pub mod Spec
pub mod SpecJson
pub mod Toid
pub mod TxNew
pub mod Upgrade
