-- ===== src/Lib.antt =====
-- olivechain: a traceability ledger for olive oil and its residues.
--
-- The program records signed events about batches and residue lots. An event is submitted by a
-- registered organisation, checked against its roles and its event type's required fields, chained
-- by hash to the event before, and never deleted: a correction marks what it supersedes. Workflow
-- status, mass balance and rewards are computed from the recorded events.
--
-- Files, and what they model of the directory olivechain/ (the Python package):
--   Base, Result, Effects   lists, dicts, texts, integers; exceptions as values; methods that mutate
--                           and may raise, as functions from a state to a result and the state
--                           after, with their inversions (Effects/Bind) and triples of conditions
--                           (Effects/Ensures)
--   Json                    values of the json module; Json/Dump is `json.dumps` with sorted keys,
--                           so `canonical_json` of crypto.py byte by byte; Json/Access is how the
--                           code reads values, Json/Sorted a dict with its keys in order
--   Crypto                  crypto.py: SHA-256 and Ed25519, a parameter
--   Models                  models.py: roles, event types, PERMISSIONS, REQUIRED_FIELDS
--   Registry                registry.py: `register`, `get`, `_save`, `_load`
--   Event, Ledger           ledger.py: `Event`, and `Ledger` with `append`, `commit_prepared`, the
--                           queries (Ledger/Queries), `verify_chain` (Ledger/Audit) and `_load`
--                           (Ledger/Load)
--   Workflow                workflow.py: `derive_status` (Workflow/Status), `transition_allowed` and
--                           `statuses_from_events` (Workflow/Transition)
--   MassBalance             massbalance.py: `reconcile_residue`
--   Incentives              incentives.py: `due_rewards` and the gates before a reward, and the
--                           class `IncentiveEngine` (Incentives/Engine)
--   Anomaly                 anomaly.py: the four rules of `scan`
--   Wallet                  wallet_auth.py: addresses of wallets, one-time challenges, and
--                           sessions as tokens (Wallet/Session)
--   Portal                  portal_auth.py: the store of users (Portal/Store, Portal/Rows), accounts
--                           (Portal/Users), logins (Portal/Login, Portal/Digest), tokens of sessions
--                           (Portal/Token, Portal/Payload) and the server's secret (Portal/Secret)
--   Evidence                evidence.py: `put` and `verify`
--   Credentials             credentials.py: base58 (Credentials/Base58, over Credentials/Digits), keys
--                           as did:key (Credentials/Keys), `build_passport_credential`
--                           (Credentials/Passport) and `verify_passport_credential`
--                           (Credentials/Verify)
--   Passport                passport.py: `build_passport`
--   Backup                  backup.py: `make_backup`, `read_manifest`, `restore_backup`
--   Oracle                  oracle.py: `fetch_current` and `verify_attestation`
--   FabricRegistry          fabric_registry.py: the registry over the network's organizations
--   World, and the Tests    concrete parameters, runs of the code and the theorems at their states
--
-- State. `_by_id` and `_events` of the ledger share their event objects: the index holds positions
-- of the list, so that a mark is seen through both. The file holds the events of its lines as they
-- were written. `append` and `commit_prepared` end alike, by `land`; what is before it is `prepare`
-- and `recheck`. The clock, uuid4 and fresh keys are arguments.
--
-- Fuel. `effective_payload` follows corrections in a loop that nothing bounds; the model gives it one
-- round more than there are events. A decimal number, and a number in any base, has as much
-- fuel as its value.
--
-- Parameters. `Floats` is binary64 arithmetic and the texts of numbers, `Crypto` the hash and the
-- signatures, with `IsSound` for what Ed25519 documents. `WalletLibrary` and `SessionLibrary` are
-- what wallet_auth.py takes of its libraries, `PortalLibrary` what portal_auth.py does, with
-- `AreTexts` for what its texts are made of, and `AreTokens` says the same of the tokens of
-- wallets; `PathLibrary` is os.path, with `ArePaths` for how hashes and paths are written;
-- `HexLibrary` is bytes.fromhex and hex, `CredentialLibrary`
-- digests, dates and quoting, `ArchiveLibrary` tarfile, json and os.path, `OracleLibrary` the
-- formats of numbers and the answers of the provider. That 2, or 3, equals itself as a float is a
-- hypothesis where the version of a file or a token is compared. World has an instance of the first
-- two, the Tests of the others.
--
-- Not modelled: errors of the file system; the texts of exceptions beyond their template and parts;
-- the secret's file in wallet_auth.py; the locks and constructors, which read the environment; the
-- oracle's key file; the wallet rewards of a passport; fabric_ledger.py and fabric_client.py, which
-- talk to a remote gateway, and the handlers of api.py; the page layout of passport_pdf.py; the
-- chaincode, the gateway agent, the front end and the scripts.
pub mod Backup
pub mod Base
pub mod FabricRegistry
pub mod Passport
pub mod Oracle
pub mod Result
pub mod Effects
pub mod Json
pub mod Crypto
pub mod Models
pub mod Registry
pub mod Event
pub mod Ledger
pub mod Workflow
pub mod MassBalance
pub mod Incentives
pub mod Anomaly
pub mod Wallet
pub mod Evidence
pub mod Credentials
pub mod Portal
pub mod World
