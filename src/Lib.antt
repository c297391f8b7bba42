-- ===== src/Lib.antt =====
-- A model of secrets-manager, a server that keeps the secrets of projects encrypted in SQLite, and
-- its client.
--
-- Parts, and the files that model them:
--   Crates         what comes from third-party crates (cipher, Argon2, SHA-256, base64, random
--                  numbers, clock, rowids): a record of functions, and records of laws that theorems
--                  take as hypotheses
--   Crypto         crates/secrets-crypto/src/lib.rs: derive_key, aad_bytes, encrypt, decrypt,
--                  generate_salt, hash_token, ct_eq, generate_token
--   Server.State   the state: the tables of crates/secrets-server/src/db.rs, the faults of the
--                  accesses to come, the numbers of random draws and clock readings, the poisoned
--                  flag of the mutex of app.rs, the audit log; statements and transactions
--   Server.Repo    crates/secrets-server/src/repo.rs, a module for each table
--   Server.Tables  what those statements do to the tables
--   Server.Schema  crates/secrets-server/src/db.rs: the migration, on tables of columns and rows
--   Server.CryptoState  crates/secrets-server/src/crypto_state.rs: first start, verification, rekey
--   Server.Error, Server.Auth, Server.Audit, Server.Names, Server.Handlers  error.rs, auth.rs, audit.rs
--                  and handlers.rs of crates/secrets-server/src; a handler is an action on the state
--                  that gives a response value or an AppError
--   Server.History the routes of app.rs as steps of a running server, and histories of steps
--   Server.Config, Server.Lock, Server.Commands  config.rs, lock.rs and commands.rs: what a process
--                  finds around it, the lock files, and the commands on a machine, which is the
--                  state above with the locks held, the server that runs and what is typed
--   Server.Soundness  what the tables hold at any time under a key, and that requests keep it
--   Server.Vault   the secrets as a map from project and key to value, and the changes of it
--   Server.System  the commands, requests and ends of servers in any order, on one database
--   Client         crates/secrets-client/src: the keys that api.rs accepts, the dotenv text of
--                  commands.rs, the cache of cache.rs (entries, files on a disk of which accesses
--                  fail, the cache key), the requests of api.rs over a network as a parameter, and
--                  the configuration of config.rs
--   Exec           the monad of all of them: code that changes a state and returns, fails or panics
--   Prelude        Booleans, lists, byte strings, UTF-8 and ordered maps
--   Examples       a small instance of the crates, and runs
--
-- A request runs `from_request_parts` and then a handler; both hold the database mutex while they use
-- it, so that requests interleave only between handlers: a history is a sequence of handler runs.
-- `serve` takes the lock, runs `init_or_verify` and then serves; `rekey` runs under the lock. A client
-- asks the server first and turns to its cache where there is no answer.
--
-- Text is a list of bytes, a byte a number. Every access to a file may fail, as `faults` says. A
-- statement writes all it has to or nothing; a transaction that does not end well restores the tables
-- it began with. A panic under the mutex poisons it. Every loop goes through a list of rows, so no
-- fuel is needed.
--
-- Not modelled: the matching of paths to routes, the command line of the client, its commands but
-- for the text of an export, the cache keys that Windows and macOS keep, the opening of the database
-- file, and what has no effect on values (zeroized memory, Debug output, what is printed). The
-- client's requests are not composed with the server's handlers: the network is any function.
mod Prelude
pub mod Exec
pub mod Crates
pub mod Crypto
pub mod Server
pub mod Client
pub mod Examples
