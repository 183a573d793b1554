-- ===== src/Lib.antt =====
-- A secret manager over HTTP: it encrypts payloads under fresh data keys, which it wraps with key
-- encryption keys that rotate, and guards its routes with API keys, roles and rate limits.
--
-- The program's parts, and the files that model them:
--   src/domain/errors.rs                 Errors: `CryptoError`, the error of every layer below HTTP
--   src/crypto/policy.rs                 Policy: which primitives a classification admits
--   src/crypto/aad.rs                    Aad: the associated data, four fields with length prefixes
--   src/crypto/symmetric                 Symmetric: the two ciphers, with their check of the nonce
--   src/crypto/kek_provider.rs           Kek: the keys, the lookups by id, and (Kek/FromEnv) the
--                                        scan of the environment that fills the maps
--   src/crypto/envelope.rs               Envelope: `encrypt_envelope`; Envelope/Decrypt has
--                                        `decrypt_envelope`
--   src/services                         Services: `KeyService`, the stores of the tenants and their
--                                        signing keys, and `CryptoService`
--   src/crypto/hash                      Hash: the four hashes
--   src/api/models.rs, handlers.rs       Api: the requests of /encrypt and /decrypt with their limits,
--                                        and the handlers
--   src/api/dto.rs, v1.rs                Api/Dto, Api/V1: the requests and handlers of /v1/crypto, with
--                                        signatures in Api/V1/Sign and hashes in Api/V1/Hashes
--   src/middleware/auth.rs               Auth: `require_api_key`; Auth/FromEnv reads the API keys
--   src/middleware/rate_limit.rs         RateLimit: the windows, the sweep and the bucket of a request
--   src/middleware/headers.rs            Headers: the headers that every answer of a route gets
--   src/app.rs                           App: the state that `create_app` builds; App/Routes has the
--                                        routes with their handlers, App/Serve the layers around
--                                        them, App/Steps the process as a relation between states.
--                                        App/Answers and App/Refused are about one request,
--                                        App/Sessions, App/Envelopes, App/Traffic and App/Restart
--                                        about several, App/Overlap about requests that overlap (with
--                                        the draws that they make in App/Overlap/Fresh),
--                                        App/Operations and App/Schemas about the OpenAPI
--                                        document, App/Outer about CORS
--                                        and Swagger around the routes
--   src/crypto/keys.rs                   Memory: buffers with their bytes, and the wrappers that erase
--                                        theirs on drop; Memory/Envelope, Memory/Handlers and
--                                        Memory/Kek have the code of envelopes, services, handlers
--                                        and keys once more, over buffers in place of bytes
--   src/main.rs                          Startup: the start, up to the address to listen on
--
-- A request passes the API key check and then the rate limit; its answer gets the security
-- headers. In App/Steps a request is one step of the process, and so is a round of the task that
-- forgets old clients. In App/Overlap the layers and the handler of a request are two turns,
-- with turns of other requests in between, as where the code awaits the body of the request. The
-- state that requests share is the clients of the rate limit and the caches of the services; the
-- code changes each at one entry, under its lock. The handlers call the envelope code with a key
-- store, or with the store that the services find for a tenant. The envelope code asks the
-- policy whether an algorithm is admitted, encodes the associated data and calls the ciphers.
-- Functions, fields and constructors keep the source's names; Rust's `?` is a bind of `Result`,
-- Rust's `HashMap` an association list in which the first entry for a key counts (Std/Map), and
-- `str` is the native text, with the methods that the program calls in Std/Text, Std/Utf8 and
-- Std/Net. Lookups take an id of `str` type, bytes are numbers below 256.
--
-- Crates holds what the program takes from other packages: the ciphers, Base64, hexadecimal, random
-- bytes and Unicode lower case are fields of a record, the signatures and hashes of another, and
-- each is a parameter of every definition that uses it. `Axum` of App/Routes has the extractors of
-- JSON, the headers of answers and the answers of the router itself; `Outer` of App/Outer has what
-- CORS and the router of Swagger answer by themselves. The records `IsLawful`, `IsTagged`,
-- `IsSized`, `IsLawfulSigning`, `IsAuthentic`, `IsRejecting` and `IsOuter` state what the documentation of the packages
-- promises. The authenticity of a cipher is that of an ideal one: it never accepts a ciphertext
-- under other associated data than its own. Tests/Toy, Tests/Short, Tests/Signing,
-- Tests/Schemas and Tests/Outer have values that keep these laws.
--
-- Random bytes come from a stream of draws: a computation takes the number of draws made and gives
-- it back. Instants of the rate limit are numbers of nanoseconds; its counter wraps at 2^64 as
-- `usize` does in a release build. The prefix of a field's length is taken modulo 2^32, as the
-- cast does. Every loop runs over a list or a text, except that of `decimal` in Std/Text, whose
-- fuel of 20 is the number of digits of the largest `usize`.
--
-- In Memory a buffer is in memory for ever, with the bytes it had when it was freed; a scope wipes
-- what it owns at its end, with a result or with an error. The Base64 texts of requests and answers,
-- the copies that the ciphers make inside their packages and the maps of the key store, which lives
-- as long as the process, are no buffers there.
--
-- Not modelled: the traits (src/crypto/traits.rs) and the models that nothing uses
-- (src/domain/models.rs); logging; the text of JSON, the OpenAPI document but for its paths and
-- the schemas of requests and answers, and the tracing of src/app.rs, which configure other
-- packages; the socket and the signals of src/main.rs.
pub mod Prelude
pub mod Std
pub mod Errors
pub mod Policy
pub mod Aad
pub mod Crates
pub mod Kek
pub mod Symmetric
pub mod Envelope
pub mod Http
pub mod Auth
pub mod RateLimit
pub mod Hash
pub mod Headers
pub mod Services
pub mod Api
pub mod App
pub mod Memory
pub mod Startup
pub mod Tests
