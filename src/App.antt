-- ===== src/App.antt =====
-- src/app.rs: the state that the handlers share. The children have the routes with their handlers
-- and the layers around them.
pub mod Start
pub mod Routes
pub mod Serve
pub mod Answers
pub mod Refused
pub mod Outer
pub mod Steps
pub mod Traffic
pub mod Admitted
pub mod Sessions
pub mod Restart
pub mod Envelopes
pub mod Overlap
pub mod Operations
pub mod Schemas
use secret_management.Prelude.{String, Result, ok, err, ◌>>=◌}
use secret_management.Std.Map.{Env}
use secret_management.Crates.{Crates}
use secret_management.Kek.{KekStore}
use secret_management.Kek.FromEnv
use secret_management.Services.KeyService.{KeyService, from_single}
use secret_management.Services.KeyService

-- `crypto_service` holds the same `KeyService` through its `Arc`.
pub record AppState (C K R : Type 0) : Type 0 where
  pub kek_store : KekStore C
  pub key_service : KeyService C K R

-- `KeyService::from_env`, or else the one store
abbrev pub key_service_or :
    {C K R : Type 0} → KekStore C → Result String (KeyService C K R) → KeyService C K R
key_service_or kek_store (ok ks) = ks
key_service_or kek_store (err _) = from_single kek_store

-- the state that `create_app` builds
unfoldable pub create_app : {C D K R : Type 0} → Crates C D → Env → Result String (AppState C K R)
create_app x env = do
  kek_store ← FromEnv.from_env x env
  ok (record {
    kek_store = kek_store;
    key_service = key_service_or kek_store (KeyService.from_env x env);
  })
