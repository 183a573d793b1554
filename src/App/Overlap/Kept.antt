-- ===== src/App/Overlap/Kept.antt =====
-- What requests of src/app.rs that overlap keep.
use secret_management.Prelude.{subst, ℕ, refl, sym, ap, List, [], ◌∷◌, inl, inr, Option-cases}
use secret_management.Std.Map.{IsDistinct}
use secret_management.Crates.{Crates, SigningCrates}
use secret_management.Auth.{ApiKeyStore}
use secret_management.RateLimit.Sweep.{sweep-IsDistinct}
use secret_management.Services.Growth.{Grows, Grows-refl}
use secret_management.App.{AppState}
use secret_management.App.Routes.{Axum}
use secret_management.App.Serve.{Call}
use secret_management.App.Steps.{
  Extends, Extends-refl, Extends-trans, endpoint-Later, serve-Extends,
}
use secret_management.App.Overlap.{
  Process, Turn, arrives, finishes, cleans, pick, arrive, finish, turn, run,
}
use secret_management.App.Overlap.Serial.{clients-arrive, app-arrive}

module _ {B C D K R : Type 0} (ax : Axum B) (x : Crates C D) (s : SigningCrates K R)
    (keys : ApiKeyStore) (max : ℕ) where
  finish-Extends :
      (n : ℕ) (p : Process B C K R) → Extends s p.world (finish ax x s keys max n p).1.world
  unfolding finish
  finish-Extends n p = elim (Option-cases (pick n p.waiting)) [
    | inl e ↦ rw (e, finish) (Extends-refl s p.world)
    | inr (((target, c), rest), e) ↦
        rw (e, finish)
          (record {
            same_store = (endpoint-Later ax x s target p.world c).0;
            grows = (endpoint-Later ax x s target p.world c).1;
            one_entry = λ h. h;
          })
  ]

  arrive-Extends :
      (c : Call B) (p : Process B C K R) → Extends s p.world (arrive ax x s keys max c p).1.world
  arrive-Extends c p =
      let same = app-arrive ax x s keys max p c in
      record {
        same_store = ap (λ (a : AppState C K R). a.kek_store) same;
        grows =
            subst (λ (a : AppState C K R). Grows s p.world.app.key_service a.key_service) (sym same)
              (Grows-refl s p.world.app.key_service);
        one_entry = λ h.
            subst IsDistinct (sym (clients-arrive ax x s keys max p p.world c refl))
              ((serve-Extends ax x s keys max p.world c).one_entry h);
      }

  -- Whatever requests overlap, and whenever the background task makes a round, from every state of the
  -- process: the key store and the stores of the tenants stay as they are, every RSA key that was
  -- cached is cached still, Ed25519 keys are those derived from the tenants if they were at first, and
  -- the rate limit has one entry for each bucket if it had.
  pub run-Extends :
      (ts : List (Turn B)) (p : Process B C K R)
      → Extends s p.world (run ax x s keys max ts p).world
  unfolding run turn
  run-Extends [] p = Extends-refl s p.world
  run-Extends (arrives c ∷ ts) p = Extends-trans s (arrive-Extends c p) (run-Extends ts _)
  run-Extends (finishes n ∷ ts) p = Extends-trans s (finish-Extends n p) (run-Extends ts _)
  run-Extends (cleans now ∷ ts) p =
      Extends-trans s
        (record {
          same_store = refl;
          grows = Grows-refl s p.world.app.key_service;
          one_entry = λ h. sweep-IsDistinct now p.world.clients h;
        })
        (run-Extends ts _)
