-- ===== src/Kek/Lookup.antt =====
-- The three ladders of lookups in src/crypto/kek_provider.rs agree.
use secret_management.Prelude.{String, ◌≡◌, ◌≢◌, ◌↔◌, none, arith, eq_iff}
use secret_management.Std.Map.{get}
use secret_management.Kek.{KekStore, resolve, resolve_arc, resolve_raw}

module _ {C : Type 0} (st : KekStore C) where
  -- `resolve_arc` spells out what `resolve` chains.
  pub resolve_arc-eq-resolve : (id : String) → resolve_arc st id ≡ resolve st id
  unfolding resolve_arc resolve
  resolve_arc-eq-resolve id = ground arith

  -- A key is missing exactly for an id that is neither the current one, nor a former one, nor the
  -- "primary" that an envelope without an id is given.
  pub resolve_raw-eq-none_iff :
      (id : String)
      → (resolve_raw st id ≡ none)
        ↔ ((id ≢ st.current_id) × (id ≢ "primary") × (get id st.previous_raw ≡ none))
  unfolding resolve_raw
  resolve_raw-eq-none_iff id =
      ground (arith, eq_iff id st.current_id, eq_iff id "primary", eq_iff st.current_id "primary")
