-- ===== src/Secrets/Loaded.antt =====
-- What load of internal/secrets/store.go reads of a row.
use flick_drop.Base.{ℕ, ◌≡◌, refl, String, Bool, true, false, Option, some, if◌then◌else◌, subst}
use flick_drop.Sql.{Result, ok, err}
use flick_drop.Secrets.Tables.{SecretRow, is_pending}
use flick_drop.Secrets.Types.{Error, not_found, invalid_input, Bytes, KdfParams, Secret, Library}
use flick_drop.Secrets.Load.{load_row, secret_of, with_kdf, decode_kdf, lacks_body, is_mixed}

module _ (lib : Library) where
  -- A secret that was loaded, and when it was consumed, from an active row with a body.
  pub record IsLoaded (id : String) (r : SecretRow) (payload : Option Bytes) (p : Secret × Option ℕ)
      : Type 0 where
    pub kdf : Option KdfParams
    pub secret : p ≡ (secret_of lib id r payload kdf, r.consumed_at)
    pub active : is_pending r.state ≡ false
    pub unmixed : is_mixed r ≡ false

  abbrev Loads : String → SecretRow → Option Bytes → Result Error (Secret × Option ℕ) → Type 0
  Loads id r payload (ok p) = IsLoaded id r payload p
  Loads id r payload (err e) = Unit {0}

  if-Loads :
      (id : String) (r : SecretRow) (payload : Option Bytes) (b : Bool) (e : Error)
      (x : Result Error (Secret × Option ℕ))
      → (b ≡ false → Loads id r payload x)
      → Loads id r payload (if b then err e else x)
  if-Loads id r payload true e x h = tt
  if-Loads id r payload false e x h = h refl

  load_row-Loads :
      (id : String) (r : SecretRow) (payload : Option Bytes)
      → Loads id r payload (load_row lib id (some r) payload)
  unfolding load_row
  load_row-Loads id r payload =
      let decoded = with_kdf lib id r payload (decode_kdf lib r.access_kdf_params_json) in
      let unmixed = if is_mixed r then err invalid_input else decoded in
      if-Loads id r payload (is_pending r.state) not_found
        (if lacks_body r payload then err not_found else unmixed)
        λ active. if-Loads id r payload (lacks_body r payload) not_found unmixed λ _.
          if-Loads id r payload (is_mixed r) invalid_input decoded
            λ unmixed. loads_kdf active unmixed (decode_kdf lib r.access_kdf_params_json)
    where
      loads_kdf :
          is_pending r.state ≡ false
          → is_mixed r ≡ false
          → (k : Result Error (Option KdfParams)) → Loads id r payload (with_kdf lib id r payload k)
      loads_kdf active unmixed (err e) = tt
      loads_kdf active unmixed (ok k) = record {
        kdf = k;
        secret = refl;
        active = active;
        unmixed = unmixed;
      }

  pub load_row-IsLoaded :
      (id : String) (r : SecretRow) (payload : Option Bytes) (p : Secret × Option ℕ)
      → load_row lib id (some r) payload ≡ ok p
      → IsLoaded id r payload p
  load_row-IsLoaded id r payload p e = subst (Loads id r payload) e (load_row-Loads id r payload)
