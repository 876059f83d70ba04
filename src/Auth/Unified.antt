-- ===== src/Auth/Unified.antt =====
-- src/auth/unified.rs: the authenticator of the unified security policy.
-- The shared state (keys, counter, disk) and the key cached by one connection stand in one record,
-- the view that a connection has; src/auth/unified.rs makes such a view by `for_new_session`.
-- A check holds no lock from its start to its end; the model runs one check after the other.
pub mod Grants
pub mod Adoption
pub mod Lockout
pub mod Pairing
use irosh.Common.{
  ℕ, ◌+◌, ◌-◌, ◌%◌, ◌^◌, Bool, true, false, ◌||◌, ltb, leb, List, [], ◌∷◌, ◌++◌, is_empty, Option,
  none, some, Result, ok, err, if◌then◌else◌, Eq, contains,
}
use irosh.Storage.Disk.{Disk, StorageError}
use irosh.Storage.Shadow.{load_shadow_file}
use irosh.Storage.Trust.{load_all_authorized_clients, write_authorized_client}
use irosh.Storage.Trust.Laws.{keys_of}
use irosh.Auth.Types.{
  Text, HostKeyPolicy, strict, tofu, accept_all, AuthMethod, public_key, password, Verification,
  matches, invalid, unusable, AuthError, storage, lockout_window, Crypto,
}

-- A notification channel, if there is one, is the number of messages sent on it.
pub record UnifiedAuthenticator (Key : Type 0) : Type 0 where
  pub disk : Disk Key
  pub policy : HostKeyPolicy
  pub authorized_keys : List Key
  pub temp_password_hash : Option Text
  pub success_flag : Bool
  pub failed_attempts : ℕ
  pub last_failure : Option ℕ
  pub cached_key : Option Key
  pub success_tx : Option ℕ
  pub failure_tx : Option ℕ

abbrev pub notify : Option ℕ → Option ℕ
notify none = none
notify (some sent) = some (sent + 1)

abbrev pub is_some : {A : Type 0} → Option A → Bool
is_some none = false
is_some (some a) = true

module _ {Key : Type 0} where
  -- `UnifiedAuthenticator::new`
  abbrev pub new_authenticator :
      Disk Key → HostKeyPolicy → List Key → Option Text → UnifiedAuthenticator Key
  new_authenticator disk policy keys hash = record {
    disk = disk;
    policy = policy;
    authorized_keys = keys;
    temp_password_hash = hash;
    success_flag = false;
    failed_attempts = 0;
    last_failure = none;
    cached_key = none;
    success_tx = none;
    failure_tx = none;
  }

  unfoldable pub for_new_session : UnifiedAuthenticator Key → UnifiedAuthenticator Key
  for_new_session v = record v { cached_key = none }

  unfoldable pub is_locked_out : ℕ → UnifiedAuthenticator Key → Bool × UnifiedAuthenticator Key
  is_locked_out now v = if ltb v.failed_attempts 3 then (false, v) else elim v.last_failure [
    | none ↦ (true, v)
    | some last ↦
        if ltb lockout_window (now - last)
        then (false, record v { failed_attempts = 0 })
        else (true, v)
  ]

  unfoldable pub reset_failures : UnifiedAuthenticator Key → UnifiedAuthenticator Key
  reset_failures v = record v { failed_attempts = 0 }

  -- `fetch_add` wraps at 32 bits.
  unfoldable pub record_failure : ℕ → UnifiedAuthenticator Key → UnifiedAuthenticator Key
  record_failure now v = record v {
    last_failure = some now;
    failed_attempts = (v.failed_attempts + 1) % 2 ^ 32;
    failure_tx = if leb 3 (v.failed_attempts + 1) then notify v.failure_tx else v.failure_tx;
  }

  -- The keys after a refresh from disk. An error of the refresh, which `check_public_key` drops,
  -- leaves them as they are.
  unfoldable pub vault_keys : Disk Key → List Key → List Key
  vault_keys disk keys = elim (load_all_authorized_clients disk) [
    | ok vault ↦ keys_of vault
    | err e ↦ keys
  ]

  abbrev pub refresh_keys : UnifiedAuthenticator Key → UnifiedAuthenticator Key
  refresh_keys v = record v { authorized_keys = vault_keys v.disk v.authorized_keys }

  unfoldable pub notify_success : UnifiedAuthenticator Key → UnifiedAuthenticator Key
  notify_success v = record v { success_tx = notify v.success_tx }

  -- A shadow file that cannot be read counts as a password.
  unfoldable pub node_pw_exists : Disk Key → Bool
  node_pw_exists disk = elim (load_shadow_file disk) [ ok hash ↦ is_some hash | err e ↦ true ]

  unfoldable pub supported_methods : UnifiedAuthenticator Key → List AuthMethod
  supported_methods v =
      if node_pw_exists v.disk || is_some v.temp_password_hash
      then public_key ∷ password ∷ []
      else public_key ∷ []

module _ {Key : Type 0} (crypto : Crypto Key) where
  abbrev pub verifies : Text → Text → Bool
  verifies pw hash = elim (crypto.verify_password pw hash) [ matches ↦ true | _ ↦ false ]

  -- The check against the temporary password, the last part of `check_password_match`.
  unfoldable pub check_temp_password : Option Text → Text → Option Bool
  check_temp_password none pw = none
  check_temp_password (some hash) pw = if verifies pw hash then some true else none

  unfoldable pub check_password_match : Disk Key → Option Text → Text → Option Bool
  check_password_match disk temp_hash pw = elim (load_shadow_file disk) [
    | ok (some hash) ↦ if verifies pw hash then some false else check_temp_password temp_hash pw
    | ok none ↦ check_temp_password temp_hash pw
    | err e ↦ none
  ]

  -- A key is stored and becomes authorized, as in the two places that add one.
  unfoldable pub adopt :
      Key → UnifiedAuthenticator Key → Result AuthError Bool × UnifiedAuthenticator Key
  unfolding notify_success
  adopt key v =
      let (r, disk) = write_authorized_client (crypto.fingerprint key) key v.disk in
      elim r [
        | ok event ↦ (
          ok true,
          notify_success (record v {
            disk = disk;
            authorized_keys = v.authorized_keys ++ (key ∷ []);
            success_flag = true;
          }),
        )
        | err e ↦ (err (storage e), record v { disk = disk })
      ]

module _ {Key : Type 0} ⦃e : Eq Key⦄ (crypto : Crypto Key) (now : ℕ) where
  -- The tests 2 to 5 of `check_public_key`, for a key that is not in the refreshed vault.
  unfoldable pub check_unknown_key :
      Key → UnifiedAuthenticator Key → Result AuthError Bool × UnifiedAuthenticator Key
  check_unknown_key key v = elim v.policy [
    | strict ↦ (ok false, record_failure now v)
    | _ ↦
        if node_pw_exists v.disk || is_some v.temp_password_hash
        then (ok false, record v { cached_key = some key })
        else if is_empty v.authorized_keys
        then (let (r, v') = adopt crypto key v in
            elim r [ ok b ↦ (ok b, reset_failures v') | err x ↦ (err x, v') ])
        else (ok false, record_failure now v)
  ]

  -- From the test of the vault on.
  unfoldable pub check_vault :
      Key → UnifiedAuthenticator Key → Result AuthError Bool × UnifiedAuthenticator Key
  check_vault key v =
      if contains v.authorized_keys key
      then (ok true, reset_failures v)
      else (let v' = refresh_keys v in
          if contains v'.authorized_keys key
          then (ok true, reset_failures v')
          else check_unknown_key key v')

  -- What `check_public_key` does when it is not locked out.
  unfoldable pub check_by_policy :
      Key → UnifiedAuthenticator Key → Result AuthError Bool × UnifiedAuthenticator Key
  check_by_policy key v = elim v.policy [ accept_all ↦ (ok true, v) | _ ↦ check_vault key v ]

  unfoldable pub check_public_key :
      Key → UnifiedAuthenticator Key → Result AuthError Bool × UnifiedAuthenticator Key
  check_public_key key v =
      let (locked, v') = is_locked_out now v in
      if locked then (ok false, v') else check_by_policy key v'

  -- The temporary password was given: the key that this connection showed becomes authorized.
  unfoldable pub accept_wormhole :
      UnifiedAuthenticator Key → Result AuthError Bool × UnifiedAuthenticator Key
  accept_wormhole v = elim v.cached_key [
    | none ↦ (ok true, v)
    | some key ↦
        (let v' = record v { cached_key = none } in
          if contains v'.authorized_keys key then (ok true, v') else adopt crypto key v')
  ]

  -- What `check_password` does when it is not locked out.
  unfoldable pub check_by_password :
      Text → UnifiedAuthenticator Key → Result AuthError Bool × UnifiedAuthenticator Key
  check_by_password pw v = elim (check_password_match crypto v.disk v.temp_password_hash pw) [
    | some true ↦
        (let (r, v') = accept_wormhole v in
          elim r [ ok b ↦ (ok true, reset_failures v') | err x ↦ (err x, v') ])
    | some false ↦ (ok true, reset_failures (record v { cached_key = none }))
    | none ↦ (ok false, record_failure now (record v { cached_key = none }))
  ]

  unfoldable pub check_password :
      Text → UnifiedAuthenticator Key → Result AuthError Bool × UnifiedAuthenticator Key
  check_password pw v =
      let (locked, v') = is_locked_out now v in
      if locked then (ok false, v') else check_by_password pw v'

-- What a client may try on a connection.
pub data Attempt (Key : Type 0) : Type 0 where
  show_key : Key → Attempt Key
  give_password : Text → Attempt Key

module _ {Key : Type 0} ⦃e : Eq Key⦄ (crypto : Crypto Key) where
  unfoldable pub attempt :
      ℕ → Attempt Key → UnifiedAuthenticator Key → Result AuthError Bool × UnifiedAuthenticator Key
  attempt now (show_key key) = check_public_key crypto now key
  attempt now (give_password pw) = check_password crypto now pw

  -- Attempts one after the other, each with its time.
  unfoldable pub run : List (ℕ × Attempt Key) → UnifiedAuthenticator Key → UnifiedAuthenticator Key
  run [] v = v
  run ((now, a) ∷ rest) v = run rest (attempt now a v).1
