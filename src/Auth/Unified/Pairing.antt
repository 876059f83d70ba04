-- ===== src/Auth/Unified/Pairing.antt =====
-- Pairing by a temporary password, from the first handshake to the next ones.
use irosh.Common.{
  ℕ, ◌<◌, ◌≡◌, refl, true, false, [], ◌∷◌, ◌++◌, is_empty, none, some, ok, Eq, contains, arith,
  contains-append_one,
}
use irosh.Storage.Disk.{insert, holds}
use irosh.Storage.Shadow.{load_shadow_file}
use irosh.Storage.Trust.{write_authorized_client, key_path, all_keys}
use irosh.Auth.Types.{Text, tofu, Crypto}
use irosh.Auth.Unified.{
  UnifiedAuthenticator, is_locked_out, reset_failures, refresh_keys, vault_keys, node_pw_exists,
  verifies, notify, check_temp_password, check_password_match, adopt, check_unknown_key,
  check_vault, check_public_key, accept_wormhole, check_password, check_by_policy,
  check_by_password, for_new_session, notify_success,
}
use irosh.Storage.Trust.Laws.{keys_of, all_keys-insert, pub_stem-key_path}

module _ {Key : Type 0} ⦃e : Eq Key⦄ (crypto : Crypto Key) where
  -- A node that waits for a peer to pair: an unknown key, a temporary password and no node
  -- password, a policy that may learn, a disk that works, and no lockout.
  pub record IsPairing (key : Key) (hash : Text) (v : UnifiedAuthenticator Key) : Type 0 where
    pub learns : v.policy ≡ tofu
    pub open_to : v.temp_password_hash ≡ some hash
    pub no_node_password : load_shadow_file v.disk ≡ ok none
    pub unknown : contains v.authorized_keys key ≡ false
    pub unknown_stored : contains (vault_keys v.disk v.authorized_keys) key ≡ false
    pub writable : v.disk.writable ≡ true
    pub unlocked : v.failed_attempts < 3

  -- The key of a new peer is first refused, so that its client asks for the password.
  check_public_key-IsPairing :
      (now : ℕ) (key : Key) (hash : Text) (v : UnifiedAuthenticator Key)
      → IsPairing key hash v
      → check_public_key crypto now key v
        ≡ (ok false, record (refresh_keys v) { cached_key = some key })
  unfolding check_public_key is_locked_out check_by_policy check_vault check_unknown_key
      node_pw_exists
  check_public_key-IsPairing now key hash v p = ground arith

  paired :
      (now : ℕ) (pw hash : Text) (key : Key) (v : UnifiedAuthenticator Key)
      → v.cached_key ≡ some key
      → v.temp_password_hash ≡ some hash
      → load_shadow_file v.disk ≡ ok none
      → contains v.authorized_keys key ≡ false
      → v.disk.writable ≡ true
      → v.failed_attempts < 3
      → verifies crypto pw hash ≡ true
      → let (r, v') = check_password crypto now pw v in
        (r ≡ ok true)
        × (v'.authorized_keys ≡ v.authorized_keys ++ (key ∷ []))
        × (v'.disk.clients ≡ insert (key_path (crypto.fingerprint key)) (holds key) v.disk.clients)
        × (v'.success_flag ≡ true)
        × (v'.failed_attempts ≡ 0)
        × (v'.success_tx ≡ notify v.success_tx)
  unfolding check_password is_locked_out check_by_password check_password_match check_temp_password
      accept_wormhole adopt write_authorized_client reset_failures notify_success
  paired now pw hash key v h₀ h₁ h₂ h₃ h₄ h₅ h₆ = ground arith

  -- A key that is authorized is let in, unless the lockout is on.
  check_public_key_known :
      (now : ℕ) (key : Key) (v : UnifiedAuthenticator Key)
      → contains v.authorized_keys key ≡ true
      → v.failed_attempts < 3
      → (check_public_key crypto now key v).0 ≡ ok true
  unfolding check_public_key is_locked_out check_by_policy check_vault
  check_public_key_known now key v h low = ground arith

  listed :
      (fingerprint : Text) (key : Key) (v v' : UnifiedAuthenticator Key)
      → is_empty fingerprint ≡ false
      → v'.disk.clients ≡ insert (key_path fingerprint) (holds key) v.disk.clients
      → contains (keys_of (all_keys v'.disk.clients)) key ≡ true
  listed [] key v v' full h = cc
  listed (c ∷ cs) key v v' full h =
      rw h (all_keys-insert (key_path (c ∷ cs)) _ key v.disk.clients (pub_stem-key_path c cs))

  -- At a node that waits for a peer to pair (`IsPairing`), for a key whose fingerprint is not
  -- empty: a new peer that shows its key is refused and may give a password; that check, of the
  -- temporary password, returns success. Its key
  -- is in memory and among the clients on disk, the wormhole is told, and a later connection is
  -- let in by the key alone.
  pub run_pairs :
      (t₁ t₂ t₃ : ℕ) (pw hash : Text) (key : Key) (v : UnifiedAuthenticator Key)
      → IsPairing key hash v
      → verifies crypto pw hash ≡ true
      → is_empty (crypto.fingerprint key) ≡ false
      → let (asked, v₁) = check_public_key crypto t₁ key v in
        let (let_in, v') = check_password crypto t₂ pw v₁ in
        (asked ≡ ok false)
        × (let_in ≡ ok true)
        × (contains v'.authorized_keys key ≡ true)
        × (contains (keys_of (all_keys v'.disk.clients)) key ≡ true)
        × (v'.success_flag ≡ true)
        × (v'.success_tx ≡ notify v.success_tx)
        × ((check_public_key crypto t₃ key (for_new_session v')).0 ≡ ok true)
  unfolding for_new_session
  run_pairs t₁ t₂ t₃ pw hash key v p h full =
      let w = record (refresh_keys v) { cached_key = some key } in
      let (granted, keys, clients, flag, low, told) =
        paired t₂ pw hash key w refl p.open_to p.no_node_password p.unknown_stored p.writable
          p.unlocked h in
      let v' = (check_password crypto t₂ pw w).1 in
      let known : contains v'.authorized_keys key ≡ true =
        rw keys (contains-append_one w.authorized_keys key) in
      rw (check_public_key-IsPairing t₁ key hash v p) (
        refl,
        granted,
        known,
        listed (crypto.fingerprint key) key v v' full clients,
        flag,
        told,
        check_public_key_known t₃ key (for_new_session v') known (omega (arith, low)),
      )
