-- ===== src/Auth/Unified/Adoption.antt =====
-- Which keys the unified authenticator adds to its own and writes to disk.
use irosh.Common.{ℕ, ◌≡◌, refl, ◌⊎◌, inl, inr, true, [], ◌∷◌, ◌++◌, none, some, Eq, arith}
use irosh.Storage.Disk.{insert, holds}
use irosh.Storage.Trust.{write_authorized_client, key_path}
use irosh.Auth.Types.{Text, Crypto}
use irosh.Auth.Unified.{
  UnifiedAuthenticator, is_locked_out, reset_failures, record_failure, vault_keys,
  check_password_match, adopt, accept_wormhole, check_password, check_by_password,
}
use irosh.Auth.Unified.Grants.{IsFirst, is_locked_out_cases}

module _ {Key : Type 0} ⦃e : Eq Key⦄ (crypto : Crypto Key) (now : ℕ) where
  -- A check of a key that starts at `v` and ends at `v'` has stored nothing, or the first key.
  abbrev pub StoresFirst : Key → UnifiedAuthenticator Key → UnifiedAuthenticator Key → Type 0
  StoresFirst key v v' =
      ((v'.disk ≡ v.disk)
        × ((v'.authorized_keys ≡ v.authorized_keys)
            ⊎ (v'.authorized_keys ≡ vault_keys v.disk v.authorized_keys)))
      ⊎ (IsFirst crypto now v
          × (v'.authorized_keys ≡ vault_keys v.disk v.authorized_keys ++ (key ∷ []))
          × (v'.disk.clients
              ≡ insert (key_path (crypto.fingerprint key)) (holds key) v.disk.clients))

  -- A password check that starts at `v` and ends at `v'` has stored nothing, or the cached key
  -- after the temporary password.
  abbrev pub StoresCached : Text → UnifiedAuthenticator Key → UnifiedAuthenticator Key → Type 0
  StoresCached pw v v' =
      ((v'.disk ≡ v.disk) × (v'.authorized_keys ≡ v.authorized_keys))
      ⊎ ((key : Key) × (v.cached_key ≡ some key)
          × (check_password_match crypto v.disk v.temp_password_hash pw ≡ some true)
          × (v'.authorized_keys ≡ v.authorized_keys ++ (key ∷ []))
          × (v'.disk.clients
              ≡ insert (key_path (crypto.fingerprint key)) (holds key) v.disk.clients)
          × (v'.success_flag ≡ true))

  check_by_password_stores :
      (pw : Text) (v : UnifiedAuthenticator Key)
      → StoresCached pw v (check_by_password crypto now pw v).1
        × ((check_by_password crypto now pw v).1.cached_key ≡ none)
  unfolding check_by_password accept_wormhole adopt write_authorized_client reset_failures
      record_failure
  check_by_password_stores pw v = ground arith

  -- A password check adds no key but the one that this connection showed before, and only after
  -- the temporary password; unless it is refused by the lockout, it forgets that key.
  pub check_password_stores :
      (pw : Text) (v : UnifiedAuthenticator Key)
      → StoresCached pw v (check_password crypto now pw v).1
        × (((is_locked_out now v).0 ≡ true)
            ⊎ ((check_password crypto now pw v).1.cached_key ≡ none))
  unfolding check_password reset_failures
  check_password_stores pw v = elim (is_locked_out_cases crypto now v) [
    | inl on ↦ rw on (inl (refl, refl), inl refl)
    | inr (inl off) ↦
        let (stored, gone) = check_by_password_stores pw v in rw off (stored, inr gone)
    | inr (inr off) ↦
        let (stored, gone) = check_by_password_stores pw (reset_failures v) in
        rw off (stored, inr gone)
  ]
