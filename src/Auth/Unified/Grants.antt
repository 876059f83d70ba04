-- ===== src/Auth/Unified/Grants.antt =====
-- Whom the unified authenticator lets in, and what it then writes down.
use irosh.Common.{
  ℕ, ◌≡◌, refl, ◌⊎◌, inl, inr, true, false, is_empty, Option, none, some, ok, Eq, contains, arith,
}
use irosh.Storage.Shadow.{load_shadow_file}
use irosh.Auth.Types.{Text, tofu, Crypto}
use irosh.Auth.Unified.{
  UnifiedAuthenticator, is_locked_out, reset_failures, vault_keys, node_pw_exists, verifies,
  check_temp_password, check_password_match, check_password, check_by_password,
}

module _ {Key : Type 0} ⦃e : Eq Key⦄ (crypto : Crypto Key) (now : ℕ) where
  -- The first key of all: no key is stored and no password is set.
  abbrev pub IsFirst : UnifiedAuthenticator Key → Type 0
  IsFirst v =
      (v.policy ≡ tofu)
      × (node_pw_exists v.disk ≡ false)
      × (v.temp_password_hash ≡ none)
      × (is_empty (vault_keys v.disk v.authorized_keys) ≡ true)
      × (v.disk.writable ≡ true)

  -- Why the tests from the vault on let a key in.
  abbrev Known : Key → UnifiedAuthenticator Key → Type 0
  Known key v =
      (contains v.authorized_keys key ≡ true)
      ⊎ (contains (vault_keys v.disk v.authorized_keys) key ≡ true)
      ⊎ IsFirst v

  pub is_locked_out_cases :
      (v : UnifiedAuthenticator Key)
      → (is_locked_out now v ≡ (true, v))
        ⊎ (is_locked_out now v ≡ (false, v))
        ⊎ (is_locked_out now v ≡ (false, reset_failures v))
  unfolding is_locked_out reset_failures
  is_locked_out_cases v = ground arith

  -- The password matches the stored node password, or the temporary one; never while the shadow
  -- file cannot be read.
  abbrev pub Proves : Text → UnifiedAuthenticator Key → Type 0
  Proves pw v =
      ((hash : Text) × (load_shadow_file v.disk ≡ ok (some hash))
        × (verifies crypto pw hash ≡ true))
      ⊎ ((hash : Text) × (v.temp_password_hash ≡ some hash)
          × (verifies crypto pw hash ≡ true)
          × ((o : Option Text) × (load_shadow_file v.disk ≡ ok o)))

  check_by_password_grants :
      (pw : Text) (v : UnifiedAuthenticator Key)
      → (check_by_password crypto now pw v).0 ≡ ok true
      → Proves pw v
  unfolding check_by_password check_password_match check_temp_password
  check_by_password_grants pw v h = ground arith

  -- A password lets a client in only while the lockout is off, and then only because it matches
  -- the node password or the temporary one. With an unreadable shadow file no password does.
  pub check_password_grants :
      (pw : Text) (v : UnifiedAuthenticator Key)
      → (check_password crypto now pw v).0 ≡ ok true
      → ((is_locked_out now v).0 ≡ false) × Proves pw v
  unfolding check_password reset_failures
  check_password_grants pw v h = elim (is_locked_out_cases v) [
    | inl on ↦ cc (rw on at h)
    | inr (inl off) ↦ rw off (refl, check_by_password_grants pw v (rw off at h))
    | inr (inr off) ↦ rw off (refl, check_by_password_grants pw (reset_failures v) (rw off at h))
  ]
