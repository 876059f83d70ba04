-- ===== src/Auth/Unified/Lockout.antt =====
-- The rate limit of failed attempts: it holds for a window, and not for ever.
use irosh.Common.{ℕ, ◌+◌, ◌-◌, ◌≤◌, ◌<◌, ◌≡◌, refl, true, false, [], ◌∷◌, none, some, ok, Eq, arith}
use irosh.Storage.Shadow.{load_shadow_file}
use irosh.Auth.Types.{Text, Crypto, lockout_window}
use irosh.Auth.Unified.{
  UnifiedAuthenticator, is_locked_out, reset_failures, record_failure, verifies, notify,
  check_password_match, check_public_key, check_password, check_by_password, Attempt, show_key,
  give_password, attempt, run,
}

module _ {Key : Type 0} where
  -- The lockout is on: three failures, the last within the window.
  abbrev pub IsLocked : ℕ → UnifiedAuthenticator Key → Type 0
  IsLocked now v =
      (3 ≤ v.failed_attempts)
      × ((last : ℕ) × (v.last_failure ≡ some last) × (now - last ≤ lockout_window))

module _ {Key : Type 0} ⦃e : Eq Key⦄ (crypto : Crypto Key) (now : ℕ) where
  -- While the lockout is on every attempt is refused and changes nothing, whatever the policy and
  -- also for a key that is authorized.
  pub attempt-IsLocked :
      (a : Attempt Key) (v : UnifiedAuthenticator Key)
      → IsLocked now v
      → attempt crypto now a v ≡ (ok false, v)
  unfolding attempt check_public_key check_password is_locked_out
  attempt-IsLocked (show_key key) v h = ground arith
  attempt-IsLocked (give_password pw) v h = ground arith

  -- Once the window has passed since the last failure, the node password that the shadow file
  -- holds is accepted again, and the count is zero.
  pub check_password_recovers :
      (pw hash : Text) (v : UnifiedAuthenticator Key) (last : ℕ)
      → v.last_failure ≡ some last
      → lockout_window < now - last
      → load_shadow_file v.disk ≡ ok (some hash)
      → verifies crypto pw hash ≡ true
      → let (r, v') = check_password crypto now pw v in (r ≡ ok true) × (v'.failed_attempts ≡ 0)
  unfolding check_password is_locked_out check_by_password check_password_match reset_failures
  check_password_recovers pw hash v last h₀ h₁ h₂ h₃ = ground arith

module _ {Key : Type 0} ⦃e : Eq Key⦄ (crypto : Crypto Key) where
  wrong_password :
      (now : ℕ) (pw : Text) (v : UnifiedAuthenticator Key)
      → v.failed_attempts < 3
      → check_password_match crypto v.disk v.temp_password_hash pw ≡ none
      → check_password crypto now pw v
        ≡ (ok false, record_failure now (record v { cached_key = none }))
  unfolding check_password is_locked_out check_by_password
  wrong_password now pw v low h = ground arith

  -- With no failure counted: after three wrong passwords in a row every attempt, with whatever key or
  -- password, is refused and changes nothing until the window that starts with the third has passed,
  -- and the wormhole is told once.
  pub run_locks :
      (p₁ p₂ p₃ : Text) (t₁ t₂ t₃ now : ℕ) (a : Attempt Key) (v : UnifiedAuthenticator Key)
      → v.failed_attempts ≡ 0
      → check_password_match crypto v.disk v.temp_password_hash p₁ ≡ none
      → check_password_match crypto v.disk v.temp_password_hash p₂ ≡ none
      → check_password_match crypto v.disk v.temp_password_hash p₃ ≡ none
      → now ≤ t₃ + lockout_window
      → let v' =
          run crypto
            ((t₁, give_password p₁) ∷ (t₂, give_password p₂) ∷ (t₃, give_password p₃) ∷ [])
            v in
        (attempt crypto now a v' ≡ (ok false, v')) × (v'.failure_tx ≡ notify v.failure_tx)
  unfolding run attempt record_failure
  run_locks p₁ p₂ p₃ t₁ t₂ t₃ now a v h e₁ e₂ e₃ late =
      let v₁ = record_failure t₁ (record v { cached_key = none }) in
      let v₂ = record_failure t₂ (record v₁ { cached_key = none }) in
      let run_end : run crypto
            ((t₁, give_password p₁) ∷ (t₂, give_password p₂) ∷ (t₃, give_password p₃) ∷ []) v
          ≡ record_failure t₃ (record v₂ { cached_key = none }) =
        ground (arith, wrong_password t₁ p₁ v, wrong_password t₂ p₂ v₁, wrong_password t₃ p₃ v₂) in
      let locked : IsLocked now (record_failure t₃ (record v₂ { cached_key = none })) =
        (ground arith, (t₃, refl, omega arith)) in
      rw run_end (attempt-IsLocked crypto now a _ locked, ground arith)
