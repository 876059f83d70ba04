-- ===== src/Auth/Password.antt =====
-- src/auth/password.rs: the backend with one shared password, and its rate limit.
use irosh.Common.{
  ℕ, ◌+◌, ◌-◌, ◌%◌, ◌^◌, ◌≤◌, ◌≡◌, ◌⊎◌, Bool, true, false, ltb, List, [], ◌∷◌, Option, none, some,
  Result, ok, err, if◌then◌else◌, All, arith,
}
use irosh.Auth.Types.{
  Text, AuthMethod, password, matches, invalid, unusable, AuthError, verification_failed,
  lockout_window, Crypto,
}

pub record PasswordAuth : Type 0 where
  pub password_hash : Text
  pub failed_attempts : ℕ
  pub last_failure : Option ℕ

-- `PasswordAuth::new`
abbrev pub new_password_auth : Text → PasswordAuth
new_password_auth hash = record { password_hash = hash; failed_attempts = 0; last_failure = none }

unfoldable pub is_locked_out : ℕ → PasswordAuth → Bool × PasswordAuth
is_locked_out now v = if ltb v.failed_attempts 3 then (false, v) else elim v.last_failure [
  | none ↦ (true, v)
  | some last ↦
      if ltb lockout_window (now - last)
      then (false, record v { failed_attempts = 0 })
      else (true, v)
]

abbrev pub reset_failures : PasswordAuth → PasswordAuth
reset_failures v = record v { failed_attempts = 0 }

-- `fetch_add` wraps at 32 bits.
abbrev pub record_failure : ℕ → PasswordAuth → PasswordAuth
record_failure now v = record v {
  last_failure = some now;
  failed_attempts = (v.failed_attempts + 1) % 2 ^ 32;
}

-- `<PasswordAuth as Authenticator>::supported_methods`
abbrev pub supported_methods : PasswordAuth → List AuthMethod
supported_methods v = password ∷ []

module _ {Key : Type 0} (crypto : Crypto Key) where
  -- `<PasswordAuth as Authenticator>::check_public_key`
  abbrev pub check_public_key : Key → PasswordAuth → Result AuthError Bool × PasswordAuth
  check_public_key key v = (ok false, v)

  -- What is done after the password was verified or was not.
  abbrev verified : ℕ → Text → PasswordAuth → Result AuthError Bool × PasswordAuth
  verified now pw v = elim (crypto.verify_password pw v.password_hash) [
    | matches ↦ (ok true, reset_failures v)
    | invalid ↦ (ok false, record_failure now v)
    | unusable ↦ (err verification_failed, v)
  ]

  -- `<PasswordAuth as Authenticator>::check_password`
  unfoldable pub check_password : ℕ → Text → PasswordAuth → Result AuthError Bool × PasswordAuth
  check_password now pw v =
      let (locked, v₁) = is_locked_out now v in
      if locked then (ok false, v₁) else verified now pw v₁

  -- With at most three failures counted: a right password is accepted, a wrong one refused and its
  -- time kept, and a hash that cannot be used is an error, unless the lockout is on; then all are
  -- refused and nothing changes.
  pub check_password_lem :
      (now : ℕ) (pw : Text) (v : PasswordAuth)
      → v.failed_attempts ≤ 3
      → ((check_password now pw v ≡ (ok false, v)) × (v.failed_attempts ≡ 3))
        ⊎ ((crypto.verify_password pw v.password_hash ≡ matches)
            × (check_password now pw v ≡ (ok true, reset_failures v)))
        ⊎ ((crypto.verify_password pw v.password_hash ≡ unusable)
            × ((check_password now pw v).0 ≡ err verification_failed))
        ⊎ ((crypto.verify_password pw v.password_hash ≡ invalid)
            × ((check_password now pw v).0 ≡ ok false)
            × ((check_password now pw v).1.last_failure ≡ some now))
  unfolding check_password is_locked_out
  check_password_lem now pw v h = ground arith

  -- Guesses, each with the time of its check.
  unfoldable pub guesses :
      List (ℕ × Text) → PasswordAuth → List (Result AuthError Bool) × PasswordAuth
  guesses [] v = ([], v)
  guesses ((now, pw) ∷ rest) v =
      let (r, v₁) = check_password now pw v in let (rs, v₂) = guesses rest v₁ in (r ∷ rs, v₂)

  -- A guess within the window that ends at `until`.
  abbrev IsBefore : ℕ → ℕ × Text → Type 0
  IsBefore until g = g.0 ≤ until

  -- Once three failures are counted, every guess until the window after the last one has passed is
  -- refused, the right password too, and none of them prolongs the window.
  pub guesses_locked :
      (gs : List (ℕ × Text)) (v : PasswordAuth) (last : ℕ)
      → 3 ≤ v.failed_attempts
      → v.last_failure ≡ some last
      → All (IsBefore (last + lockout_window)) gs
      → All (λ r. r ≡ ok false) (guesses gs v).0 × ((guesses gs v).1 ≡ v)
  unfolding guesses check_password is_locked_out
  guesses_locked [] v last h₀ h₁ before = ground arith
  guesses_locked ((now, pw) ∷ gs) v last h₀ h₁ before =
      ground (arith, guesses_locked gs v last h₀ h₁)
