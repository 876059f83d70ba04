-- ===== src/Auth/Types.antt =====
-- What the backends of src/auth share: policies, methods, errors, and the libraries they call.
use irosh.Common.{ℕ, ◌*◌, ◌^◌, List}
use irosh.Storage.Disk.{StorageError}

abbrev pub Text : Type 0
Text = List ℕ

-- src/config.rs
pub data HostKeyPolicy : Type 0 where
  strict tofu accept_all : HostKeyPolicy

pub data AuthMethod : Type 0 where
  public_key password : AuthMethod

-- `argon2`'s `verify_password`: it matches, it does not, or the hash cannot be used.
pub data Verification : Type 0 where
  matches invalid unusable : Verification

-- The errors that a check returns, of storage or of src/error/auth.rs, without their causes.
pub data AuthError : Type 0 where
  storage : StorageError → AuthError
  verification_failed : AuthError

-- Nanoseconds of the monotonic clock: the unit of an `Instant`.
abbrev pub lockout_window : ℕ
lockout_window = 60 * 10 ^ 9

-- `ssh_key` and `argon2`, as far as the backends call them. A key's fingerprint is its text
-- `SHA256:…`; a password is verified against the text of a hash.
pub record Crypto (Key : Type 0) : Type 0 where
  pub fingerprint : Key → Text
  pub verify_password : Text → Text → Verification
