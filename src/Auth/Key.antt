-- ===== src/Auth/Key.antt =====
-- src/auth/key.rs: the backend that accepts keys only, and the one that accepts keys or a password.
use irosh.Common.{
  ℕ, ◌≡◌, refl, ◌≢◌, Bool, true, false, not, List, [], ◌∷◌, ◌++◌, map, is_empty, Result, ok, err,
  if◌then◌else◌, Eq, contains, arith,
}
use irosh.Storage.Disk.{Disk}
use irosh.Storage.Trust.{write_authorized_client}
use irosh.Auth.Types.{
  Text, HostKeyPolicy, strict, tofu, accept_all, AuthMethod, public_key, password, AuthError,
  storage, Crypto,
}
use irosh.Auth.Password.{PasswordAuth}
use irosh.Auth.Password

pub record KeyOnlyAuth (Key : Type 0) : Type 0 where
  pub policy : HostKeyPolicy
  pub authorized_keys : List Key
  pub disk : Disk Key

pub record CombinedAuth (Key : Type 0) : Type 0 where
  pub key_auth : KeyOnlyAuth Key
  pub password_auth : PasswordAuth

module _ {Key : Type 0} where
  -- `<KeyOnlyAuth as Authenticator>::supported_methods`
  abbrev pub supported_methods : KeyOnlyAuth Key → List AuthMethod
  supported_methods v = public_key ∷ []

  -- `<KeyOnlyAuth as Authenticator>::check_password`
  abbrev pub check_password : Text → KeyOnlyAuth Key → Result AuthError Bool × KeyOnlyAuth Key
  check_password pw v = (ok false, v)

  -- `<CombinedAuth as Authenticator>::supported_methods`
  abbrev pub combined_supported_methods : CombinedAuth Key → List AuthMethod
  combined_supported_methods v = public_key ∷ password ∷ []

module _ {Key : Type 0} ⦃e : Eq Key⦄ (crypto : Crypto Key) where
  -- The first client is stored and becomes the one authorized key.
  abbrev trust_first : Key → KeyOnlyAuth Key → Result AuthError Bool × KeyOnlyAuth Key
  trust_first key v =
      let (r, disk) = write_authorized_client (crypto.fingerprint key) key v.disk in
      elim r [
        | ok event ↦
            (ok true, record v { disk = disk; authorized_keys = v.authorized_keys ++ (key ∷ []) })
        | err f ↦ (err (storage f), record v { disk = disk })
      ]

  abbrev first_key : Key → KeyOnlyAuth Key → Result AuthError Bool × KeyOnlyAuth Key
  first_key key v = elim v.policy [
    | strict ↦ (ok false, v)
    | tofu ↦ trust_first key v
    | accept_all ↦ (ok true, v)
  ]

  -- `<KeyOnlyAuth as Authenticator>::check_public_key`
  unfoldable pub check_public_key : Key → KeyOnlyAuth Key → Result AuthError Bool × KeyOnlyAuth Key
  check_public_key key v = elim v.policy [
    | accept_all ↦ (ok true, v)
    | _ ↦
        if not (is_empty v.authorized_keys)
        then (if contains v.authorized_keys key then (ok true, v) else (ok false, v))
        else first_key key v
  ]

  -- `<CombinedAuth as Authenticator>::check_public_key`
  unfoldable pub check_public_key_combined :
      Key → CombinedAuth Key → Result AuthError Bool × CombinedAuth Key
  check_public_key_combined key v =
      let (r, keys) = check_public_key key v.key_auth in (r, record v { key_auth = keys })

  -- `<CombinedAuth as Authenticator>::check_password`
  unfoldable pub check_password_combined :
      ℕ → Text → CombinedAuth Key → Result AuthError Bool × CombinedAuth Key
  check_password_combined now pw v =
      let (r, pws) = Password.check_password crypto now pw v.password_auth in
      (r, record v { password_auth = pws })

  -- The verdicts on a sequence of keys.
  unfoldable pub verdicts :
      List Key → KeyOnlyAuth Key → List (Result AuthError Bool) × KeyOnlyAuth Key
  verdicts [] v = ([], v)
  verdicts (key ∷ rest) v =
      let (r, v₁) = check_public_key key v in let (rs, v₂) = verdicts rest v₁ in (r ∷ rs, v₂)

  verdicts_one :
      (one : Key) (ks : List Key) (v : KeyOnlyAuth Key)
      → v.policy ≡ tofu
      → v.authorized_keys ≡ one ∷ []
      → verdicts ks v ≡ (map (λ k. ok (e.beq one k)) ks, v)
  unfolding verdicts check_public_key contains
  verdicts_one one [] v p h = ground arith
  verdicts_one one (k ∷ ks) v p h = ground (arith, verdicts_one one ks v p h)

  -- A list of keys that is not empty is never added to, and it decides alone.
  pub verdicts_fixed :
      (ks : List Key) (v : KeyOnlyAuth Key)
      → v.policy ≢ accept_all
      → is_empty v.authorized_keys ≡ false
      → verdicts ks v ≡ (map (λ k. ok (contains v.authorized_keys k)) ks, v)
  unfolding verdicts check_public_key
  verdicts_fixed [] v p h = ground arith
  verdicts_fixed (k ∷ ks) v p h = ground (arith, verdicts_fixed ks v p h)

  -- Under the policy TOFU, with no key authorized and a disk that can be written: the first client
  -- is let in and written to the disk, and each client that follows is let in exactly if it shows
  -- that key again.
  pub verdicts_pin :
      (first : Key) (ks : List Key) (v : KeyOnlyAuth Key)
      → v.policy ≡ tofu
      → v.authorized_keys ≡ []
      → v.disk.writable ≡ true
      → let (rs, v') = verdicts (first ∷ ks) v in
        (rs ≡ ok true ∷ map (λ k. ok (e.beq first k)) ks)
        × (v'.disk ≡ (write_authorized_client (crypto.fingerprint first) first v.disk).1)
  unfolding verdicts check_public_key write_authorized_client contains
  verdicts_pin first ks v p none_yet w =
      let disk' = (write_authorized_client (crypto.fingerprint first) first v.disk).1 in
      let v₁ = record v { disk = disk'; authorized_keys = first ∷ [] } in
      let pinned : check_public_key first v ≡ (ok true, v₁) = ground arith in
      rw (pinned, verdicts_one first ks v₁ p refl) (refl, refl)
