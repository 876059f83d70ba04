-- ===== src/Auth/Tests.antt =====
-- Runs of the authenticators with keys that are numbers and hashes that are the passwords.
use irosh.Common.{
  ℕ, nat_Eq, true, false, [], ◌∷◌, ◌++◌, ◌≡◌, ◌⊎◌, refl, none, some, ok, contains, codes, list_eq,
  All, if◌then◌else◌, arith,
}
use irosh.Storage.Disk.{Disk, missing, content}
use irosh.Storage.Shadow.{load_shadow_file, trim}
use irosh.Storage.Trust.{all_keys, load_all_authorized_clients, write_authorized_client}
use irosh.Storage.Trust.Laws.{keys_of}
use irosh.Auth.Types.{Text, Crypto, Verification, matches, invalid, tofu, strict}
use irosh.Auth.Key.{KeyOnlyAuth, verdicts, verdicts_pin}
use irosh.Auth.Password.{PasswordAuth, guesses, guesses_locked}
use irosh.Auth.Unified.{
  UnifiedAuthenticator, new_authenticator, check_public_key, check_password, check_by_password,
  check_password_match, is_locked_out, vault_keys, attempt, run, show_key, give_password,
  for_new_session, check_temp_password,
}
use irosh.Auth.Unified.Grants.{Proves, check_password_grants}
use irosh.Auth.Unified.Adoption.{StoresCached, check_password_stores}
use irosh.Auth.Unified.Lockout.{attempt-IsLocked, check_password_recovers, run_locks}
use irosh.Auth.Unified.Pairing.{IsPairing, run_pairs}

abbrev compared : Text → Text → Verification
compared pw hash = if list_eq pw hash then matches else invalid

abbrev crypto : Crypto ℕ
crypto = record { fingerprint = λ k. codes "SHA256:" ++ (k ∷ []); verify_password = compared }

abbrev empty_disk : Disk ℕ
empty_disk = record {
  shadow = missing;
  servers = [];
  clients = [];
  readable = true;
  writable = true;
}

abbrev pw : Text
pw = codes "hunter2"

-- A wormhole with a temporary password, and a node with one of its own.
abbrev wormhole : UnifiedAuthenticator ℕ
wormhole = new_authenticator empty_disk tofu (4 ∷ []) (some pw)

abbrev node : UnifiedAuthenticator ℕ
node = new_authenticator (record empty_disk { shadow = content pw }) strict (4 ∷ []) none

abbrev locked : UnifiedAuthenticator ℕ
locked = record node { failed_attempts = 3; last_failure = some 100 }

check_password_grants_example : ((is_locked_out 9 node).0 ≡ false) × Proves crypto 9 pw node
unfolding check_password is_locked_out check_by_password check_password_match load_shadow_file trim
check_password_grants_example = check_password_grants crypto 9 pw node refl

check_password_stores_example :
    StoresCached crypto 9 pw wormhole (check_password crypto 9 pw wormhole).1
    × (((is_locked_out 9 wormhole).0 ≡ true)
        ⊎ ((check_password crypto 9 pw wormhole).1.cached_key ≡ none))
check_password_stores_example = check_password_stores crypto 9 pw wormhole

attempt-IsLocked_example : attempt crypto 200 (show_key 4) locked ≡ (ok false, locked)
attempt-IsLocked_example =
    attempt-IsLocked crypto 200 (show_key 4) locked (omega arith, (100, refl, omega arith))

check_password_recovers_example :
    let (r, v') = check_password crypto 60000000101 pw locked in
    (r ≡ ok true) × (v'.failed_attempts ≡ 0)
unfolding load_shadow_file trim
check_password_recovers_example =
    check_password_recovers crypto 60000000101 pw pw locked 100 refl (omega arith) refl refl

run_locks_example :
    let v' =
      run crypto
        ((1, give_password []) ∷ (2, give_password []) ∷ (3, give_password []) ∷ [])
        node in
    (attempt crypto 1000 (give_password pw) v' ≡ (ok false, v')) × (v'.failure_tx ≡ none)
unfolding check_password_match load_shadow_file trim check_temp_password
run_locks_example =
    run_locks crypto [] [] [] 1 2 3 1000 (give_password pw) node refl refl refl refl (omega arith)

wormhole-IsPairing : IsPairing crypto 6 pw wormhole
unfolding load_shadow_file contains vault_keys load_all_authorized_clients all_keys
wormhole-IsPairing = record {
  learns = refl;
  open_to = refl;
  no_node_password = refl;
  unknown = refl;
  unknown_stored = refl;
  writable = refl;
  unlocked = omega arith;
}

run_pairs_example :
    let (asked, v₁) = check_public_key crypto 1 6 wormhole in
    let (let_in, v') = check_password crypto 2 pw v₁ in
    (asked ≡ ok false)
    × (let_in ≡ ok true)
    × (contains v'.authorized_keys 6 ≡ true)
    × (contains (keys_of (all_keys v'.disk.clients)) 6 ≡ true)
    × (v'.success_flag ≡ true)
    × (v'.success_tx ≡ none)
    × ((check_public_key crypto 3 6 (for_new_session v')).0 ≡ ok true)
run_pairs_example = run_pairs crypto 1 2 3 pw pw 6 wormhole wormhole-IsPairing refl refl

abbrev learning : KeyOnlyAuth ℕ
learning = record { policy = tofu; authorized_keys = []; disk = empty_disk }

verdicts_pin_example :
    let (rs, v') = verdicts crypto (6 ∷ 7 ∷ 6 ∷ []) learning in
    (rs ≡ ok true ∷ ok false ∷ ok true ∷ [])
    × (v'.disk ≡ (write_authorized_client (crypto.fingerprint 6) 6 empty_disk).1)
verdicts_pin_example = verdicts_pin crypto 6 (7 ∷ 6 ∷ []) learning refl refl refl

abbrev guessed : PasswordAuth
guessed = record { password_hash = pw; failed_attempts = 3; last_failure = some 100 }

guesses_locked_example :
    All (λ r. r ≡ ok false) (guesses crypto ((101, []) ∷ (102, pw) ∷ []) guessed).0
    × ((guesses crypto ((101, []) ∷ (102, pw) ∷ []) guessed).1 ≡ guessed)
guesses_locked_example =
    guesses_locked crypto ((101, []) ∷ (102, pw) ∷ []) guessed 100 (omega arith) refl
      (omega arith, (omega arith, tt))
