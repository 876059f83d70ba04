-- ===== src/Client/Handler/Pinning.antt =====
-- The first key of a server is the only one that later connections accept.
use irosh.Common.{
  Bool, if◌then◌else◌, List, [], ◌∷◌, ℕ, Result, Result-cases, ◌≡◌, ◌≢◌, ◌⊎◌, refl, ◌∙◌, sym, ap,
  true, none, some, ok, err, arith, Eq, list_eq_refl, inl, inr, Bool-cases, Option-cases,
}
use irosh.Storage.Disk.{Disk, lookup-insert, holds}
use irosh.Storage.Trust.{load_known_server, write_known_server, key_path}
use irosh.Auth.Types.{HostKeyPolicy, strict, tofu, accept_all}
use irosh.Client.Handler.{
  HandlerError, ClientHandler, server_key_mismatch, first_use, check_known, check_server_key,
  open_handler, new,
}

module _ {Key : Type 0} ⦃e : Eq Key⦄ where
  load_known_server-write_known_server :
      (node_id : List ℕ) (key : Key) (d : Disk Key)
      → d.writable ≡ true
      → load_known_server node_id (write_known_server node_id key d).1 ≡ ok (some key)
  unfolding load_known_server write_known_server
  load_known_server-write_known_server node_id key d h = ground (
    arith,
    h,
    lookup-insert (key_path node_id) (key_path node_id) (holds key) d.servers,
    list_eq_refl (key_path node_id),
  )

  -- A key is accepted only under AcceptAll, or as the known key, or on first use under TOFU, and then
  -- it is known to the handler and read back from the disk; in no other case does the handler or the
  -- disk change.
  pub check_server_key_accepts :
      (key : Key) (v : ClientHandler Key)
      → let (r, v') = check_server_key key v in
        ((r ≡ ok true)
          × (v' ≡ v)
          × ((v.host_key_policy ≡ accept_all) ⊎ (v.known_server ≡ some key)))
        ⊎ ((r ≡ ok true)
            × (v.host_key_policy ≡ tofu)
            × (v.known_server ≡ none)
            × (v'.known_server ≡ some key)
            × (load_known_server v.node_id v'.disk ≡ ok (some key)))
        ⊎ ((r ≢ ok true) × (v' ≡ v))
  unfolding check_server_key check_known first_use write_known_server
  check_server_key_accepts key v = elim (Option-cases v.known_server) [
    | inl unknown ↦
        ground (arith, unknown, load_known_server-write_known_server v.node_id key v.disk)
    | inr (known, pinned) ↦ ground (arith, pinned, e.beq_iff key known)
  ]

  opened :
      (node_id : List ℕ) (policy : HostKeyPolicy) (d : Disk Key) (v : ClientHandler Key)
      → policy ≢ accept_all
      → open_handler node_id policy d ≡ ok v
      → (load_known_server node_id d ≡ ok v.known_server)
        × (v.host_key_policy ≡ policy)
        × (v.node_id ≡ node_id)
        × (v.disk ≡ d)
  unfolding open_handler new
  opened node_id strict d v h h₁ = ground arith
  opened node_id tofu d v h h₁ = ground arith
  opened node_id accept_all d v h h₁ = absurd (h refl)

  -- The key that a connection accepted is on the disk.
  stored :
      (node_id : List ℕ) (policy : HostKeyPolicy) (key : Key) (d : Disk Key) (v : ClientHandler Key)
      → policy ≢ accept_all
      → open_handler node_id policy d ≡ ok v
      → (check_server_key key v).0 ≡ ok true
      → load_known_server node_id (check_server_key key v).1.disk ≡ ok (some key)
  stored node_id policy key d v h opens accepted =
      let (load, under, of, on) = opened node_id policy d v h opens in
      elim (check_server_key_accepts key v) [
        | inl (_, same, inl all) ↦ absurd (h (sym under ∙ all))
        | inl (_, same, inr known) ↦
            ap (load_known_server node_id) (ap (λ t. t.disk) same ∙ on) ∙ load ∙ ap ok known
        | inr (inl (_, _, _, _, found)) ↦
            ap (λ n. load_known_server n (check_server_key key v).1.disk) (sym of) ∙ found
        | inr (inr (refused, _)) ↦ absurd (refused accepted)
      ]

  -- A connection to a node: a handler is opened on the disk and asked about the server's key. The
  -- answer, and the disk that it leaves.
  abbrev pub connect : List ℕ → HostKeyPolicy → Key → Disk Key → Result HandlerError Bool × Disk Key
  connect node_id policy key d = elim (open_handler node_id policy d) [
    | ok v ↦ let (r, v') = check_server_key key v in (r, v'.disk)
    | err x ↦ (err x, d)
  ]

  -- Connections to a node one after another.
  abbrev pub connect_all : List ℕ → List (HostKeyPolicy × Key) → Disk Key → Disk Key
  connect_all node_id [] d = d
  connect_all node_id ((policy, key) ∷ rest) d =
      connect_all node_id rest (connect node_id policy key d).1

  connect-stored :
      (node_id : List ℕ) (policy : HostKeyPolicy) (key known : Key) (d : Disk Key)
      → load_known_server node_id d ≡ ok (some known)
      → (connect node_id policy key d).1 ≡ d
  unfolding open_handler new check_server_key check_known
  connect-stored node_id strict key known d h = ground arith
  connect-stored node_id tofu key known d h = ground arith
  connect-stored node_id accept_all key known d h = refl

  connect_all-stored :
      (node_id : List ℕ) (visits : List (HostKeyPolicy × Key)) (known : Key) (d : Disk Key)
      → load_known_server node_id d ≡ ok (some known)
      → load_known_server node_id (connect_all node_id visits d) ≡ ok (some known)
  connect_all-stored node_id [] known d h = h
  connect_all-stored node_id ((policy, key) ∷ rest) known d h =
      connect_all-stored node_id rest known (connect node_id policy key d).1
        (ap (load_known_server node_id) (connect-stored node_id policy key known d h) ∙ h)

  connect-compared :
      (node_id : List ℕ) (policy : HostKeyPolicy) (key known : Key) (d : Disk Key)
      → policy ≢ accept_all
      → load_known_server node_id d ≡ ok (some known)
      → (connect node_id policy key d).0
        ≡ (if e.beq key known then ok true else err server_key_mismatch)
  unfolding open_handler new check_server_key check_known
  connect-compared node_id strict key known d h stored = ground arith
  connect-compared node_id tofu key known d h stored = ground arith
  connect-compared node_id accept_all key known d h stored = absurd (h refl)

  -- Let a connection to a node under TOFU or Strict accept a key. After any sequence of further
  -- connections to the node, one after another, under whatever policies and with whatever keys, a
  -- connection under TOFU or Strict accepts that key, and refuses any other key as a mismatch.
  pub check_server_key_pins :
      (node_id : List ℕ) (policy later : HostKeyPolicy) (key other : Key) (d : Disk Key)
      (visits : List (HostKeyPolicy × Key))
      → policy ≢ accept_all
      → later ≢ accept_all
      → other ≢ key
      → (connect node_id policy key d).0 ≡ ok true
      → let d' = connect_all node_id visits (connect node_id policy key d).1 in
        ((connect node_id later key d').0 ≡ ok true)
        × ((connect node_id later other d').0 ≡ err server_key_mismatch)
  check_server_key_pins node_id policy later key other d visits h₁ h₂ ne accepted =
      elim (Result-cases (open_handler node_id policy d)) [
        | inr (x, closed) ↦ cc (rw (connect, closed) at accepted)
        | inl (v, opens) ↦
            let let_in : (check_server_key key v).0 ≡ ok true = rw (connect, opens) at accepted in
            let d₁ = (check_server_key key v).1.disk in
            let left : (connect node_id policy key d).1 ≡ d₁ = rw (connect, opens) refl in
            let d' = connect_all node_id visits d₁ in
            let known : load_known_server node_id d' ≡ ok (some key) =
              connect_all-stored node_id visits key d₁
                (stored node_id policy key d v h₁ opens let_in) in
            rw left (
              connect-compared node_id later key key d' h₂ known
                  ∙ rw ((e.beq_iff key key).1 refl) refl,
              connect-compared node_id later other key d' h₂ known
                  ∙ (elim (Bool-cases (e.beq other key)) [
                    | inl same ↦ absurd (ne ((e.beq_iff other key).0 same))
                    | inr differs ↦ rw differs refl
                  ]),
            )
      ]
