-- ===== src/Server/Tracker/Sessions.antt =====
-- A session stays in the tracker until it is unregistered.
use irosh.Common.{
  ◌%◌, ap, ℕ, ◌+◌, ◌^◌, ◌==◌, ◌<◌, ◌≡◌, refl, ◌∙◌, List, [], ◌∷◌, some, false, length, All, arith,
  Bool-cases, inl, inr, if◌then◌else◌,
}
use irosh.Transfer.Types.{Text}
use irosh.Server.Tracker.{
  ActiveSession, SessionTracker, get, remove, register, unregister, counted, count,
}

-- What connections do to the tracker, one thing after another.
pub data Event : Type 0 where
  registers : Text → (now : ℕ) → Event
  unregisters : ℕ → Event
  transfers : (id sent received : ℕ) → Event

abbrev pub step : Event → SessionTracker → SessionTracker
step (registers peer now) t = (register peer now t).1
step (unregisters id) t = unregister id t
step (transfers id sent received) t = record t { sessions = count id sent received t.sessions }

abbrev pub run : List Event → SessionTracker → SessionTracker
run [] t = t
run (e ∷ events) t = run events (step e t)

-- The bytes that the events send, and receive, on one session.
abbrev pub sent_on : ℕ → List Event → ℕ
sent_on id [] = 0
sent_on id (transfers k sent received ∷ events) =
    let rest = sent_on id events in if id == k then sent + rest else rest
sent_on id (e ∷ events) = sent_on id events

abbrev pub received_on : ℕ → List Event → ℕ
received_on id [] = 0
received_on id (transfers k sent received ∷ events) =
    let rest = received_on id events in if id == k then received + rest else rest
received_on id (e ∷ events) = received_on id events

abbrev after : ℕ → List Event → ActiveSession → ActiveSession
after id events s = record {
  peer_id = s.peer_id;
  started_at = s.started_at;
  bytes_sent = (s.bytes_sent + sent_on id events) % 2 ^ 64;
  bytes_received = (s.bytes_received + received_on id events) % 2 ^ 64;
}

abbrev IsSmall : ActiveSession → Type 0
IsSmall s = (s.bytes_sent < 2 ^ 64) × (s.bytes_received < 2 ^ 64)

abbrev pub IsOpen : ℕ → Event → Type 0
IsOpen id (unregisters k) = (id == k) ≡ false
IsOpen id e = Unit {0}

get-remove :
    (id k : ℕ) (l : List (ℕ × ActiveSession)) → (id == k) ≡ false → get id (remove k l) ≡ get id l
unfolding get remove
get-remove id k [] h = refl
get-remove id k ((j, s) ∷ l) h = ground (arith, h, get-remove id k l h)

get-count :
    (id k sent received : ℕ) (l : List (ℕ × ActiveSession)) (s : ActiveSession)
    → get id l ≡ some s
    → get id (count k sent received l) ≡ some (if id == k then counted sent received s else s)
unfolding get count
get-count id k sent received [] s h = cc h
get-count id k sent received ((j, u) ∷ l) s h = elim (Bool-cases (id == j)) [
  | inl e ↦ ground (arith, h, e)
  | inr e ↦ ground (arith, h, e, get-count id k sent received l s)
]

-- The counts of a session, after one transfer on some session.
abbrev once : (id k sent received : ℕ) → ActiveSession → ActiveSession
once id k sent received s = if id == k then counted sent received s else s

once-IsSmall :
    (id k sent received : ℕ) (s : ActiveSession) → IsSmall s → IsSmall (once id k sent received s)
once-IsSmall id k sent received s small = elim (Bool-cases (id == k)) [
  | inl e ↦ rw e (omega arith, omega arith)
  | inr e ↦ rw e small
]

sum_once : (a b c : ℕ) → ((a + b) % 2 ^ 64 + c) % 2 ^ 64 ≡ (a + (b + c)) % 2 ^ 64
sum_once a b c = omega arith

after-once :
    (id k sent received : ℕ) (events : List Event) (s : ActiveSession)
    → after id events (once id k sent received s) ≡ after id (transfers k sent received ∷ events) s
after-once id k sent received events s = elim (Bool-cases (id == k)) [
  | inl e ↦ rw e (λ i. record {
    peer_id = s.peer_id;
    started_at = s.started_at;
    bytes_sent = sum_once s.bytes_sent sent (sent_on id events) i;
    bytes_received = sum_once s.bytes_received received (received_on id events) i;
  })
  | inr e ↦ rw e refl
]

small_sum : (a : ℕ) → a < 2 ^ 64 → a ≡ (a + 0) % 2 ^ 64
small_sum a h = omega (arith, h)

run-get :
    (id : ℕ) (events : List Event) (t : SessionTracker) (s : ActiveSession)
    → get id t.sessions ≡ some s
    → IsSmall s
    → id < t.next_id
    → t.next_id + length events < 2 ^ 64
    → All (IsOpen id) events
    → get id (run events t).sessions ≡ some (after id events s)
unfolding register unregister get
run-get id [] t s h small lt fits o = h ∙ (λ i. some (record {
  peer_id = s.peer_id;
  started_at = s.started_at;
  bytes_sent = small_sum s.bytes_sent small.0 i;
  bytes_received = small_sum s.bytes_received small.1 i;
}))
run-get id (registers peer now ∷ events) t s h small lt fits o =
    let different : (id == t.next_id) ≡ false = ground (arith, lt) in
    run-get id events (register peer now t).1 s
      (rw different (get-remove id t.next_id t.sessions different ∙ h)) small
      (omega (arith, lt, fits)) (omega (arith, lt, fits)) o.1
run-get id (unregisters k ∷ events) t s h small lt fits o =
    run-get id events (unregister k t) s (get-remove id k t.sessions o.0 ∙ h) small lt
      (omega (arith, fits)) o.1
run-get id (transfers k sent received ∷ events) t s h small lt fits o =
    run-get id events (step (transfers k sent received) t) (once id k sent received s)
      (get-count id k sent received t.sessions s h) (once-IsSmall id k sent received s small) lt
      (omega (arith, fits)) o.1
    ∙ ap some (after-once id k sent received events s)

zero_add : (n : ℕ) → 0 + n ≡ n
zero_add n = omega arith

-- Until a session is unregistered it is in the tracker as it registered, under the identifier that
-- register gave it, with the sums of the bytes that were sent and received on it and on no other
-- session (modulo 2^64), whatever registers, unregisters and transfers besides, if the identifiers do
-- not wrap around meanwhile.
pub register_lem :
    (peer : Text) (now : ℕ) (events : List Event) (t : SessionTracker)
    → t.next_id + length events + 1 < 2 ^ 64
    → let (id, t') = register peer now t in
      All (IsOpen id) events
      → get id (run events t').sessions
        ≡ some (record {
          peer_id = peer;
          started_at = now;
          bytes_sent = sent_on id events % 2 ^ 64;
          bytes_received = received_on id events % 2 ^ 64;
        })
unfolding register get
register_lem peer now events t fits o =
    run-get t.next_id events (register peer now t).1 _ (ground arith) (omega arith, omega arith)
      (omega (arith, fits)) (omega (arith, fits)) o
    ∙ (λ i. some (record {
      peer_id = peer;
      started_at = now;
      bytes_sent = (zero_add (sent_on t.next_id events) i) % 2 ^ 64;
      bytes_received = (zero_add (received_on t.next_id events) i) % 2 ^ 64;
    }))
