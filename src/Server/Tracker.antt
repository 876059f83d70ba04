-- ===== src/Server/Tracker.antt =====
-- src/server/session_tracker.rs: the sessions that are open, with their counts of bytes.
pub mod Sessions
use irosh.Common.{
  ℕ, ◌+◌, ◌%◌, ◌^◌, ◌==◌, List, [], ◌∷◌, Option, none, some, map, if◌then◌else◌, Bool, true, false,
}
use irosh.Transfer.Types.{Text}

-- The counters are shared with the session's stream, which adds to them.
pub record ActiveSession : Type 0 where
  pub peer_id : Text
  pub started_at : ℕ
  pub bytes_sent : ℕ
  pub bytes_received : ℕ

pub record SessionTracker : Type 0 where
  pub sessions : List (ℕ × ActiveSession)
  pub next_id : ℕ

abbrev pub new_tracker : SessionTracker
new_tracker = record { sessions = []; next_id = 0 }

-- `HashMap::get`, `HashMap::remove` and `HashMap::insert`.
unfoldable pub get : ℕ → List (ℕ × ActiveSession) → Option ActiveSession
get id [] = none
get id ((k, s) ∷ rest) = if id == k then some s else get id rest

unfoldable pub remove : ℕ → List (ℕ × ActiveSession) → List (ℕ × ActiveSession)
remove id [] = []
remove id ((k, s) ∷ rest) = let rest = remove id rest in if id == k then rest else (k, s) ∷ rest

abbrev pub insert : ℕ → ActiveSession → List (ℕ × ActiveSession) → List (ℕ × ActiveSession)
insert id s sessions = (id, s) ∷ remove id sessions

abbrev pub new_session : Text → ℕ → ActiveSession
new_session peer now = record {
  peer_id = peer;
  started_at = now;
  bytes_sent = 0;
  bytes_received = 0;
}

-- The identifier of the session and the tracker with it; `now` is the time of the clock.
unfoldable pub register : Text → (now : ℕ) → SessionTracker → ℕ × SessionTracker
register peer now t = (
  t.next_id,
  record {
    sessions = insert t.next_id (new_session peer now) t.sessions;
    next_id = (t.next_id + 1) % 2 ^ 64;
  },
)

unfoldable pub unregister : ℕ → SessionTracker → SessionTracker
unregister id t = record t { sessions = remove id t.sessions }

-- What the stream of the session has sent and received since.
abbrev pub counted : ℕ → ℕ → ActiveSession → ActiveSession
counted sent received s = record s {
  bytes_sent = (s.bytes_sent + sent) % 2 ^ 64;
  bytes_received = (s.bytes_received + received) % 2 ^ 64;
}

unfoldable pub count : ℕ → ℕ → ℕ → List (ℕ × ActiveSession) → List (ℕ × ActiveSession)
count id sent received [] = []
count id sent received ((k, s) ∷ rest) =
    (k, if id == k then counted sent received s else s) ∷ count id sent received rest

unfoldable pub snapshot : SessionTracker → List ActiveSession
snapshot t = map (λ p. p.1) t.sessions
