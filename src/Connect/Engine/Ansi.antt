-- ===== src/Connect/Engine/Ansi.antt =====
-- Control sequences that are typed through to the remote shell.
use irosh.Common.{
  Option-cases, inl, inr, if◌then◌else◌, ℕ, ◌≡◌, ◌≢◌, ◌⊎◌, ◌∙◌, ap, sym, true, false, [], ◌∷◌, ◌++◌,
  none, some, append_assoc, All, arith, refl,
}
use irosh.Connect.Utf8.{Bytes}
use irosh.Connect.Engine.{
  InputEngine, RemoteAnsiState, no_ansi, after_esc, in_csi, is_parameter, follow_byte,
  handle_remote_byte, goes_on, opens_line, step_remote, process_remote, Processed,
}

abbrev pub IsParameter : ℕ → Type 0
IsParameter byte = is_parameter byte ≡ true

-- All bytes passed on, and nothing opened.
abbrev pub passed : InputEngine → Bytes → Processed
passed e sent = record { engine = e; to_remote = sent; to_local = []; remaining = none }

-- The engine in a state of its escape sequences, with no pair to swallow.
abbrev at : RemoteAnsiState → InputEngine → InputEngine
at state e = record e { swallow_next_enter_pair = none; remote_ansi = state }

-- The byte is not taken for the escape character.
abbrev pub IsFree : ℕ → InputEngine → Type 0
IsFree byte e = (e.local_line_len ≢ 0) ⊎ (byte ≢ b'~')

in_csi_step :
    (byte : ℕ) (e : InputEngine) (sent : Bytes)
    → IsFree byte e
    → step_remote byte (at in_csi e) sent
      ≡ goes_on (at (if is_parameter byte then in_csi else no_ansi) e) (sent ++ (byte ∷ []))
unfolding step_remote handle_remote_byte follow_byte
in_csi_step byte e sent free = ground (arith, free)

-- A parameter byte is no `~`.
parameter-IsFree : (byte : ℕ) (e : InputEngine) → IsParameter byte → IsFree byte e
parameter-IsFree byte e h = inr (λ same. ground (arith, h, same))

ended : (e : InputEngine) (sent : Bytes) → process_remote [] e sent ≡ passed e sent
unfolding process_remote
ended e sent = refl

goes :
    (byte : ℕ) (rest : Bytes) (e e' : InputEngine) (sent sent' : Bytes)
    → step_remote byte e sent ≡ goes_on e' sent'
    → process_remote (byte ∷ rest) e sent ≡ process_remote rest e' sent'
unfolding process_remote
goes byte rest e e' sent sent' h =
    ap
      (λ s. elim s [
        | goes_on a b ↦ process_remote rest a b
        | opens_line a ↦ record {
          engine = a;
          to_remote = sent;
          to_local = b'~' ∷ [];
          remaining = some rest;
        }
      ])
      h

process_remote-in_csi :
    (ps : Bytes) (final : ℕ) (e : InputEngine) (sent : Bytes)
    → All IsParameter ps
    → is_parameter final ≡ false
    → IsFree final e
    → process_remote (ps ++ (final ∷ [])) (at in_csi e) sent
      ≡ passed (at no_ansi e) (sent ++ (ps ++ (final ∷ [])))
process_remote-in_csi [] final e sent all last free =
    goes final [] (at in_csi e) (at no_ansi e) sent (sent ++ (final ∷ [])) (
      in_csi_step final e sent free
      ∙ ap (λ b. goes_on (at (if b then in_csi else no_ansi) e) (sent ++ (final ∷ []))) last)
    ∙ ended (at no_ansi e) (sent ++ (final ∷ []))
process_remote-in_csi (p ∷ ps) final e sent all last free =
    goes p (ps ++ (final ∷ [])) (at in_csi e) (at in_csi e) sent (sent ++ (p ∷ [])) (
      in_csi_step p e sent (parameter-IsFree p e all.0)
      ∙ ap (λ b. goes_on (at (if b then in_csi else no_ansi) e) (sent ++ (p ∷ []))) all.0)
    ∙ process_remote-in_csi ps final e (sent ++ (p ∷ [])) all.1 last free
    ∙ ap (passed (at no_ansi e)) (append_assoc sent (p ∷ []) (ps ++ (final ∷ [])))

esc_step :
    (e : InputEngine) (sent : Bytes)
    → e.remote_ansi ≡ no_ansi
    → e.swallow_next_enter_pair ≢ some 0x1b
    → step_remote 0x1b e sent ≡ goes_on (at after_esc e) (sent ++ (0x1b ∷ []))
unfolding step_remote handle_remote_byte follow_byte
esc_step e sent start off = elim (Option-cases e.swallow_next_enter_pair) [
  | inl quiet ↦ ground (arith, start, quiet)
  | inr (pair, await) ↦ ground (arith, start, await, off)
]

bracket_step :
    (e : InputEngine) (sent : Bytes)
    → step_remote b'[' (at after_esc e) sent ≡ goes_on (at in_csi e) (sent ++ (b'[' ∷ []))
unfolding step_remote handle_remote_byte follow_byte
bracket_step e sent = ground arith

-- A whole CSI sequence with any parameters, typed while no line is edited and no sequence is open, is
-- passed on byte by byte and leaves the engine as it was, with no second byte of a line's end awaited
-- any more, so that its bytes do not count as typed text: unless the line is empty and the last byte
-- is `~`.
pub process_remote-csi :
    (ps : Bytes) (final : ℕ) (e : InputEngine) (sent : Bytes)
    → All IsParameter ps
    → is_parameter final ≡ false
    → (e.local_line_len ≢ 0) ⊎ (final ≢ b'~')
    → e.remote_ansi ≡ no_ansi
    → e.swallow_next_enter_pair ≢ some 0x1b
    → let sequence = 0x1b ∷ b'[' ∷ (ps ++ (final ∷ [])) in
      process_remote sequence e sent
      ≡ passed (record e { swallow_next_enter_pair = none }) (sent ++ sequence)
process_remote-csi ps final e sent all last free start off =
    let tail = ps ++ (final ∷ []) in
    let sent₁ = sent ++ (0x1b ∷ []) in
    let sent₂ = sent₁ ++ (b'[' ∷ []) in
    goes 0x1b (b'[' ∷ tail) e (at after_esc e) sent sent₁ (esc_step e sent start off)
    ∙ goes b'[' tail (at after_esc e) (at in_csi e) sent₁ sent₂ (bracket_step e sent₁)
    ∙ process_remote-in_csi ps final e sent₂ all last free
    ∙ ap (passed (at no_ansi e))
        (append_assoc sent₁ (b'[' ∷ []) tail ∙ append_assoc sent (0x1b ∷ []) (b'[' ∷ tail))
    ∙ ap
        (λ a.
          passed (record e { swallow_next_enter_pair = none; remote_ansi = a })
            (sent ++ (0x1b ∷ b'[' ∷ tail)))
        (sym start)
