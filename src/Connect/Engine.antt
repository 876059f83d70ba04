-- ===== src/Connect/Engine.antt =====
-- cli/src/commands/connect/input/engine.rs and actions.rs: the state of the input engine, and how it
-- follows the bytes that are typed to the remote shell and those that come from it.
pub mod Ansi
use irosh.Common.{
  ℕ, ◌+◌, ◌-◌, Bool, true, false, ◌&&◌, ◌||◌, not, leb, ◌==◌, List, [], ◌∷◌, ◌++◌, Option, none,
  some, if◌then◌else◌,
}
use irosh.Connect.Utf8.{Bytes}
use irosh.Connect.History.{CommandHistory, HistoryFile, new_history}
use irosh.Connect.Editor.{
  LineEditor, EditorEvent, history_up, history_down, move_right, move_left, move_home, move_end,
  delete, new_escape,
}

pub data InputMode : Type 0 where
  remote local_edit : InputMode

pub data ControlSequenceState : Type 0 where
  no_sequence escape csi : ControlSequenceState

pub data RemoteAnsiState : Type 0 where
  no_ansi after_esc in_csi in_osc in_osc_esc : RemoteAnsiState

pub record LineSession : Type 0 where
  pub editor : LineEditor
  pub display_cursor : ℕ
  pub control_state : ControlSequenceState

pub record InputEngine : Type 0 where
  pub mode : InputMode
  pub at_start_of_line : Bool
  pub local_line_len : ℕ
  pub active_line : Option LineSession
  pub escape_history : CommandHistory
  pub prompt_history : CommandHistory
  pub swallow_next_enter_pair : Option ℕ
  pub remote_ansi : RemoteAnsiState
  pub remote_is_windows : Bool

-- `InputEngine::new`, with the two history files that it finds.
abbrev pub new_engine : (escape_file prompt_file : HistoryFile) → Bool → InputEngine
new_engine escape_file prompt_file remote_is_windows = record {
  mode = remote;
  at_start_of_line = true;
  local_line_len = 0;
  active_line = none;
  escape_history = new_history (some escape_file);
  prompt_history = new_history (some prompt_file);
  swallow_next_enter_pair = none;
  remote_ansi = no_ansi;
  remote_is_windows = remote_is_windows;
}

-- The line starts anew.
abbrev start_line : InputEngine → InputEngine
start_line e = record e { at_start_of_line = true; local_line_len = 0 }

unfoldable pub observe_remote : Bytes → InputEngine → InputEngine
observe_remote [] e = e
observe_remote (byte ∷ data') e = observe_remote data' (if byte == 10 then start_line e else e)

-- From 0x20 to 0x3F: the parameter and intermediate bytes of a sequence.
abbrev pub is_parameter : ℕ → Bool
is_parameter byte = leb 0x20 byte && leb byte 0x3F

abbrev plain_byte : ℕ → InputEngine → InputEngine
plain_byte byte e =
    if byte == 13 || byte == 10
    then start_line e
    else if byte == 0x1b
    then record e { remote_ansi = after_esc }
    else if byte == 8 || byte == 127
    then record e { local_line_len = e.local_line_len - 1 }
    else record e { at_start_of_line = false; local_line_len = e.local_line_len + 1 }

abbrev next_ansi : RemoteAnsiState → ℕ → RemoteAnsiState
next_ansi no_ansi byte = no_ansi
next_ansi after_esc byte = if byte == b'[' then in_csi else if byte == b']' then in_osc else no_ansi
next_ansi in_csi byte = if is_parameter byte then in_csi else no_ansi
next_ansi in_osc byte = if byte == 7 then no_ansi else if byte == 0x1b then in_osc_esc else in_osc
next_ansi in_osc_esc byte = no_ansi

unfoldable pub follow_byte : ℕ → InputEngine → InputEngine
follow_byte byte e = elim e.remote_ansi [
  | no_ansi ↦ plain_byte byte e
  | state ↦ record e { remote_ansi = next_ansi state byte }
]

-- The byte is passed on in every case.
unfoldable pub handle_remote_byte : ℕ → InputEngine × Bytes → InputEngine × Bytes
unfolding follow_byte
handle_remote_byte byte (e, to_remote) = (follow_byte byte e, to_remote ++ (byte ∷ []))

-- What `process_local` does with one byte while no line is edited: it is the second byte of a pair that
-- ends a line and goes on with what was sent, or it is sent, or it is a `~` on an empty line.
pub data Step : Type 0 where
  goes_on : InputEngine → (to_remote : Bytes) → Step
  opens_line : InputEngine → Step

abbrev is_pair : Option ℕ → ℕ → Bool
is_pair none byte = false
is_pair (some pair) byte = byte == pair

abbrev pub escape_line : LineSession
escape_line = record { editor = new_escape; display_cursor = 0; control_state = no_sequence }

unfoldable pub step_remote : ℕ → InputEngine → Bytes → Step
step_remote byte e to_remote =
    let e' = record e { swallow_next_enter_pair = none } in
    let (sent, out) = handle_remote_byte byte (e', to_remote) in
    if is_pair e.swallow_next_enter_pair byte
    then goes_on e' to_remote
    else if e.local_line_len == 0 && byte == b'~'
    then opens_line (record e' { mode = local_edit; active_line = some escape_line })
    else goes_on sent out

-- The engine, the bytes for the remote shell and for the screen, and where a `~` opened the local
-- prompt the bytes behind it, with which `process_local` calls itself to edit the line.
pub record Processed : Type 0 where
  pub engine : InputEngine
  pub to_remote : Bytes
  pub to_local : Bytes
  pub remaining : Option Bytes

-- `process_local` while no line is edited.
unfoldable pub process_remote : Bytes → InputEngine → Bytes → Processed
process_remote [] e sent = record { engine = e; to_remote = sent; to_local = []; remaining = none }
process_remote (byte ∷ data') e sent = elim (step_remote byte e sent) [
  | goes_on e' sent' ↦ process_remote data' e' sent'
  | opens_line e' ↦ record {
    engine = e';
    to_remote = sent;
    to_local = b'~' ∷ [];
    remaining = some data';
  }
]

unfoldable pub consume_local_ansi :
    ControlSequenceState → ℕ → Option EditorEvent × ControlSequenceState
consume_local_ansi escape byte = if byte == b'[' then (none, csi) else (none, no_sequence)
consume_local_ansi csi byte =
    if is_parameter byte
    then (none, csi)
    else if byte == b'A'
    then (some history_up, no_sequence)
    else if byte == b'B'
    then (some history_down, no_sequence)
    else if byte == b'C'
    then (some move_right, no_sequence)
    else if byte == b'D'
    then (some move_left, no_sequence)
    else if byte == b'H'
    then (some move_home, no_sequence)
    else if byte == b'F'
    then (some move_end, no_sequence)
    else if byte == b'~'
    then (some delete, no_sequence)
    else (none, no_sequence)
consume_local_ansi no_sequence byte = (none, no_sequence)

-- The engine is back in remote mode, and a carriage return wakes the remote shell.
unfoldable pub exit_local_prompt : InputEngine × Bytes → InputEngine × Bytes
exit_local_prompt (e, to_remote) = (
  record e { mode = remote; at_start_of_line = true; local_line_len = 0; active_line = none },
  to_remote ++ (13 ∷ []),
)

abbrev pub paired_enter_byte : ℕ → Option ℕ
paired_enter_byte byte = if byte == 13 then some 10 else if byte == 10 then some 13 else none
