-- ===== src/Connect.antt =====
-- cli/src/commands/connect: the interactive client; its command history and its line editor.
pub mod Utf8
pub mod History
pub mod Editor
pub mod Engine
mod Tests
