-- ===== src/Lib.antt =====
-- irosh: SSH sessions and file transfer between peers.
--
-- The program and this library. A node accepts connections, authenticates the peer (src/auth) from
-- the keys and the password hash in its state directory (src/storage), and serves a shell and file
-- transfers; the transfers and the exchange of metadata are frames on byte streams
-- (src/transport). The command line client (cli/src) edits lines and keeps a history of commands.
--
-- Modelled, by file:
--   Common: Boolean tests, lists with native lengths, results, the state and error monad `Action`,
--     texts as code points, types with a Boolean equality.
--   Stream: the readers and writers of tokio that the codecs call. A reader is the list of the bytes
--     still to come, a writer the list of the bytes written.
--   Transfer/Types: src/transport/transfer/types.rs. Transfer/Codec: codec/mod.rs, with codec/reader.rs
--     and codec/writer.rs in Codec/Reader and Codec/Writer, and the kinds of frames in Codec/Kind.
--     The function names are those of the source. What serde_json does is the record `Json` of
--     serializers; its one law is that a value which was serialized is read back from its text.
--     Transfer/FilePath: sanitize_remote_path of helpers.rs, as compiled on Unix, with the
--     components of std::path written out.
--   Storage/Disk, Storage/Trust, Storage/Shadow: the files that src/storage/trust.rs and
--     src/storage/shadow.rs keep, as lists of named files, and the functions on them.
--     Storage/Peers: src/storage/peers.rs, on a list of named JSON texts.
--   Auth/Unified: src/auth/unified.rs. The record UnifiedAuthenticator is the view of one connection;
--     each check takes the time of the monotonic clock, in nanoseconds, and returns the verdict and
--     the state it leaves.
--     Auth/Key and Auth/Password: the backends of src/auth/key.rs and src/auth/password.rs. ssh_key
--     and argon2 are the record `Crypto`, with no law.
--   Metadata: src/transport/metadata/types.rs (the sanitizer) and codec.rs.
--   Connect/History and Connect/Editor: cli/src/commands/connect/history.rs and input/editor.rs;
--     Connect/Engine: of input/engine.rs and input/actions.rs the state, the tracking of control
--     sequences and of the length of the line, and leaving the prompt.
--     Connect/Utf8: the conversions of the standard library that they use.
--   Server/Host: the machine a server or a client runs on, as a record of calls (start a command, create,
--     rename or copy a file, write to an upload's sink) on a world that is not looked into, and the laws
--     `IsLawful` that documented behaviour of the file system gives: a call leaves the paths alone that
--     it is not given, `test -e` and `symlink_metadata` tell whether a file is there, a move that
--     succeeds moves, a sink that is flushed or waited for has the bytes in its file.
--     A stream between client and server is the list of the results that read_next_frame gives and the
--     list of the frames written; Transfer/Codec/Sequence is why the two agree.
--   Server/Paths: std::path as far as src/server/transfer uses it, and sanitize_relative_path of
--     state.rs. Server/Context: ShellContext and its operations, of state.rs. Server/Upload and
--     Server/Upload/Recursive: files/upload.rs with the upload half of helpers.rs. Server/Download: the
--     download of one file, of files/download.rs and helpers.rs; Server/Download/Walk: a recursive one,
--     with what walkdir and `find` give as parameters. Server/Control: control.rs.
--     Server/Tracker: src/server/session_tracker.rs.
--     Server/Dispatch: mod.rs, with the counters of src/metrics.rs. Server/Keeps: what a handler leaves
--     alone and how it ends, composed along a handler.
--     Server/Machine: a machine that keeps the laws, for the tests.
--   Client/Upload and Client/Download: the two transfers of one file in src/client/transfer/files, with
--     src/client/transfer/store.rs. Client/Handler: src/client/handler.rs, and what connect.rs loads
--     for it. Client/Delivered and Client/Fetched put a client and a server together.
--   Tests and Examples in each part: runs on concrete values.
--
-- Bounds. The failure counters of the authenticators and the lengths of frames are 32 bits and keep
-- their wrap-around (`% 2 ^ 32`), byte counts and metrics 64 (`% 2 ^ 64`). Functions are
-- structurally recursive, but for the loop over the entries of a recursive upload: an entry reads
-- frames of its own, so the loop has the number of the frames to come as fuel, which is enough;
-- the parser of the listing of `find` has its length as fuel, since each record takes a byte. A
-- panic of the source is the value `none` where the source can panic (Metadata, Connect).
--
-- Not modelled: network endpoints, processes, terminals, the SSH handlers, the client's
-- recursive transfers, blobs, the search behind a completion, progress reports, what the
-- input engine does with an edited line, wormhole rendezvous, command line arguments and printing.
-- Checks of one authenticator run one after the other. A byte stream fails by its end only; a frame
-- of a transfer may fail to be read or written in any way. Paths are lists of components, so
-- printing one drops a repeated slash. The code is read as compiled on Linux; the name of a part
-- file is what the machine's clock and process number make it. A write of a whole file happens or
-- fails, as atomic_write_secure in src/storage/utils.rs promises.
pub mod Common
pub mod Stream
pub mod Transfer
pub mod Storage
pub mod Auth
pub mod Metadata
pub mod Connect
pub mod Server
pub mod Client
