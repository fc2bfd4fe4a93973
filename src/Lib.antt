-- ===== src/Lib.antt =====
-- SpaceChat: a chat server with rooms, its encrypted store, its clients and their updates.
--
-- Parts, and the files that model them (paths from the repository's root):
--   Prelude, Decimal, Unicode: texts as lists of code points, maps, results, decimal numerals, and what
--     Go's unicode and strings packages do. A byte that is not UTF-8 is a number above the code points.
--     What a letter and a number are beyond ASCII is a parameter (Unicode.Tables).
--   Protocol: internal/protocol. Frames (the types, Encode), Validate (ValidateName, ValidateBody),
--     Mentions and Json (MentionText, FindMentions, with the reader of a JSON list of strings),
--     MentionLaws.
--   AccessKey: internal/accesskey/key.go, Validate.
--   Pages: what Store.Page and Room.Page have in common, the selection and order of a page. Sync and
--     History follow the pages that a client asks for, Bounds is their size.
--   Store: internal/store, the store of a server with one room.
--   SecureStore: internal/securestore, Room.AppendChat, Room.Page, Room.Recall, Store.Room and
--     Store.ClearAll over tables as lists (SecureStore.Database). Sealing is the interface to the AEAD and
--     JSON: opening gives what was sealed under the same additional data, and JSON reads back what it
--     wrote of UTF-8 texts. Reading, Append, Recall and RecallResult say what a room shows.
--   Server: internal/server. Session (queues), Backend (Repository), State (Server, presence, leave,
--     Close), Join (join, checkClient), Handle with Handle.Publish (handle, recall), Clear (ClearHistory),
--     Run (the events that reach a server). Cases lists the ways in which handle ends; Follows, Sound, JoinSound keep the
--     invariant of the connections; Isolation is about rooms, Order about the end of a synchronisation.
--     Kaomoji is internal/server/kaomoji.go.
--   Kaomoji: internal/kaomoji/catalog.go.
--   Update: internal/update. Version (version.go), Manifest (manifest.go), Runner (runner.go). Disk is the
--     record of the files that an update works on, with ReadCurrent, WriteCurrent (layout.go), Download
--     (remote.go) and verifyInstalledArtifact (install.go); Lock is lock.go; Install and Install.Rollback
--     are Install and Rollback, Cleanup is Cleanup (install.go). Install.Safe says what an installation
--     leaves; Held, Whole and Back follow it with the lock held, with the lock, and back.
--   Client: internal/client/client.go: the frames that arrive, requests, and Reconnect (Run).
--   Tui: internal/tui. Chat with Chat.State (applyEvent, sendBody, loadOlder of model.go), Timeline
--     (merge), Recall (recall_picker.go), Screen (Model with its text fields, Close), Switch
--     (room_switch.go), Update (Update of model.go), Keys (what Update is given), Picker (the choice of a
--     kaomoji, kaomoji.go). Chat.Account, Chat.History, Chat.Shown and Chat.Kept say what events do to
--     messages that wait, to the list and to the rest; Update.Tended, Steps, Login and Always follow the
--     clients through every input, Update.Draft the draft.
--   Examples, and the Examples of a part: the laws at concrete inputs.
--
-- How they interact: a connection's request is one step of the server's state, since every handler holds
-- the lock of the server; the step calls the store through Backend, which is either the plain store or a
-- room of the encrypted one, and leaves frames in the queues of the connections. A client's cursor and the
-- cursor that the server keeps for it move by the same pages. A screen holds the client of its room, and
-- that of the room it is about to enter; it reads their events one at a time, and Chat.History puts the
-- server's pages into its list. Runner calls an installation and its rollback by what they answer.
--
-- Conventions: numbers of messages and times are natural numbers; an int64 that a client sends is an
-- integer. int64 does not overflow here, which needs fewer than 2^63 messages and nanoseconds. A call of
-- the database fails where a given function says so. Randomness, time, hashes, signatures and the decoding
-- of JSON are given. A map of connections is a list without order of its own; the operations over it do
-- not depend on one, but for the order in which equal texts are sorted.
--
-- Fuel: the two loops of Runner.Run go on for as long as the user retries, so that they have fuel; any
-- fuel beyond the round in which the user leaves is enough. sync_rounds counts the pages that a client
-- asks for, and needs no more rounds than there are messages, and one. scroll counts the pages that a user
-- goes back, and needs no more rounds than there are messages that are not on the screen. The other loops
-- are structural.
--
-- A call of the operating system that fails changes nothing, but for a write to the lock, and a file is
-- replaced or renamed as a whole. Lock.Rivals is what other processes do to the lock's path between the
-- calls of Acquire; the other files are this process's while it runs, but for the pointer, which another
-- process may move while the lock is refused.
-- A text field of the terminal's library is the text that it holds after a key.
--
-- Not modelled: the websocket, HTTP and TLS; the migrations and keys of Open; the drawing of the terminal
-- user interface, the sizes of its fields, its clipboard, the picker of members, and the pickers within
-- Update; removal; the texts that people read in errors.
pub mod Prelude
pub mod Decimal
pub mod Unicode
pub mod Protocol
pub mod Pages
pub mod AccessKey
pub mod Store
pub mod SecureStore
pub mod Update
pub mod Kaomoji
pub mod Client
pub mod Server
pub mod Examples
pub mod Tui
