-- ===== src/Lib.antt =====
-- PhonePad: the daemon that turns a phone into a mouse, keyboard and screen of a computer.
--
-- The phone keeps one control connection, a websocket, on which it sends pointer movements, touch
-- snapshots and keys; long texts and files come by HTTP. The Go code below daemon/internal decides
-- what of this reaches the host's input provider and disk. Its parts, and where they are modelled:
--
--   Touchpad     daemon/internal/input/touchpad.go: `MtState` is mtState, the table of the five
--                slots of a multitouch device; newMTState, assign, present, scale, toolBit, frame,
--                reset, cancel and hardReset have the functions of these names in Touchpad/Events.
--                Touchpad/Kernel is the other side, Linux's reading of the events, as a reference.
--   Protocol     daemon/internal/server/protocol.go: Msg, validMsg and Parse in Protocol/Messages,
--                the checks of single strings in Protocol/Tokens. An accepted snapshot is the
--                argument of `frame`.
--   Actions      daemon/internal/server/actions.go: keys with a receipt. A goroutine of
--                routeKeyOperation is a sequence of sections between lock and unlock of Server.mu,
--                each a function of Actions/Reserve or Actions/Sections. An interleaving of
--                goroutines is a list of their sections.
--   TextOps      daemon/internal/inputops/text.go: TextTransfer and Registry, the uploads of
--                literal texts. A method is a function that returns the object after the call; its
--                mutex makes it one step.
--   Session      daemon/internal/server/capabilities.go, server.go, lifecycle.go and
--                input_operations.go: permissions and permits, the control session, and the leases
--                that own the registries of TextOps. Server.mutationGate makes each change a step.
--   FileBatches  daemon/internal/filebatches: batches of files that are staged in chunks, verified
--                and published as a folder. The store is what its root directory holds.
--   InputQueue   daemon/internal/input/async.go: asyncText, the queue between the server and the input
--                provider. Its callers, helper goroutines and worker are steps of one state.
--   Pairing      daemon/internal/pairing/pairing.go and daemon/internal/server/session.go: the
--                credential that lets a phone in, and the one-shot codes that hand it out.
--   TextUpload   handleInput of daemon/internal/server/input_operations.go, which joins TextOps and
--                Session: a request is a chain of guards and then a sequence of steps on its world,
--                the server and the registry, with anything others do in between. A text that the
--                provider is called with is a `Dispatch`.
--   Pointer      daemon/internal/input/linear_touch.go: `LinearTouch` moves the pointer with one
--                finger, over calls of the desktop that may fail; and the calibration file of
--                pointer_geometry.go.
--   Keyboard     daemon/internal/input/keymap.go and input.go: the keys and buttons of uinputDevice,
--                combinations, typed text and the reset, above a kernel that sees only the records
--                that were written before a call failed; and clipboardLiteralText of
--                clipboard_literal_linux.go (Paste), by which a text without keys is pasted.
--   Clipboard    daemon/internal/server/clipboard.go: a picture on its way to the clipboard, from the
--                search of a JPEG for its orientation (Jpeg, Exif) over the turning of its pixels
--                (Orient) to the file of bounded size (Limits, StdlibPng). Reading has Go's indexing
--                and slicing, where a panic is a value.
--   FileTransfers  daemon/internal/server/file_transfers.go: copyTransfer, which puts a published batch
--                of FileBatches on the clipboard, with the marker file that claims it. An attempt has
--                a fate: which step fails, or where the power is lost.
--   Media        daemon/internal/server/media.go: the snapshots that the screen's provider gives of
--                its source and geometry, their checks (Snapshot) and what the daemon keeps of those
--                that come in any order (Observe).
--   EventHub     daemon/internal/server/events.go: `Hub` tells the pairing views who is connected, by
--                queues of eight events. A call of the hub is one step.
--
-- Base has the shared names: Boolean tests, Go's int as ℤ, strings as lists of bytes, maps as
-- association lists. Floats names the operations of float64 as parameters.
--
-- Numbers are natural numbers where the source has a non-negative int; an int that a client sends is
-- ℤ. Where a counter is a machine word that only grows, its wrap-around is written out: uint64 for
-- the revisions of Session and Media and the epochs of InputQueue, int32 for the tracking identifiers of
-- Touchpad. The sequence numbers of an action stop at 130 and those of a text at 2^53 - 1. Every
-- loop is a recursion on a list or on the rounds that are left; only two count fuel: the printing of
-- a decimal number, with one more than the number itself, which has no more digits than that, and the
-- search of a JPEG, with the file's length, of which each round uses up a byte at least.
--
-- Parameters: SHA-256 (`sum256`), float64 (`FloatOps`, `PointerMath`), the JSON decoder and the
-- Unicode tables (`Decoder`, `parse`, `print`, `runes`, `to_lower`), the key codes of the uinput
-- library (`uinput`) and what its calls come to (`vendor`), the process that lends the clipboard to a
-- paste (`Lease`), the desktop's answers to a pointer (`fails`), image.Decode and png.Encode. The
-- answers of the input provider, of the clock and of the source of random bytes are arguments of the
-- step that uses them.
--
-- Not modelled: the HTTP and websocket plumbing of daemon/internal/server, the desktop adapters of
-- daemon/internal/input, certificates, the processes that own the clipboard, previews, video and
-- desktop streams, failing disk operations and crashes between two writes of
-- daemon/internal/filebatches, and everything outside daemon/internal.
mod Base
pub mod Floats
pub mod TextOps
pub mod Touchpad
pub mod Protocol
pub mod Actions
pub mod FileBatches
pub mod InputQueue
pub mod Pairing
pub mod Session
pub mod TextUpload
pub mod Pointer
pub mod Keyboard
pub mod Clipboard
pub mod FileTransfers
pub mod Media
pub mod EventHub
