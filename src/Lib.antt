-- ===== src/Lib.antt =====
-- A model of ferro-wg, a WireGuard client: its configuration, its daemon and its tunnels
-- (ferro-wg-core), the state machine of its terminal interface (ferro-wg-tui-core) with what its
-- keys and its tasks do (ferro-wg-tui-components, ferro-wg-tui), its command line program
-- (ferro-wg), and the theorems that make them correct.
--
-- Core models ferro-wg-core/src. Core/Config.antt has the records and the validation of
-- config/mod.rs (`validate_name`, `WgConfig::validate` as `validate`, `AppConfig::validate` as
-- `validate_app`, and the map's `get` and `insert`), Core/Key.antt the base64 keys of key.rs,
-- Core/WgQuick.antt with its children the reader and the writer of config/wg_quick.rs (Builder, Parse
-- and Export; Takes, Keys, Fields, Lists, Interface, Peers and RoundTrip are about what the reader
-- does with what the writer made, line by line),
-- Core/Toml.antt with its children the loading and saving of config/toml.rs (Files and Saving are
-- about files, Saved and Inserted about what a file holds after a save), Core/Error.antt, Core/Stats.antt and
-- Core/Ipc.antt the data of the files of these names, Core/Logs.antt the filters of logs.rs. An
-- error's formatted message is a constructor with what the message shows.
--
-- Core/Tunnel.antt and its children model tunnel/: Route, Socket and Dns what is done to the system
-- (route.rs, udp.rs and tun_device.rs, dns.rs with a module for each platform), Manager, Target,
-- Opening, Updown and Status the `TunnelManager` of mod.rs, PacketLoop its `packet_loop`.
-- Core/Daemon.antt and its children model daemon.rs: Buffer and Layer the log buffer, Command the
-- handling of a command, Serve the connections that clients make. The others prove: View is the
-- abstract state (which connection is up, on which backend), Coming, Going, Everything, Listing,
-- Restores and PacketRules are about the tunnels, Recent, Refines, Stops and Answers about the
-- daemon, Core/Message.antt about a message's line on the socket (ipc.rs). Core/Client.antt models
-- client.rs, and its child Exchange is about the client and the daemon together: what one writes is
-- the text that the other reads its lines from. An error response is the error it was made of, and a
-- text alone where a client has read it. A length beyond its buffer makes the packet loop panic, as
-- one of the ways it may end (`LoopEnd`). A function that calls the system is an
-- `Eff` of Prelude/Effect.antt: it takes the state to a result and a state. The system, with
-- tokio's sockets and tasks, is the record `Os` of Core/Os.antt, the file system as the interface
-- and the programs use it the record `Disk` of Core/Disk.antt; a statement holds for every one.
-- Connections that clients make, and the events of a packet loop, are lists.
--
-- Tui models ferro-wg-tui-core/src. Tui/App.antt, Tui/Theme.antt, Tui/Action.antt and
-- Tui/Benchmark.antt have the small files of these names, Tui/ConfigEdit.antt with its children the
-- fields of the configuration editor (config_edit.rs): Validate the validators, Diff the preview;
-- AllowedIps, Validate/Cidr, Ranges and Elsewhere are about what is accepted and written.
-- Tui/State.antt and its children have state.rs: Types the state, Simple and Config the handlers,
-- Editing what they do to an editing session, Dispatch the function `dispatch`, which a component
-- or the event loop calls with an action, one at a time. `dispatch` gives a result: its error is
-- the place where the code panics. A handler that changes the state in place is a function from the
-- state to the next; `run` is a sequence of actions, each with the clock that the code reads while
-- it handles it. Tui/EventLoop.antt has what `handle_key_event` of ferro-wg-tui/src/lib.rs
-- dispatches for one action.
--
-- Tui/Keys.antt and its children have what a key does. Event has the global keys, Tables, Focus,
-- LogsView and Overlays the handlers and the updates of the components
-- (ferro-wg-tui-components/src), Fields what the configuration tab shows of a field, Mouse the
-- mouse events and the hit test of the tab bar (tab_bar.rs), Commands the tasks that an action
-- spawns, Resolve the function `handle_key_event` on the state and the components together: it
-- gives both, with the tasks as a list. A row in focus is a number; what drawing a table does to it
-- is not modelled. Pressed and Typing find the actions that a key may come to, NoPanic and Scroll
-- are about the events and the log view. Tui/ConnectionBar.antt has what connection_bar.rs computes
-- for its drawing: the widths of the entries, and which of them it shows.
--
-- Tui/Tasks.antt and its children have the tasks that ferro-wg-tui/src/lib.rs spawns, from their
-- arguments to their messages: Import, Saves, History (with history.rs), Answers and Starts; Stored,
-- Backup, Polling and Unfinished are about them, the last one together with the daemon and the state
-- (Tui/State/Waiting.antt). Tui/Error.antt has `TuiError`.
--
-- Program models ferro-wg/src: Cli the arguments, Commands, Status and Import the subcommands of
-- main.rs, Logs the one of cmd/logs.rs, Imported what an import leaves. What a subcommand prints is
-- a list of lines.
--
-- A text is the list of its code points, a HashSet a list read through `contains` only, a BTreeMap
-- an association list in the order of its keys. An integer is a natural number; the bound of its
-- width is tested where the code parses it, and no modelled operation adds to a stored one but the
-- scroll offset, which saturates at 2 ^ 64 - 1, and the rows in focus, which stay under the number
-- of rows. Loops are structural recursion, but for the view of the connection bar and the digits of
-- a number: their fuel is at least the number of their rounds. The reader of wg-quick files is a
-- fold over the lines, whose variables are the record `ParseState`.
--
-- Third-party code is a parameter: External.antt has base64, IP addresses and Unicode tables, with
-- the laws that a round trip relies on; the toml crate is a printer and a parser, and so is
-- serde_json, whose laws in Core/Message.antt leave out what JSON does not carry: an infinity, a
-- NaN, and the last digit of a 64-bit float. Text models the parts of the standard library's `str`
-- that the code calls; a BTreeMap's insertion is `insert_entry`. Not modelled: rendering, the layout,
-- the inside of the three backends, the making of the daemon's socket, the parsing of arguments, and
-- floating-point formatting.
--
-- Prelude.antt and its children have the helpers that all parts share, Samples.antt and Tests.antt
-- the test data and the theorems applied to it.
pub mod Prelude
pub mod Text
pub mod External
pub mod Core
pub mod Tui
pub mod Program
pub mod Samples
pub mod Tests
