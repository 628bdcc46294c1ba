-- ===== src/Lib.antt =====
-- A model of the service channel agent, and the theorems about it.
--
-- The agent keeps a support session with a backend open while a console is serviced. Its parts:
--   * internal/backend: the contract of the console API and its HTTP client. Backend/Contract.antt
--     has the sessions, their validation and their JSON form; Backend/Client.antt has
--     `perform_json` (performJSON) and the four calls.
--   * internal/sessionstate and internal/host: the session that survives a restart, in a file.
--     Session/Store.antt has `save`, `load`, `clear` and `current_boot_id`; Session/Files.antt says
--     what they rely on of the file system and of the codec of encoding/json.
--   * internal/network: nmcli, systemctl and ip. Network/Nmcli.antt and Network/Ipv4.antt parse
--     their output, Network/Wait.antt is waitForCondition, Network/Wifi.antt and Network/Vpn.antt
--     are the managers and the cleanup. Network/Exec.antt runs their commands over os/exec (ExecRunner).
--   * internal/runtime: the manager that joins these and runs the heartbeats. Runtime/State.antt
--     has its state, Runtime/Manager.antt the methods on that alone, and Runtime/Calls.antt those
--     that read the state file or call the backend. `Agent` is the manager with the world around
--     it: the host, the heartbeat goroutines and what was delivered to subscribers.
--     Runtime/Heartbeat.antt and Runtime/Heartbeat/Steps.antt are about the goroutines,
--     Runtime/Sessions.antt and its child modules about the life of a session, the abstract machine
--     of which is in Runtime/Sessions/Machine.antt, and Runtime/Stores.antt about the place of the state
--     file, which no call changes.
--   * internal/ipc: the local socket. Ipc/Contract.antt has requests, responses, events and
--     payloads, Ipc/Reply.antt builds replies, Ipc/Server.antt has handleRequest, one definition
--     for each case, and handleRuntimeEvent; Ipc/Clients.antt has the table of clients and their
--     outbound channels. Ipc/Service.antt joins the agent and the table: a request is handled, the
--     runtime's events are passed on, and the answer is sent; Ipc/Service/Listen.antt has `run_server`
--     (Run), Ipc/Writer.antt the rounds of writeLoop, and Ipc/Writer/Order.antt is about what a client
--     reads of them, Ipc/Service/Connection.antt `handle_client` (handleClient), Ipc/Service/Closing.antt is
--     about the end of the connections. Ipc/Wire.antt has the JSON of what the server sends,
--     Ipc/Requests.antt that of a request, which the client writes and the server reads. Ipc/Client.antt has the
--     client: its calls, their channels, the reading goroutine and Close; Ipc/Client/Incoming.antt and
--     Ipc/Client/Payloads.antt decode what it reads, Ipc/Client/Steps.antt and Ipc/Client/Calls.antt
--     are about its operations in every order, and Ipc/Client/Exchange.antt joins it to the server.
--   * internal/config: Config.antt has the configuration and `load`, Config/Flags.antt the part of
--     Go's package flag that it uses.
--   * internal/logging: Logging.antt has the levels and the redaction of JSON bodies,
--     Logging/Requests.antt is about the requests in the log.
--   * internal/app: App.antt has the state of the application and what its handler prints of the
--     runtime's events, App/Print.antt its output, App/Commands.antt the commands that run without the
--     service, App/Service.antt the service's preparation and end, App/Requests.antt and
--     App/Interactive.antt the commands and the loop of the interactive mode, App/Run.antt `Run`.
--     App/Served.antt and its child modules join the interactive mode to the server.
--   * cmd/rook-agent: the process. Main.antt has `main`, from the arguments and the environment to the
--     exit code; Main/Runs.antt says what a process leaves by its command, Main/Sessions.antt and
--     Main/Stops.antt and Main/Service.antt are about several processes, one after another, and
--     Main/Summary.antt about the command `config`.
-- Common.antt, Text.antt, Errors.antt, Action.antt and Json.antt are shared: Go's package strings,
-- error values with errors.Is and errors.As, calls that change a state and may fail (Action/Keeps.antt
-- has what they keep, for `search`), and the part
-- of encoding/json that fills structs. Tests.antt and its child modules run the model on a small
-- host.
--
-- What the agent calls and does not implement is the record `Host` of Host.antt: commands, files,
-- the HTTP transport, the parser of URLs and the text of JSON values. A call of it may fail in any
-- way and may change the world in any way. A poll waits for the ticks that the host gives before
-- the context is done; that number is the fuel of `wait_rounds`, so no fuel is chosen here, and
-- every other loop is structural. A heartbeat goroutine is a record `Loop`; the calls of the
-- goroutines and of the clients come in any order, each from its beginning to its end; two calls
-- of StartHeartbeatLoop that overlap are in Runtime/Heartbeat/Steps/Overlap.antt.
-- Durations are in milliseconds, numbers are natural numbers. Texts are sequences of code points.
--
-- The interactive mode is run by a script, the list of what its select receives in each round, up to
-- what ends it; a request of it is one exchange over its connection. Of the two goroutines of the
-- service, what the server of the local interface returns and which of the two returns first are
-- parameters. A call of the client and its entry in the map are one step.
--
-- The calls of a subscribed handler run in the model after the call that emits the events, in the
-- order of the events; only the resumption of a session lets the handler of the server read the agent.
--
-- Not modelled: the bytes on the sockets (requests and messages come as JSON values or decoded); log
-- lines; and the set-up of the signals in cmd/rook-agent. The payload of a request is kept as the text of its JSON value. What the other
-- goroutines do while a request of a client is handled is a parameter of `handle_client`.
-- `%q` is exact for texts of printable characters without quotes and backslashes only.
pub mod Common
pub mod Text
pub mod Errors
pub mod Action
pub mod Json
pub mod Host
pub mod Backend
pub mod Session
pub mod Network
pub mod Runtime
pub mod Ipc
pub mod Logging
pub mod Config
pub mod App
pub mod Main
pub mod Tests
