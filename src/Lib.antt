-- ===== src/Lib.antt =====
-- Hashshashin: a layer-3 tunnel between an Iran and a Kharej node. This library models the Go
-- program and proves what makes its parts correct.
--
-- The parts. A node reads its configuration (config.go, performance.go), opens a carrier for packets
-- (carrier.go and carrier_udp.go, carrier_tcp.go, carrier_kcp.go) and a TUN device, and runs a sealed
-- tunnel over the carrier (transport.go, crypto.go): the Iran node starts each handshake, the Kharej node
-- answers. In the smart return mode the Kharej node probes the direct way back to the Iran node
-- (direct_probe.go) and switches its return traffic between that way and the tunnel (smart_return.go,
-- smart_policy.go). The node sets addresses, routes and firewall rules by running the system's commands
-- (routing.go, carrier_firewall.go), and removes them when it ends (run of main.go).
--
-- The files.
--   Base: helpers: Boolean tests, lists over native numbers, bits, signed integers, byte strings and
--     encoding/binary's big-endian words.
--   Crypto: the interface of HMAC-SHA256, HKDF and AES-GCM with their documented laws; Crypto/Toy is a
--     concrete instance, for the examples only.
--   Clock: the times of Go's time.Duration that the handlers compare, and the skew test of handleHello.
--   Wire: makeHello, makeHelloAck, the header and nonce of sealed packets, makeDirectProbe.
--   Replay: replayWindow.accept; Replay/Spec is the set of accepted counters that it stands for.
--   ReturnPath: returnPathController.observe, and the channel of notifyProbeAck and waitProbeAck.
--   Tunnel: the state of a node (tunnelState, session); Tunnel/Handshake is handleHello and
--     handleHelloAck, Tunnel/Data sendEncrypted and handleEncrypted, Tunnel/Dispatch the receive loop
--     and tunSendLoop, Tunnel/Supervisor the two session supervisors and handshakeClient.
--   Config: loadConfig from the decoded record on; Config/Defaults is performance.go and the default and
--     check functions of single sections, Config/Load the whole in the source's order.
--   Tun: openTun and openTunWithQueues, and the queue that tunDevice's ReadQueue and Write take.
--   Carrier: streamCarrier, with its frames of a four-byte length and a packet; Carrier/Udp is udpCarrier's
--     choice of the address that a packet goes to, Carrier/Open the carriers' constructors.
--   Shell: runCmd, runQuiet, ipt, resetChain and deleteChain, over the log of the commands run so far;
--     Shell/Emits has the rules for what a script adds to the log.
--   Routing: the constants of routing.go, setupTun, setupTransportBypass and cleanupRouting; Routing/Iran,
--     Routing/Kharej and Routing/Setup the two nodes' set-up, Routing/Policy smart_policy.go,
--     Routing/Firewall carrier_firewall.go; Routing/Objects says what a command makes and removes,
--     Routing/Kernel what the system does then, as laws for a theorem to assume.
--   Probe: verifyDirectProbe, one round of runDirectProbeResponder, and runDirectProbeMonitor.
--   Main: the order of set-up, service and cleanup in run; Main/Program is main with its flags, and
--     printConfigSummary.
-- Each part's proofs are in its child modules, named for what they prove, and its tests in Tests.
--
-- State and operations. A handler takes the state and returns the new state with the packets that it
-- sends and writes. Random bytes, the current time and the addresses of new sessions are arguments. Loops
-- over events (the receive loop, the handshake's select, carrier calls) run over the list of the events
-- that they meet, so that every order of events is a list. Whether a command succeeds is an arbitrary
-- function of the commands run before it, so that a theorem holds for every way commands can fail. The
-- only loop on fuel is deleteChain's, whose rounds the kernel's rules bound: fuel above the number of
-- jumps from a hook, and 2 at least, is enough on a system whose iptables -C, -D and -I do what they
-- say. Unsigned counters of 64 bits wrap around (% 2 ^ 64); Go's int is an integer without bounds where only comparisons are made.
--
-- Not modelled. encoding/json, base64, addresses and resolution, HMAC, HKDF, AES-GCM, net.Conn and the
-- runtime's timers are parameters or data of the model. Locks are left out: a handler runs as one
-- step. What a command does in the kernel is known by the laws of Routing/Ending and Routing/Kernel
-- alone; sysctl and link settings are not undone by the code. Sockets and their options, the TUN ioctl, goroutines that outlive the five
-- seconds that run waits for them, the statistics log and log lines are left out.
pub mod Base
pub mod Crypto
pub mod Clock
pub mod Replay
pub mod ReturnPath
pub mod Wire
pub mod Tunnel
pub mod Config
pub mod Carrier
pub mod Tun
pub mod Shell
pub mod Routing
pub mod Probe
pub mod Main
