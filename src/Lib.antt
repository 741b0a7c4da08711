-- ===== src/Lib.antt =====
-- A model of CoreNet, a daemon that serves the names of a private .core namespace on a node, and the
-- theorems that make it correct.
--
-- The program. A node knows services from five places: its configuration, registrations at run time,
-- Docker containers, other nodes, and conflicts between containers. internal/registry keeps them in
-- tiers and decides which one a name resolves to. internal/config checks the configuration that fills
-- the first tier, internal/discovery polls Docker and fills its tier, internal/daemon/peers.go pulls
-- the directories of the configured nodes. internal/dns answers every known name with the node's own
-- address, where the proxy of internal/daemon/proxy.go forwards a request to the service's address.
--
-- The files, and the code they model:
--   Common      what the components share: byte strings, maps, sorting, decimal numbers, and Go's string
--               and network address functions
--   Protocol    pkg/protocol/protocol.go: records, NormalizeName, ValidateName, Addr
--   Registry    internal/registry/registry.go: one function for each method; Registry/ has the invariant,
--               the precedence of the tiers, the listings, the writes, and independence of map order
--   Config      internal/config/config.go: Validate and the settings; Config/Loading is Default and Load, and
--               Config/Routed ties a valid configuration to the registry
--   Discovery   Discovery/Container is internal/discovery/docker.go, Discovery/Polling is
--               internal/discovery/discovery.go, with the request for the list of containers
--   Daemon      Daemon/Peers is internal/daemon/peers.go over an interface to the store, which Daemon/Store
--               fills with the registry, and Daemon/Peers/Requests its requests to the nodes; Daemon/Proxy
--               is internal/daemon/proxy.go, with its error pages in Daemon/Proxy/Page; Daemon/Api is
--               internal/daemon/api.go, whose two listeners are the functions control and peer;
--               Daemon/Node is New and Reload of internal/daemon/daemon.go, which put the parts together,
--               Daemon/Node/Reports is its Status, Info and Nodes, and Daemon/Node/Lifetime the events of
--               a running node; Daemon/Running is the start of its listeners and the shutdown;
--               Daemon/Agreement compares the answers of the DNS server, the proxy and the API
--   Dns         internal/dns/dns.go; Dns/Server is its New, Start and Shutdown
--   Commands    Commands/Corenetd is cmd/corenetd/main.go, from its flags to its exit; Commands/Client is
--               cmd/corenet: Options parses the arguments, Requests speaks to the daemon, Asking and Showing
--               are the commands that ask it, Files and Connecting those that write to the system, and
--               Dispatch chooses among them
--
-- How the code is rendered. A text is the list of its bytes. A Go map is an association list in which
-- an invariant keeps keys distinct; its entries stand in the order that a range loop happens to take,
-- and Registry.Order and the sorted listings show that this order does not matter. A sort is an
-- insertion sort by key; keys of the sorted lists are distinct, so any sort gives the same list. An int
-- is a signed integer, and a duration the signed 64-bit product that Go computes. A method that holds
-- the mutex for its whole body is one step; pull, which does not, is also given as two steps in
-- Daemon/Peers/Interleaving. Endless loops (Run) go over a list of rounds, one for each tick until they
-- are cancelled. What goes on in a running node, between one signal and the next, is a list of events, each
-- over before the next begins. The commands' effect on the system is a map of files, and a write goes
-- through a list of such maps, one for each call. All other loops are recursion on the list or map they
-- range over, so no fuel is needed, with three exceptions: the digits of a number n, where n + 1 rounds are
-- more than there are digits; the loop of parseArgs, where each round takes an argument, so that one round
-- more than there are arguments is enough; and the fields of an IPv6 address, of which there are at most 8.
--
-- Parameters: the Unicode tables behind strings.ToLower and strings.TrimSpace on texts that are not
-- ASCII, the outcome of requests to nodes, to Docker and to the daemon, the wording of a refused container,
-- the message type, constants and SetReply of github.com/miekg/dns, what encoding and decoding JSON gives,
-- and what each call of the operating system gives, reading files, binding sockets and systemctl included.
--
-- Not modelled: the bytes on the sockets, HTTP and JSON; the format of the logs, the wording of messages and
-- the padding of tables; and what httputil.ReverseProxy does with a request that is forwarded.
pub mod Common
pub mod Protocol
pub mod Registry
pub mod Discovery
pub mod Daemon
pub mod Commands
pub mod Dns
pub mod Config
