-- ===== src/Lib.antt =====
-- dn42-autopeer: a service that configures BGP peers over WireGuard for members of dn42. A client
-- asks for a challenge, signs a message that describes the change it wants, and sends both; the
-- service redeems the nonce of the challenge, checks the signature and the registry, stores the
-- desired peer, and configures the kernel, BIRD and nftables.
--
-- The parts, from the bottom up (paths from the root of the repository):
--   Base, Ipv6      numbers, texts as lists of code points, integers of fixed width, and the
--                   addresses of std::net with their parser and printer
--   Error           src/error.rs, and of src/observability.rs what an error logs
--   Observability   src/observability.rs: the ID of a request, and the levels in the log
--   WgPubKey, Peer  src/wg_pubkey.rs and src/peer.rs
--   Template        src/template.rs and templates/peer.conf
--   World           the outside of the process, and actions on it
--   Persist         src/persist.rs: tables, statements, transactions, the trigger
--   Challenge       src/challenge.rs: messages, signatures, the registry, authorisation
--   Netlink         src/netlink.rs: links and WireGuard devices
--   Manager         src/manager.rs: one child for each operation
--   Handle          src/handle.rs: validation, requests, handlers
--   Main            src/main.rs: the start, the routes, the background jobs, the service as a whole
--   Tests           the theorems at concrete inputs
-- A function keeps its name, and a record its fields. Where two of the source's functions share a
-- name, they keep it in their modules, as Persist.Peers.delete_peer, Manager.Delete.delete_peer and
-- Handle.Handlers.delete_peer.
--
-- An operation is an action: from a world to a result and the world it leaves. The world holds the
-- database, the links, the directory of BIRD, the port set, and one answer for each call to come.
-- An answer says whether the call fails, and whether a call that fails had its effect all the same;
-- it also gives the clock, a random key, and what a peer on the network sends. A theorem for every
-- world is one for every pattern of failures. An SQL statement is a function on the tables, with
-- the unique keys, the sequences and the trigger of the schema; a transaction stages its tables
-- and commits them in one call.
--
-- The crates `base64`, `url`, `ssh_key`, `pgp` and `wireguard_control` are the functions of the
-- record External, an instance argument of what uses them.
--
-- The model is that of a release build, which has neither the mock of the kernel nor the dummy
-- nonce. One operation runs at a time, so the locks do nothing. Texts are compared by code point, and
-- what BIRD sends is taken as ASCII.
-- The loops are recursive on their lists, and the search for a port on the ten thousand steps that
-- the source counts; the digits of a number are read off with one more unit of fuel than the number.
--
-- A part of the start ends in a panic, with its message, or in a value. The service is a step
-- relation, Main.System: starts, requests, turns of the listener, ticks of the job for the port set,
-- and stops, one at a time. A run is a list of such steps; the endless loop of the listener is the
-- turns among them, each of which ends before the connection or in the inner loop.
--
-- Not modelled: the lines, spans and timers of src/observability.rs, and the waiting, logging, CORS
-- and shutdown signal of src/main.rs, which only do input and output; the OpenAPI document and the
-- attributes of serde; the creation of the schema and the connection options; the kernel message
-- that turns off the reverse path filter.
pub mod Base
pub mod Ipv6
pub mod Error
pub mod Result
pub mod External
pub mod WgPubKey
pub mod Peer
pub mod World
pub mod Persist
pub mod Challenge
pub mod Netlink
pub mod Template
pub mod Manager
pub mod Handle
pub mod Main
pub mod Observability
pub mod Tests
