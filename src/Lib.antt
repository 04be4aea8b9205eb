-- ===== src/Lib.antt =====
-- A model of uip, a daemon that connects peers by identifiers that are hashes of their public keys, and
-- of its client uipcat.
--
-- The program has two halves, which src/bin/uipd.rs joins by two channels (Bin/Uipd.antt). The network
-- half (src/network/) opens a UDP socket for each global address of the host, keeps TLS connections to
-- peers on them, and exchanges data frames and control messages. The local half (src/unix/) serves
-- local programs over a control socket, each bound to a port.
--
-- Data/ is src/data/: Identifier.antt (from_str, deserialize, to_string, from_public_key), Identity.antt
-- (generate, clone, the derived serialisation), Peer.antt and PeerInformationBase.antt. Openssl.antt
-- lists what is used of the crate openssl. Protocol.antt is src/network/protocol/mod.rs. Discovery.antt
-- is src/network/discovery/ and src/network/local_address.rs.
--
-- World.antt is the mutable state of the network half: the source's `Shared<Socket>` values stand in a
-- store and are named by references, a tokio channel is a number, what the program does to the outside
-- is a trace of events, and what the operating system, tokio and openssl answer is an `Env`, a function
-- of that trace. An operation that the source writes as a method on `Shared<T>` is an action `M A` on
-- the world.
--
-- Io/ is src/network/io/ (forward_or_new_connection, the read task and the methods of a connection).
-- Transport/ is src/network/transport/: Codec.antt (encode, decode), Connection.antt with Tasks.antt
-- (the read, write and ping tasks, each by itself) and Link.antt (the three tasks interleaved over their
-- channel), Socket.antt (accepting, opening and closing connections) and Tls.antt (the settings of
-- openssl, and who the peer of a session is).
-- Network/Sockets.antt and Network/Peers.antt are src/network/state.rs: the first half opens and closes
-- sockets and publishes addresses, the second sends and delivers frames and control messages.
-- Change/Debounce.antt is src/network/change/debounce.rs and Change/Netlink.antt the rest of
-- src/network/change/. Rpc.antt is src/rpc/. Unix/ is src/unix/; in State/Programs.antt many programs are
-- served at a time.
-- Bin/ is src/bin/ and src/configuration.rs: Uipd.antt joins the halves, Uipd/Files.antt is `main` with
-- the configuration file, Uipcat.antt has the frames of the client, Uipcat/Listening.antt what it shows,
-- Uipcat/Arguments.antt what it does with its arguments, and the two files Command.antt the tables of
-- arguments. Base/ holds the shared helpers and the maps; Tests/ holds concrete inputs.
--
-- Tasks. A task that loops over what it waits for is a function of the list of what it receives, and
-- tasks that run at the same time are a step relation whose steps stand between await points:
-- Transport/Connection/Link.antt for the tasks of a connection, Unix/State/Programs.antt for those of the
-- control socket, Network/Interleaved.antt for the handlers of the network half. There a step is a send, an
-- end of opening a connection, or what a handler does to the state; Network/Pieces.antt has what the
-- handlers are composed of. Network/Reachable.antt takes whole handlers as steps. In
-- Network/Interleaved.antt a hash map may give its entries in another order at any step, and
-- Data/PeerInformationBase/Unordered.antt is the peer information base without an order. The source's u16
-- is a number, with the truncation of the payload's length written out.
--
-- Hosts.antt puts two daemons together: the local half with its programs, the network half, a connection,
-- the bytes that the other end reads in chunks, the network half there, and the local half there. The
-- halves are those of the other files: `send_frame`, the tasks of a connection, `read_task` and
-- `deliver_frame`. Hosts/Near.antt is about the first daemon, Hosts/Far.antt about the second,
-- Hosts/Kept.antt about what each part has of what the part before it has. The connection is DTLS over UDP:
-- any bytes may arrive, and the theorems say what they assume of them. It is one connection, and one
-- direction of it: what two connections between the same hosts do to the order is not modelled.
--
-- Locks. Shared.antt is src/utils.rs: a lock, and tasks that take its guards and drop them. The standard
-- library leaves open whether a waiting writer keeps others from reading, which is an argument there; the
-- lock itself is written after its documentation.
-- Network/Guards.antt has the guards that functions of src/network/state.rs take; the other models pass
-- the state explicitly.
--
-- Fuel. The loop of `poll_next` that discards items runs on fuel. The loop of the netlink socket's
-- `poll_read` runs over the answers of its system calls. A drained buffer uses its length as
-- fuel, as each frame takes at least one byte.
--
-- Not modelled: logging, help texts, signals and wakers; poisoned locks. The crates bytes, byteorder,
-- rmp_serde, interfaces, openssl, toml, nix, capnp and clap and tokio's channel are the parameters
-- `ByteBuf`, `MessagePack` and `FramePack`, `Interfaces`, `Openssl` and `Builders`, `Toml`, `System`,
-- `Capnp`, `Clap` and `Mpsc`.
pub mod Base
pub mod Data
pub mod Protocol
pub mod Discovery
pub mod Io
pub mod World
pub mod Shared
pub mod Transport
pub mod Network
pub mod Unix
pub mod Change
pub mod Rpc
pub mod Bin
pub mod Hosts
mod Tests
