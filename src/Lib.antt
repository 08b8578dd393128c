-- ===== src/Lib.antt =====
-- TunSafe, a WireGuard client and server: a model of its protocol engine.
--
-- A tunnel device hands IP packets to WireguardProcessor (wireguard.cpp), which finds the peer that
-- an address is routed to, encrypts with the peer's current keypair (wireguard_proto.cpp) and
-- writes to the network; packets from the network go the other way. A peer (WgPeer) has up to
-- three keypairs in slots, timers that ask for handshakes and keepalives, and a queue of the packets
-- that wait for a handshake. A keypair (WgKeypair) has the counter of its sends and a replay detector.
--
-- Files and the code they model (paths from the root of the repository):
--   Base          names shared by all; tests, lists, bits of words, and tunsafe_endian.h (Base/Bytes)
--   Replay        ReplayDetector in wireguard_proto.cpp; Window is its reference, Ring and Refine
--                 relate the bitmap to it, Once counts acceptances
--   Keys          WgKeypair, WgAddrEntry, WgDevice in wireguard_proto.h; Table is the table of key
--                 ids, Ids the choice of an id, AddrEntries the table of addresses
--   Peer          WgPeer in wireguard_proto.h and wireguard_proto.cpp: Slots (DeleteKeypair,
--                 InsertKeypairInPeer_Locked, CheckSwitchToNextKey_Locked), Queue
--                 (AddPacketToPeerQueue_Locked), Timers (OnDataSent and the others), Check
--                 (CheckTimeouts_Locked), Events (CheckAndUpdateTimeOfNextKeyEvent); the proofs
--                 are in Bounds, Flags, Steps, Actions, Delete, Aging, Settled,
--                 Safety and Rate
--   Processor     WireguardProcessor in wireguard.cpp: Send (HandleTunPacket,
--                 WriteAndEncryptPacketToUdp_WillUnlock, SendQueuedPackets_Locked), Receive
--                 (HandleDataPacket, HandleAuthenticatedDataPacket_WillUnlock), Handshakes (the handlers
--                 of the handshake messages), Main (HandleUdpPacket, RunAllMainThreadScheduled,
--                 SecondLoop); the proofs are in Quiet, Deliver, Counter, Admit, Limited, Sending
--                 and Start; Exchange, Meeting, KeptKeys and Mirrored take two processors through a
--                 handshake; Transit, Tunnel and RoundTrip take a packet from one tunnel to the other;
--                 Neighbor is the ICMPv6 reply, with Checksum and Advertised on it; Short is the counter in a short header
--   RateLimit     WgRateLimit in wireguard_proto.h and wireguard_proto.cpp; Bins bounds its counters,
--                 Period relates them to what a use of the limiter does
--   Tcp           TcpPacketHandler in network_common.cpp; Stream relates the pieces of the queue to
--                 the stream of bytes, Next shows that the pieces do not matter, Fuel when the loop ends
--   Handshake     the handshake messages of WgPeer in wireguard_proto.cpp: Initiator
--                 (CreateMessageHandshakeInitiation, ParseMessageHandshakeResponse), Responder
--                 (ParseMessageHandshakeInitiation), Keypair (CreateNewKeypair); Agree shows that the
--                 two sides compute the same key, Kept, Created and Complete what each call leaves, and
--                 Exchange puts them together with Accepted; Config is SetPrivateKey and
--                 SetPublicKey, with SameDevice and Ready on what they leave; Cookie is the checks of the macs and
--                 the cookies, with Macs and Retry on them; Answered and Once are on the messages
--                 that are answered; Wire, OnWire and OnWireBack are the messages as bytes
--   Routing       IpToPeerMap for IPv6 in ip_to_peer_map.h and ip_to_peer_map.cpp; Prefix is on the
--                 common prefix, Best on LookupV6, Networks on InsertV6 and RemoveV6
--   Util          util.cpp and tunsafe_ipaddr.cpp: Base64 (base64_encode, base64_decode, ParseBase64Key) with Decoded on the
--                 round trip, Hex (ParseHexString, PrintHexString); Cidr is on the networks of tunsafe_ipaddr.cpp
--
-- Pointers to keypairs and peers are indices into stores, which are functions; a hash table is a
-- function into Option. The state of a component is a record, and each operation takes the state
-- and returns it. Integers are natural numbers with the wrap-around of the code written out. The
-- time is an argument. A packet is the list of its bytes from `data` on.
--
-- Fuel: the loop that makes room in a peer's queue is given the queue's counter, which it lowers
-- in every round; the loop of InsertInKeyIdLookup runs along the list of the random numbers drawn; the
-- loop of GetNextWireguardPacket runs along a list that says for each round whether a packet can be
-- allocated, and has an outcome of its own for a list that is too short (Tcp/Fuel).
--
-- The build is the default of tunsafe_config.h, in which WITH_HANDSHAKE_EXT, WITH_SHORT_HEADERS and
-- WITH_HEADER_OBFUSCATION are off. The locks are left out: each operation runs under the lock of the
-- peer or on the main thread, and is one step here. Allocations are taken to succeed, but
-- for the packet that GetNextWireguardPacket needs to split a piece. Encryption and decryption, the routing lookups and the capacity of a packet are parameters (Processor.Env), and so are
-- the ciphers of the handshake (Handshake.Crypto) and what a call gets from the operating system
-- (Handshakes.Chance); a call that is given too few random numbers for a key id sends and answers nothing.
-- The extension field of a handshake message is empty, as it is without WITH_HANDSHAKE_EXT.
-- Not modelled: the ciphers, the handshake extensions, the short headers but for their counter,
-- RoutingTrie32, the configuration, the delayed deletes, the network back ends
-- of the systems, the user interfaces, and the vendored hash table.
pub mod Base
pub mod Replay
pub mod Keys
pub mod Peer
pub mod Handshake
pub mod Processor
pub mod RateLimit
pub mod Routing
pub mod Tcp
pub mod Util
