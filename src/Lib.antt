-- ===== src/Lib.antt =====
-- AnonGuard: a relay network for anonymous traffic. This library models parts of it and
-- proves what makes them correct.
--
-- The parts and how they interact. A client builds a circuit of relays (onion), wraps cells for
-- it and checks the answers for replays; a stream is cut over several paths and put together
-- again, under a window of credit and a fixed cadence. The relays are named by a consensus that
-- directory authorities sign (mesh/consensus) with hybrid keys (crypto); the mesh keeps floods
-- of identities and connections out by proofs of work, source budgets and a check that the
-- relays of a circuit are apart. Padded sessions (onion) carry several streams over one circuit;
-- applications reach it by SOCKS5 (gateway). Identities are retired by a signed policy whose
-- journal never goes back (core). An exit relay connects only where its policy lets it (kernel),
-- and a guarded socket refuses all traffic once the kill switch is tripped (core).
--
-- Which file models which part (paths from the root of the repository):
--   Base             shared tests, lists, bytes, bits and results
--   Core.GuardedSocket    src/core/state_machine.rs, and the reset of src/kernel/killswitch.rs
--   Core.Storage          src/core/storage.rs: how atomic_write ends
--   Core.Revocation       src/core/revocation.rs: RevocationPolicy
--   Core.Revocation.Journal   src/core/revocation.rs: load_and_commit
--   Crypto.Identity       src/crypto/hybrid_identity.rs, src/crypto/identity.rs
--   Gateway.Socks         src/gateway/chain.rs, over the streams of Gateway.Stream
--   Gateway.SessionCache  src/gateway/session_cache.rs
--   Kernel.Dns            src/kernel/dns.rs
--   Kernel.Ip             the address types of the Rust library, as far as they are used
--   Kernel.KillSwitch     src/kernel/killswitch.rs: KillSwitchController
--   Kernel.ExitPolicy     src/kernel/exit_policy.rs
--   Mesh.Sybil            src/mesh/sybil.rs: verify_pow, solve_pow_bounded, NonceRegistry
--   Mesh.Diversity        src/mesh/sybil.rs: validate_circuit_diversity
--   Mesh.Admission        src/mesh/admission.rs
--   Mesh.Consensus        src/mesh/consensus.rs
--   Mesh.Descriptor       src/mesh/consensus.rs: RelayDescriptor::verify_identity
--   Mesh.Authority        src/mesh/authority.rs: relay_conflicts, register_relay
--   Mesh.Authority.Votes  src/mesh/authority.rs: frozen_view, and what with_persistent_key reads
--   Morphing.Padding      src/morphing/padding.rs
--   Onion.Cell            src/onion/cell.rs
--   Onion.Circuit         src/onion/circuit.rs: OnionCircuit, RelayCircuitHop
--   Onion.Backward        src/onion/circuit.rs: OnionCircuit::unwrap_backward
--   Onion.Payload         src/onion/circuit.rs: the EXTEND and RELAY payloads
--   Onion.Replay          src/onion/circuit.rs: ReplayWindow
--   Onion.Multipath       src/onion/multipath.rs
--   Onion.Flow            src/onion/flow.rs
--   Onion.Pacing          src/onion/pacing.rs
--   Onion.Padding         src/onion/padding.rs
--   Onion.Session.Profile     src/onion/session.rs: Profile
--   Onion.Session.Outgoing    src/onion/session.rs: Outgoing
--   Onion.Session.Secured     src/onion/session.rs: Crypto
--   Onion.Session.State       src/onion/session.rs: the local state of run
--   Onion.Session.Frame       src/onion/session.rs: the cells and events that run takes
--   Onion.Session.Run         src/onion/session.rs: the clock's arm of run, and one round of its loop
-- A module below one of these holds proofs about it; the modules Examples hold tests,
-- with the sample algorithms of Crypto.Samples and Onion.Samples.
--
-- State and operations. A struct is a record and an enum is a data type, under the name of the
-- source; a method is a function of the same name that takes the state and returns the new one.
-- An error is a value of a Result; texts of messages are left out. A buffer, a key or an ASCII
-- text is the list of its bytes, a machine integer is a natural number with its wrap-around or
-- its range written out, an instant or a duration is its nanoseconds. A hash map is an
-- association list, or a function where it is only read.
--
-- Parameters. The ciphers, hashes and signatures of other crates are records of functions
-- (Cipher, Suite) with their documented behaviour as a record of laws (IsCipher, IsSuite); name
-- lookup, connecting, parsing of addresses and the inner stream of a socket are functions. The
-- clock and the samples of the padding engine are arguments of each of its calls.
--
-- Bounds. Every loop is over a list or over the bounded number of rounds that the source has, for
-- instance the ten million rounds of solve_pow_bounded_from. Only drain, which calls try_next
-- until it fails, runs on fuel, and one more than the queued reads and the remainder is enough.
--
-- A session. The loop of run is a function of a round: the time at which the loop comes round,
-- the time of the event and the event. What tasks, channels, sockets and the cipher do comes with
-- the event: whether a write succeeds, which replies are closed, what a cell decrypts to. The
-- receive budget is in floating point in the source, and its outcome is an event too.
--
-- Files. load_and_commit is a function of the contents of its files and of its lock file, and of
-- how the write ends, done, lost, or done with an error after it. The file of an authority's
-- votes is a field of its state, which a write changes and a start of the program reads back.
--
-- Interleavings. The calls on the session cache are a sequence of steps: a caller reserves its
-- slot, and later it finishes or is cancelled.
--
-- Not modelled: tasks, sockets and the formats of files, since they are input and output; locks
-- in memory, since each modelled operation holds its lock throughout; the handshakes of a
-- circuit; the server of the gateway, the timing of morphed traffic, the configuration and the
-- start-up.
pub mod Base
pub mod Core
pub mod Crypto
pub mod Gateway
pub mod Kernel
pub mod Mesh
pub mod Morphing
pub mod Onion
