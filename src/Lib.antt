-- ===== src/Lib.antt =====
-- AntiNAT: a controller and agents that publish services behind NAT. This library models the
-- parts that decide without input and output: the protocol's domain model and addresses, the
-- probe frames and the agent's probe state machine, the STUN and NAT-PMP codecs, the registry of
-- bound ports, the budget of a forwarder, the enrollment transcript and its challenges, the
-- session handshake, the signed control envelope, and the webhooks' delivery queue and address
-- gate.
--
-- How the parts meet: an agent enrolls with a request for a challenge that the controller issued
-- and consumes once (enrollment, challenges), opens a session with signed messages (session),
-- and from then on the two exchange envelopes; the controller sends a desired snapshot (domain
-- model) and arms a probe (probe frames); the agent binds ports (registry), asks a STUN server
-- for its mapping (codec) and accepts one frame from the provider for each armed probe; the
-- controller joins the provider's frame with the agent's two answers before it lets the state
-- model publish an endpoint. Events on the way are queued for webhooks, whose addresses the gate
-- checks.
--
-- Which file models which code (an operation keeps its name in snake case):
--
-- Protocol/Domain, with Kinds, Axes, Fsm and Spec: internal/protocol/domain.go. A validation
-- returns the first error as a constructor; a map with fixed keys is a list.
--
-- Protocol/Endpoint and Endpoint/Literal: internal/protocol/endpoint.go, with ValidatePort and
-- validateIPv4Target of domain.go and ValidateProbeEndpoint of probe.go.
--
-- Protocol/Probe, Probe/Canonical: the five frames of internal/protocol/probe.go. Probe/Agent,
-- with Consumed, Bounds, Join and Honest: ProbeAgent and VerifyProbeJoin of the same file. An
-- instant is a number of nanoseconds; sha256, ed_sign and ed_verify are parameters.
--
-- Security/Framecrypto: internal/security/framecrypto/framecrypto.go.
--
-- Protocol/Fields: the length-prefixed field lists that enrollment.go, envelope.go and the
-- session handshake of challenge.go write and read. Protocol/Enrollment, with Codec, Opening,
-- Challenge, Request, ResultMessage and Total: internal/protocol/enrollment.go. A panic (an
-- index, a slice or a big-endian read past an end, a field too long to encode) is an outcome of
-- its own. Protocol/Envelope, with Header, Frame and RoundTrip: internal/protocol/envelope.go.
--
-- Security/Challenge, with Calls, Consumed, Bounds and Accepted: ChallengeManager of
-- internal/security/challenge.go. The clock's readings, the random bytes and the signer are
-- arguments. Security/Session, with Authentic: the session handshake of the same file, its three
-- messages and their parsers; the Ed25519 primitive is a parameter.
--
-- Hook/Queue, with Table, Claim, Finish, Retry, Definitions, Calls and the proofs in Rows, Keys,
-- Losses, Finals and Bounds: internal/hook/queue.go, the states and the row of hook.go and
-- store.go, deliver of dispatcher.go, and DeleteDefinition of crud.go, which deletes the rows of
-- its hook by the foreign key of migrations/0010_hooks.sql. Whether a definition exists is not
-- part of the state but an argument, so a call may find a hook defined or not at any time. A
-- transaction is one step that commits or changes nothing; MarkFailed reads and writes in two
-- steps.
--
-- Hook/IpCheck: addressBlocked and validateAddresses of internal/hook/ipcheck.go.
--
-- Forward/Budget: internal/forward/budget.go. Each method is one step, as the mutex makes it;
-- int and int64 wrap at 64 bits.
--
-- Traversal/PortRegistry: internal/traversal/portregistry.go. Acquire and AcquireUDP are one
-- operation with the protocol as an argument; Release is two steps, since it drops the mutex
-- while the socket closes. What the system answers is an argument.
--
-- Traversal/Stun, with Types, Wire, Attributes, Address, Errors and Integrity:
-- internal/traversal/stun/message.go. In ParseMessage a slice bound past the length is the
-- outcome `panic`; in the other parsers of this library a slice past the end, which their checks
-- exclude, is cut at the end; HMAC-SHA1 and CRC-32 are parameters.
--
-- Traversal/Natpmp: the codec of internal/traversal/natpmp/natpmp.go, with Protocol and
-- MapRequest of client.go.
--
-- Net: what the code uses of net/netip, net.SplitHostPort and strconv.Atoi, by their
-- documentation. Common: shared names, bytes, words, signed integers, maps with byte keys, and
-- bounded checks by computation.
--
-- Bounds and fuel: the loop over the attributes of a STUN message runs on fuel, the declared
-- length of the section, which is enough since each attribute takes at least four bytes; every
-- other loop is structural. Facts on bytes and words are checked by running through all their
-- values. The budget's theorem takes fewer than 2^47 - 1 calls, below which no counter wraps.
--
-- Not modelled: sockets, timers, the databases, the web pages and the sandbox (input and
-- output); PCP, the NAT-PMP client, strict JSON, MessageID and NodeIDString of challenge.go, the
-- hook definitions and the script runner, the agent's durable state and its reconciliation; the
-- hostname checks of ipcheck.go; random transaction identifiers.
pub mod Common
pub mod Net
pub mod Security
pub mod Protocol
pub mod Hook
pub mod Forward
pub mod Traversal
pub mod Scenarios
