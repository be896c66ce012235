-- ===== src/Lib.antt =====
-- SwissTokint Proof of Method: the reference core of POM-RX and the proof SDK.
--
-- The program lets an agent commit to what it is about to do, has a witness acknowledge it, issues a
-- single-use authorization for exactly that action, and later shows by hashes what happened. A source
-- signs an envelope around a receipt, a Witness acknowledges it, the trust lifecycle decides whether both
-- identities may take part, and the evidence binding ties its answer to the documents; the gate consumes
-- an authorization once. The parts that are modelled, with the files of the repository that they stand for:
--
-- Data, Value, Value/Exact: JavaScript data, values at a trust boundary (proxies, prototypes, hidden
--   properties, accessors), and the exact-shape checks that every module of core/ repeats.
-- Dict: a JavaScript `Map` with texts for keys, in the order of insertion.
-- Platform: what the program takes from its platform as given, as a record: SHA-256, the calendar of
--   `Date`, Unicode normalisation and the collation of texts. An instant is a number of milliseconds
--   since the earliest instant of `Date`, so it is a natural number; the program compares instants, subtracts them and adds to them.
-- Canonical: `canonicalizePayload` and its parts (sdk/typescript/swisstokint-proof.mjs).
-- PlainData: `captureReferencePlainData` (core/reference-data/plain-data-snapshot.mjs).
-- Authorization: the exact authorization binding (core/authorization/reference-exact-authorization.mjs).
-- Gate: the single-use gate (core/gate/reference-single-use-gate.mjs). Gate/Defs has its state and the
--   parts of `consume`; Gate/Steps cuts `consume` at every point where control leaves it, so that a
--   schedule is any list of events and calls interleave in every way that the source allows;
--   Gate/Moves is the abstract machine that the steps refine.
-- Merkle: batches of receipt commitments and inclusion proofs (sdk/typescript/swisstokint-proof.mjs).
--   The tree's `while` loop has fuel for 14 rounds, and 2 ^ 14 is more than the 10,000 receipts that a
--   batch may have; the result tells running out of rounds apart from an error.
-- Receipt: wire receipts and their commitments, and anchor records (sdk/typescript/swisstokint-proof.mjs).
--   Fresh UUIDs and the present time are arguments.
-- PomRx: the receipts of a run and the chain of its preflight, execution and reconciliation
--   (sdk/typescript/pom-rx.mjs).
-- ClaimStore: the durable claim store (core/gate/reference-durable-claim-store.mjs). Records has the
--   persisted records; Io has programs that wait for file operations; Durable and Programs translate
--   the store's functions into such programs, a file operation for each `await`, but for the syncing of a
--   directory and the checks of the root, each of which is one operation; Files is the file system, in
--   which names that are linked share an inode; World interleaves the calls of any number of stores over
--   one file system, in which every operation may fail before or after it took effect. A call is given the number that makes its temporary
--   names unique, for process.pid and the UUID; writes go by that name, for the source's handle.
--   JSON.parse is a parameter.
-- Witness: envelopes and acknowledgements (sdk/typescript/pom-rx-witness.mjs). Crypto is the record of what
--   comes from node:crypto and Buffer: keys, signatures, base64 and the digest of a key's bytes.
-- Trust: the trust lifecycle (core/witness/reference-trust-lifecycle.mjs). Records has its state, a `Map`
--   of identities with a revision and a clock; Snapshots, Admin and Verify have its operations, each of
--   which samples the trusted clock first, then prepares the records, then commits them; Moves is the
--   abstract change of the records that an operation may make; Steps has the histories, any list of calls
--   with what the clock did in each.
-- Evidence: the evidence binding (core/witness/reference-evidence-binding.mjs), which calls the
--   verifications of Witness and compares what the trust lifecycle returned with their results.
-- Json: the strict JSON ingress (applications/blockchain-digital-assets/wallet-guard/json-ingress.mjs).
--   Lex and Scan translate the scanner, over lists of UTF-16 code units; Token has the rules of strings,
--   keys, integers and white space apart from the scanner, and Grammar the grammar of values over them;
--   Ingress is the bounded parse and the two transports. The scanner recurs on fuel, one unit for each value, member or element that it enters; it is given 2 * length + 1, and each of those
--   takes a character; running out is an outcome apart (Fuel). JSON.parse and the text of code units
--   are the parameter JsonHost.
--
-- Of an error only its code is modelled, not its message. Texts are well-formed Unicode and
-- are ordered by code points, where the source orders them by code units; a lone surrogate has no
-- counterpart outside Json. The hardening of the source against patched built-ins (it keeps private
-- copies of the functions it calls) has no counterpart either: built-ins are what they are. A key that is no
-- key object of node:crypto but looks like one, and answers differently when asked again, is not represented.
--
-- Not modelled: the operation journal, the execution evidence, the observation reconciliation, the profile
-- rules with the profiled verifier, the Filecoin bundle and the wallet's policy, which rest on the parts
-- above; signing and sending of wire receipts (node:crypto and fetch); the transports, servers, scripts,
-- child processes and module loading around the core, which are input and output; and the parts in other
-- languages.
pub mod Json
pub mod Evidence
pub mod Trust
pub mod Witness
pub mod Dict
pub mod Prelude
pub mod Data
pub mod Platform
pub mod Canonical
pub mod Value
pub mod PlainData
pub mod Authorization
pub mod Gate
pub mod Merkle
pub mod Receipt
pub mod PomRx
pub mod ClaimStore
mod Samples
