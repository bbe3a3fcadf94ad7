-- ===== src/Lib.antt =====
-- A model of exchange-api-probe, a C++ program that captures the public market data of exchanges
-- and analyses the captures offline.
--
-- Parts of the program and the files that model them:
--   * Base: numbers, lists, texts as lists of bytes, `std::to_string` and `std::from_chars`, the
--     results of fallible code; Json: `boost::json::value`; OrderedMap: `std::map` under a
--     comparison that a client supplies, as a sorted association list.
--   * Analysis.Order: `DecimalLess` of src/Research/Analysis/ResearchAnalysisInternal.hpp and
--     `native_id_less` of src/Research/Analysis/Book.cpp. Analysis.Book: the rest of Book.cpp, the
--     sides of an order book under `DecimalLess`. Analysis.Depth: the branch of
--     `analyze_research_bundle` (src/Research/ResearchAnalysis.cpp) that a message of a depth
--     channel takes, with the book, its flags and the counters as the state, and the rows that it
--     adds to state_transitions.jsonl.
--   * Analysis.Scalars and Analysis.Event: src/Research/Analysis/Normalization.cpp, from the paths
--     into a document to `normalize_event`.
--   * Network.Gzip, Network.WsDeadline, Network.WsApplication, Network.Redaction:
--     src/Network/Gzip.cpp, WsDeadline.hpp, WsApplication.hpp and Redaction.cpp.
--   * Capture.Reconnect: src/Research/HtxReconnectPolicy.hpp; Capture.Attempts: the loop over the
--     attempts in `capture_channel` of src/Research/ResearchCapture.cpp; Capture.Writer:
--     `ResearchBundleWriter` of the same file, which writes the frames and rows of a bundle.
--   * Bundle.Reader: the index and the payloads of a bundle as src/Research/Analysis/Input.cpp
--     reads them; Bundle.Manifest: the channels of a manifest, as `write_manifest` of
--     ResearchCapture.cpp prints them and as Input.cpp reads them; Bundle.Receipts and
--     Bundle.Pairing: the receipt differences and percentiles of
--     src/Research/Analysis/Relations.cpp, and the two loops of its
--     `analyze_paired_research_receipts`, over the frames and over the identities.
--     Bundle.Lifecycle: `read_lifecycle` and `lifecycle_json` of the same file, the rows of
--     sessions.jsonl.
--   * Contracts: src/Contracts.cpp, what a probe asks of an answer: Scalars and Envelope, Rest
--     (`validate_rest_contract`), Wire (protobuf and SBE), Search, and Ws (`validate_ws_ack`,
--     `validate_ws_data`). Network.WsClient: `observe_ws` of src/Network/WsClient.cpp, from the
--     handshake on. Network.HttpSession: `HttpSession` of src/Network/HttpClient.cpp, what it
--     keeps of a connection from one request to the next.
--   * ResearchProfile: include/exchange_probe/ResearchProfile.hpp and the conversions of names in
--     src/Research/ResearchProfile.cpp.
--   * Model: include/exchange_probe/Model.hpp and src/Model.cpp, the products and the capability
--     table that `finalize_capabilities` computes.
--   * Tests: runs of the definitions, and the theorems at concrete inputs.
--
-- How the parts interact: the capture reads frames from sockets under Network.WsDeadline, answers
-- heartbeats by Network.WsApplication (which decodes with Network.Gzip), and retries as
-- Capture.Reconnect allows; Capture.Writer stores the frames and their index, which Bundle.Reader
-- reads back. The analysis turns a frame's document into an event (Analysis.Event,
-- by the paths of the channel's mapping), and moves the book of its channel (Analysis.Depth, over
-- Analysis.Book). A probe of a WebSocket judges each message by Contracts.Ws, and an answer to a
-- request by Contracts.Rest. Reports show documents only through Network.Redaction.
--
-- Conventions: a byte is a number, a text a list of bytes; 32- and 64-bit arithmetic keeps its
-- wrap-around; times of the reconnect policy are whole milliseconds. An object's keys are distinct.
-- Boost (parser, serializer, inflater, checksum, sockets) is a parameter or an oracle: a schedule
-- of handlers in Network.WsDeadline, a list of attempts in Capture.Attempts, the messages read
-- before the deadline in Network.WsClient, what each call reports in Network.HttpSession; whether a
-- file stream is good after a write is an argument of the writer's calls.
--
-- Bounds and fuel: the walk of a path has one round for each of its bytes and one more, and each
-- round takes at least one byte off. The search for a terminating zero has as many rounds as bytes
-- before the trailer. A varint has ten bytes at most, as its shift stays below 64, and each round
-- over the fields of a protobuf message takes a byte at least. The other loops are structural.
--
-- Not modelled: what the sockets, TLS and HTTP of Boost.Beast and OpenSSL do, the signing of
-- requests, the command line, the process sandbox, the viewer, the tables of the profiles, and the
-- files that the program reads and writes, which are I/O; and the rest of a manifest, placement, and what the loop of the analysis does outside the depth
-- branch.
pub mod Base
pub mod Json
pub mod ResearchProfile
pub mod OrderedMap
pub mod Analysis
pub mod Network
pub mod Capture
pub mod Model
pub mod Bundle
pub mod Contracts
mod Tests
