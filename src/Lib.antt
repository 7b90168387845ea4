-- ===== src/Lib.antt =====
-- A verification library of hamsy-proxy, an intercepting HTTP proxy that records flows, rewrites
-- them by rules and shows them in a web interface.
--
-- The program's core is two crates. crates/hamsy-core keeps the rules (rule.rs), their persisted
-- store (rules_store.rs), the model of a flow (flow.rs), the flow store (store.rs), the settings
-- (settings.rs) and the codings of bodies (body.rs). crates/hamsy-proxy runs the connections: for each
-- exchange (http.rs) it asks the current rule set whether it must buffer the body, collects it or
-- streams it through the body wrappers (tee.rs), applies the request rules, sends the request, applies
-- the response rules, and records the flow.
--
-- Which file models which part:
--   Shared        texts as bytes, numbers and their decimal form, lists, words and UTF-8
--   Flow          crates/hamsy-core/src/flow.rs: Flow and its records; Flow/Infer is
--                 ResourceType::infer, Flow/Lifecycle is new_request, mark_complete and mark_error
--   JsonPatch     crates/hamsy-core/src/rule.rs, parse_path to apply_json_ops: JsonPatch/Value is
--                 serde_json's Value, JsonPatch/Path the paths, JsonPatch/Ops the operations
--   Rules         crates/hamsy-core/src/rule.rs, the rest: Rules/Model the data, Rules/Compile
--                 compile_rule and RuleSet::new, Rules/Matching matches_request and
--                 matches_response, Rules/Headers and Rules/Captures the helpers, Rules/Bodies the
--                 body edits, Rules/Request apply_request and needs_request_body over the
--                 loop body in Rules/RequestActions, Rules/Response apply_response and
--                 needs_response_body
--   Store         crates/hamsy-core/src/store.rs: FlowStore; Store/Query is list, Store/Spec the
--                 queue of flows that it refines
--   RulesStore    crates/hamsy-core/src/rules_store.rs: RulesStore
--   Body          crates/hamsy-core/src/body.rs: decode_body and encode_body; Body/Payload is to_payload
--                 and from_payload
--   Settings      crates/hamsy-core/src/settings.rs: Settings, host_captured and host_passthrough over
--                 the cached globs; Settings/Presets is passthrough_presets.rs
--   BodyStream    crates/hamsy-proxy/src/tee.rs: TeeBody, collect_capped and collect_for_rules;
--                 BodyStream/Throttle is TokenBucket and Throttled, BodyStream/Finalize is
--                 FinalizeBody, BodyStream/CaptureBody is CaptureBody
--   Proxy         crates/hamsy-proxy: Proxy/Error is error.rs, Proxy/Config is config.rs, and the rest is
--                 http.rs: Proxy/Headers and Proxy/Target the helpers, Proxy/Outbound
--                 build_outbound_request and adapt_request_to_sender, Proxy/Dispatch dispatch,
--                 Proxy/Payload decode_for_rules and capture_payload, Proxy/Request, Proxy/Response
--                 and Proxy/Handle handle_captured_request in its phases, Proxy/Streams what its
--                 wrapped bodies yield, Proxy/Entry
--                 handle_proxy_request, Proxy/Run its changes of the store and the events.
--                 Proxy/Event is crates/hamsy-core/src/event.rs
--   ClientHello   crates/hamsy-proxy/src/connect.rs: parse_client_hello and looks_like_plaintext_http
--   Pool          crates/hamsy-proxy/src/upstream.rs: Pool, and Connector::release over it
--   WebSocket     crates/hamsy-proxy/src/websocket.rs: record_message and the limits on what it keeps
--
-- How the models stand to the code. A String or Vec<u8> is the list of its bytes. Mutable variables
-- of a loop are the fields of a state record, and a loop is recursion over the list it walks, without
-- fuel, with two exceptions: Shared/Number prints a number n with the fuel n + 1, and n has at most
-- n + 1 digits; the two loops of parse_client_hello have as much fuel as there are bytes, and each
-- round takes a byte at least. An operation under a lock is one step on the state. Machine words keep
-- their wrap-around: the byte count of the store and the total of a TeeState are taken modulo 2^64;
-- the theorems on the store ask that its byte count stays in the word. A HashMap from ids to flows
-- is a function, an Arc is the value it holds. What a body or a file does is an argument: a body is
-- the list of its frames or answers, and a write of the rules file gives none or an error.
--
-- Regular expressions, globs, URLs, base64 and the JSON reader and writer are other packages': they
-- are the fields of Rules/Externals, a parameter of the rules. The arithmetic of f64 is a parameter
-- of BodyStream/Throttle, and its values are a type parameter of the flow.
-- The codecs of bodies, globset, the http package, URIs, obtaining a connection and sending on it are
-- parameters too: Body.Codecs, Settings.Globset, Proxy/Net and the field upstream of an exchange.
-- What connections, semaphores and the clock answer to the pool is Pool.Network, one for each step.
--
-- handle_captured_request never reads the flow store. Its model is a function from the exchange, with the
-- readings of the clock, to the flow that it inserts, the changes that it makes to it in order, the
-- callbacks that it leaves in the body wrappers, and the response; Proxy/Run puts these changes between
-- the steps of other tasks. The one task that the handler spawns for its flow, which waits for the
-- application of the client (appid.rs, AppResolution::attach), is a change beside them. A handler whose future is dropped before it has answered, as where the
-- client goes away while the upstream is waited for, is outside of this model.
--
-- Not modelled: CONNECT tunnels, servers, replays, certificates, the handshake and the relaying of
-- WebSockets, the dialing and the handshakes of upstream connections, the HTTP API, the command line
-- and the user interface, which are I/O for the most part; har.rs of the core; the semaphores of
-- tee.rs, whose permits are arguments; the delays that rules ask for; loading and saving of settings;
-- panics; sharing by Arc and the detached copy that FlowStore::update makes of a shared flow.
pub mod Shared
pub mod Flow
pub mod JsonPatch
pub mod ClientHello
pub mod Pool
pub mod Proxy
pub mod WebSocket
pub mod Rules
pub mod Settings
pub mod Store
pub mod RulesStore
pub mod Body
pub mod BodyStream
