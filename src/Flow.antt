-- ===== src/Flow.antt =====
-- crates/hamsy-core/src/flow.rs: the record of a captured flow, and its life cycle.
-- A `String` whose allocation is accounted for is a `Buffer`. Floating-point timings are values of
-- a type parameter.
pub mod Infer
pub mod Lifecycle
pub mod Laws
pub mod Tests
use hamsy_proxy.Shared.{ℕ, Bool, Option, List, ◌==◌}
use hamsy_proxy.Shared.Text.{Text}
use hamsy_proxy.Shared.Int.{ℤ}

abbrev pub FlowId : Type 0
FlowId = ℕ

pub data FlowState : Type 0 where
  pending requesting responding complete error : FlowState

pub data ResourceType : Type 0 where
  document stylesheet script image font xhr json media web_socket other : ResourceType

discriminant : ResourceType → ℕ
discriminant document = 0
discriminant stylesheet = 1
discriminant script = 2
discriminant image = 3
discriminant font = 4
discriminant xhr = 5
discriminant json = 6
discriminant media = 7
discriminant web_socket = 8
discriminant other = 9

-- The derived `PartialEq`.
unfoldable pub resource_eq : ResourceType → ResourceType → Bool
unfolding discriminant
resource_eq a b = discriminant a == discriminant b

pub record HeaderPair : Type 0 where
  pub name : Text
  pub value : Text

pub data BodyKind : Type 0 where
  text_body base64_body no_body truncated_body : BodyKind

-- A `String` with the size of its allocation.
pub record Buffer : Type 0 where
  pub bytes : Text
  pub capacity : ℕ

pub record BodyPayload : Type 0 where
  pub kind : BodyKind
  pub payload : Buffer
  pub size : ℕ
  pub truncated : Bool
  pub encoding : Option Text

pub record RequestRecord : Type 0 where
  pub method : Text
  pub url : Text
  pub http_version : Text
  pub headers : List HeaderPair
  pub body : BodyPayload
  pub query : List HeaderPair

pub record ResponseRecord : Type 0 where
  pub status : ℕ
  pub status_text : Text
  pub http_version : Text
  pub headers : List HeaderPair
  pub body : BodyPayload

pub record Timings (F64 : Type 0) : Type 0 where
  pub blocked : F64
  pub dns : F64
  pub connect : F64
  pub ssl : F64
  pub send : F64
  pub wait : F64
  pub receive : F64

pub data WsDirection : Type 0 where
  send recv : WsDirection

pub record WsMessage : Type 0 where
  pub direction : WsDirection
  pub opcode : Text
  pub timestamp : ℤ
  pub payload : Buffer
  pub size : ℕ

pub record TlsInfo : Type 0 where
  pub version : Option Text
  pub cipher_suite : Option Text
  pub alpn : Option Text
  pub sni : Option Text
  pub peer_cert_subject : Option Text
  pub peer_cert_issuer : Option Text
  pub not_before : Option ℤ
  pub not_after : Option ℤ

pub record FlowSummary : Type 0 where
  pub id : FlowId
  pub seq : ℕ
  pub state : FlowState
  pub started_at : ℤ
  pub duration_ms : Option ℕ
  pub method : Text
  pub scheme : Text
  pub host : Text
  pub port : ℕ
  pub path : Text
  pub url : Text
  pub http_version : Text
  pub status : Option ℕ
  pub status_text : Option Text
  pub mime_type : Option Text
  pub resource_type : ResourceType
  pub request_size : ℕ
  pub response_size : ℕ
  pub client_addr : Text
  pub app : Option Text
  pub matched_rules : List Text
  pub modified : Bool
  pub error : Option Text
  pub websocket : Bool
  pub from_cache : Bool

pub record Flow (F64 : Type 0) : Type 0 where
  pub summary : FlowSummary
  pub request : Option RequestRecord
  pub response : Option ResponseRecord
  pub original_request : Option RequestRecord
  pub original_response : Option ResponseRecord
  pub timings : Timings F64
  pub ws_messages : List WsMessage
  pub server_addr : Option Text
  pub tls : Option TlsInfo
