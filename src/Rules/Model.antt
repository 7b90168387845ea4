-- ===== src/Rules/Model.antt =====
-- The data model of rules.
use hamsy_proxy.Shared.{ℕ, Bool, Option, List}
use hamsy_proxy.Shared.Text.{Text}
use hamsy_proxy.Shared.Int.{ℤ}
use hamsy_proxy.Flow.{ResourceType, HeaderPair}
use hamsy_proxy.JsonPatch.Ops.{JsonOp}

pub data UrlOp : Type 0 where
  any contains equals starts_with ends_with regex wildcard : UrlOp

pub data HeaderOp : Type 0 where
  exists absent equals contains regex : HeaderOp

pub record HeaderCond : Type 0 where
  pub name : Text
  pub op : HeaderOp
  pub value : Option Text

pub data BodyCondOp : Type 0 where
  contains regex equals : BodyCondOp

pub record BodyCond : Type 0 where
  pub op : BodyCondOp
  pub value : Text

pub record Matcher : Type 0 where
  pub url_op : UrlOp
  pub url_value : Text
  pub methods : List Text
  pub host_ports : List Text
  pub status_codes : List Text
  pub resource_types : List ResourceType
  pub request_headers : List HeaderCond
  pub response_headers : List HeaderCond
  pub request_body : Option BodyCond
  pub response_body : Option BodyCond

pub data PayloadEncoding : Type 0 where
  plain base64 : PayloadEncoding

pub data Action : Type 0 where
  redirect : (to : Text) → Action
  rewrite_url : (find replace : Text) (regex : Bool) → Action
  set_query_param : (name value : Text) → Action
  remove_query_param : (name : Text) → Action
  set_request_header : (name value : Text) → Action
  remove_request_header : (name : Text) → Action
  set_response_header : (name value : Text) → Action
  remove_response_header : (name : Text) → Action
  set_request_body :
      (body : Text) (encoding : PayloadEncoding) (content_type : Option Text) → Action
  set_response_body :
      (body : Text) (encoding : PayloadEncoding) (content_type : Option Text) → Action
  replace_in_request_body : (find replace : Text) (regex : Bool) → Action
  replace_in_response_body : (find replace : Text) (regex : Bool) → Action
  json_patch_request : (ops : List JsonOp) → Action
  json_patch_response : (ops : List JsonOp) → Action
  mock_response :
      (status : ℕ) (headers : List HeaderPair) (body : Text) (encoding : PayloadEncoding)
      (delay_ms : ℕ)
      → Action
  set_status : (status : ℕ) → Action
  block : (reason : Text) → Action
  delay : (ms : ℕ) → Action
  throttle : (bytes_per_sec : ℕ) → Action
  set_method : (method : Text) → Action

pub record Rule : Type 0 where
  pub id : Text
  pub name : Text
  pub enabled : Bool
  pub priority : ℤ
  pub group : Option Text
  pub notes : Option Text
  pub matcher : Matcher
  pub actions : List Action

pub record RuleError : Type 0 where
  pub rule_id : Text
  pub message : Text
