-- ===== src/Proxy/Event.antt =====
-- crates/hamsy-core/src/event.rs: the messages to and from the clients of the interface.
use hamsy_proxy.Shared.{Bool, Option, List}
use hamsy_proxy.Shared.Text.{Text}
use hamsy_proxy.Flow.{FlowId, FlowSummary, Flow, WsMessage}
use hamsy_proxy.JsonPatch.Value.{Value}
use hamsy_proxy.Settings.{Settings}

pub data ServerEvent (F64 : Type 0) : Type 0 where
  flow_event : (flow : FlowSummary) → ServerEvent F64
  flows_event : (flows : List FlowSummary) → ServerEvent F64
  flow_detail : (flow : Flow F64) → ServerEvent F64
  ws_message : (flow_id : FlowId) (message : WsMessage) → ServerEvent F64
  cleared : ServerEvent F64
  state_event : (state : Value) → ServerEvent F64
  rules_changed : ServerEvent F64
  settings_changed : (settings : Settings) → ServerEvent F64
  notice : (level message : Text) → ServerEvent F64

pub data ClientCommand : Type 0 where
  pause : (paused : Bool) → ClientCommand
  clear : ClientCommand
  subscribe : (filter : Option Text) → ClientCommand
  ping : ClientCommand
