-- ===== src/Proto/Rpc.antt =====
-- crates/agentmesh-proto/src/rpc.rs: the JSON-RPC profile.
use agentmesh_private.Common.{
  Text, bytes, not, ◌&&◌, Option, List, [], ◌∷◌, length, all, is_empty, ltb, leb, if◌then◌else◌,
}
use agentmesh_private.Common.Int.{ℤ}
use agentmesh_private.Common.Json.{Value}
use agentmesh_private.Common.Results.{Result, ok, err}
use agentmesh_private.Proto.Compact.{protocol_version}
use agentmesh_private.Proto.JsonStrict.{ProtoError, invalid_id}

-- `JsonRpcId::new`; an identifier is its text.
unfoldable pub json_rpc_id : Text → Result ProtoError Text
json_rpc_id value =
    if is_empty value
    then err (invalid_id (bytes "empty id"))
    else if ltb 128 (length value)
    then err (invalid_id (bytes "id longer than 128 bytes"))
    else if not (all (λ b. leb 33 b && leb b 126) value)
    then err (invalid_id (bytes "id must be non-empty visible ASCII (0x21-0x7E)"))
    else ok value

-- The field `jsonrpc` has one value.
pub record JsonRpcRequest (Params : Type 0) : Type 0 where
  pub method : Text
  pub params : Params
  pub id : Text

pub record JsonRpcError : Type 0 where
  pub code : ℤ
  pub message : Text
  pub data_slot : Option Value

pub record JsonRpcResponse (Answer : Type 0) : Type 0 where
  pub result : Option Answer
  pub error : Option JsonRpcError
  pub id : Text

pub record InitializeParams : Type 0 where
  pub protocol_versions : List Text
  pub host_version : Text
  pub capabilities : List Text

-- `InitializeParams::phase0`.
abbrev pub phase0 : Text → InitializeParams
phase0 version = record {
  protocol_versions = protocol_version ∷ [];
  host_version = version;
  capabilities = bytes "compact_output" ∷ bytes "sidecar_refs" ∷ [];
}

pub record InitializeResult : Type 0 where
  pub protocol_version : Text
  pub plugin_version : Text
  pub capabilities : List Text

pub record RunParams : Type 0 where
  pub run_id : Text
  pub input : Value

-- `RunResult` is its payload.
pub record RunResult : Type 0 where
  pub payload : Value

abbrev pub initialize_method : Text
initialize_method = bytes "initialize"

abbrev pub run_method : Text
run_method = bytes "agentmesh.run"
