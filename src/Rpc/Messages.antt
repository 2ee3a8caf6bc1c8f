-- ===== src/Rpc/Messages.antt =====
-- proto/rpc.proto: the two messages. The serializer is generated by protobuf and is a parameter.
use rpc_framework.Base.{ℕ, ◌≡◌, Bool, true, Option, some, List, Byte}

pub record RpcRequest : Type 0 where
  pub service_name : List Byte
  pub method_name : List Byte
  pub request_id : ℕ
  pub args_data : List Byte

pub record RpcResponse : Type 0 where
  pub request_id : ℕ
  pub success : Bool
  pub result_data : List Byte
  pub error_msg : List Byte

-- `SerializeToString`: its result, and what it leaves in the string. `ParseFromString`.
pub record Serializer {ℓ} (M : Type ℓ) : Type ℓ where
  pub serialize : M → Bool × List Byte
  pub parse : List Byte → Option M

-- A message that comes back from the serializer, as documented of protobuf for messages that are
-- not too large and whose strings are valid text.
abbrev pub RoundTrips {ℓ} : {M : Type ℓ} → Serializer M → M → Type ℓ
RoundTrips p m = ((p.serialize m).0 ≡ true) × (p.parse (p.serialize m).1 ≡ some m)
