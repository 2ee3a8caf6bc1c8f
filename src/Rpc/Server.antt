-- ===== src/Rpc/Server.antt =====
-- include/rpc/rpc_server.h and src/rpc/rpc_server.cpp: registration and dispatch. A registered
-- service and the message types are the application's and are parameters. The lines on the console
-- are left out.
pub mod Answers
pub mod Running
use rpc_framework.Base.{
  ℕ, ◌≡◌, Bool, true, false, List, [], ◌∷◌, ◌++◌, Option, none, some, Byte, if◌then◌else◌,
}
use rpc_framework.Base.Map.{find, put, bytes_eq}
use rpc_framework.Base.Text.{codes}
use rpc_framework.Net.Buffer.{Buffer}
use rpc_framework.Codec.{send}
use rpc_framework.Rpc.Messages.{RpcRequest, RpcResponse, Serializer}
use rpc_framework.Rpc.Controller
use rpc_framework.Rpc.Controller.{Controller}

-- A `google::protobuf::Service` over messages `M`; a method is the number of its descriptor.
-- `call_method` returns the controller and the response as they are when the service runs the
-- closure that it is given.
pub record Service (M : Type 0) : Type 0 where
  pub full_name : List Byte
  pub find_method : List Byte → Option ℕ
  pub parse_request : ℕ → List Byte → Option M
  pub response_prototype : ℕ → M
  pub call_method : ℕ → Controller → M → M → Controller × M
  pub serialize_response : M → Bool × List Byte

-- The task that `on_frame` hands to the worker pool.
pub record Job (M : Type 0) : Type 0 where
  pub request_id : ℕ
  pub service : Service M
  pub method : ℕ
  pub request : M

-- What `on_frame` does with a frame.
pub data FrameResult (M : Type 0) : Type 0 where
  dropped : FrameResult M
  reply : RpcResponse → FrameResult M
  submit : Job M → FrameResult M

abbrev pub Services : Type 0 → Type 0
Services M = List (List Byte × Service M)

-- A response with `success` false. The fields that are not set are empty.
abbrev pub failure : ℕ → List Byte → RpcResponse
failure id msg = record { request_id = id; success = false; result_data = []; error_msg = msg }

module _ {M : Type 0} where
  unfoldable pub register_service : Service M → Services M → Services M
  register_service service services = put service.full_name service services

  find_service : RpcRequest → Services M → FrameResult M
  find_service req services = elim (find req.service_name services) [
    | none ↦ reply (failure req.request_id (codes "service not found: " ++ req.service_name))
    | some service ↦ elim (service.find_method req.method_name) [
      | none ↦ reply (failure req.request_id (codes "method not found: " ++ req.method_name))
      | some method ↦ elim (service.parse_request method req.args_data) [
        | none ↦ reply (failure req.request_id (codes "failed to parse request args"))
        | some request ↦ submit (record {
          request_id = req.request_id;
          service = service;
          method = method;
          request = request;
        })
      ]
    ]
  ]

  unfoldable pub on_frame : Serializer RpcRequest → Services M → List Byte → FrameResult M
  unfolding find_service
  on_frame p services frame = elim (p.parse frame) [
    | none ↦ dropped
    | some req ↦ find_service req services
  ]

  unfoldable pub dispatch_request : Job M → RpcResponse
  dispatch_request job =
      let service : Service M = job.service in
      let (controller, response) =
        service.call_method job.method Controller.init job.request
          (service.response_prototype job.method) in
      if controller.is_failed then failure job.request_id controller.err_text else record {
        request_id = job.request_id;
        success = true;
        result_data = (service.serialize_response response).1;
        error_msg = [];
      }

  -- The response, from `on_frame` itself or from the worker that runs its task.
  unfoldable pub answer : FrameResult M → Option RpcResponse
  answer dropped = none
  answer (reply resp) = some resp
  answer (submit job) = some (dispatch_request job)

  unfoldable pub serve : Serializer RpcRequest → Services M → List Byte → Option RpcResponse
  unfolding answer on_frame dispatch_request
  serve p services frame = answer (on_frame p services frame)
