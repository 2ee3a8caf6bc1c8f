-- ===== src/Rpc/EndToEnd.antt =====
-- A call from src/rpc/rpc_channel.cpp to src/rpc/rpc_server.cpp and back.
use rpc_framework.Base.{
  ◌≡◌, subst, ap, ◌∙◌, inl, inr, Bool, List, none, some, length, get_elem?, Byte,
}
use rpc_framework.Base.Map.{find, nat_eq}
use rpc_framework.Rpc.Messages.{RpcRequest, RpcResponse, Serializer, RoundTrips}
use rpc_framework.Rpc.Server.{Services, serve}
use rpc_framework.Rpc.Server.Answers.{Answers, serve_answers}
use rpc_framework.Rpc.Channel.{
  RpcChannel, begin_call, make_request, request_body, on_message, settle, new_call,
}
use rpc_framework.Rpc.Channel.Routing.{begin_call_lem, on_message_routes}

module _ {M : Type 0} (requests : Serializer RpcRequest) (responses : Serializer RpcResponse)
    (services : Services M) where
  -- If protobuf gives the request back on the server and the response back on the client, then a
  -- call gets the response that the services on the server call for, under the id of the call: the
  -- call is settled with it, and its id is free again.
  pub call_answered :
      (s : RpcChannel) (has_done : Bool) (service method args : List Byte)
      → RoundTrips requests (make_request service method args s.next_request_id)
      → ((r : RpcResponse)
          → serve requests services
              (request_body requests (make_request service method args s.next_request_id))
            ≡ some r
          → RoundTrips responses r)
      → (r : RpcResponse) × (serve requests services
            (request_body requests (make_request service method args s.next_request_id))
          ≡ some r)
        × Answers services (make_request service method args s.next_request_id) r
        × (get_elem?
              (on_message responses (responses.serialize r).1 (begin_call has_done s)).calls
              (length s.calls)
            ≡ some (settle r (new_call has_done)))
        × (find s.next_request_id
              (on_message responses (responses.serialize r).1 (begin_call has_done s)).pending_calls
            ≡ none)
  call_answered s has_done service method args there back =
      let req = make_request service method args s.next_request_id in
      elim (serve_answers requests services (request_body requests req)) [
        | inl (e, _) ↦ cc (there.1)
        | inr (req', e, v) ↦
            let same : req' ≡ req = cc (there.1) in
            let r = v.response in
            let id : r.request_id ≡ s.next_request_id = v.same_id ∙ ap (λ q. q.request_id) same in
            let (registered, made) = begin_call_lem s has_done in
            let (settled, _, free, _) =
              on_message_routes responses (responses.serialize r).1 r (begin_call has_done s)
                (length s.calls) (new_call has_done) (back r v.given).1 (rw id registered) made in
            let t = on_message responses (responses.serialize r).1 (begin_call has_done s) in
            (
              r,
              v.given,
              rw same at v.called_for,
              settled,
              subst (λ i. find i t.pending_calls ≡ none) id free,
            )
      ]
