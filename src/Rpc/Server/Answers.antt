-- ===== src/Rpc/Server/Answers.antt =====
-- What src/rpc/rpc_server.cpp answers to a request.
use rpc_framework.Base.{
  ℕ, ◌≡◌, refl, ◌⊎◌, inl, inr, true, false, List, [], ◌++◌, Option, none, some, Byte, Bool-cases,
  Option-cases,
}
use rpc_framework.Base.Map.{find, bytes_eq}
use rpc_framework.Base.Text.{codes}
use rpc_framework.Rpc.Messages.{RpcRequest, RpcResponse, Serializer}
use rpc_framework.Rpc.Controller
use rpc_framework.Rpc.Controller.{Controller}
use rpc_framework.Rpc.Server.{
  Service, Services, answer, failure, find_service, on_frame, dispatch_request, serve,
}

module _ {M : Type 0} where
  -- The controller and the response after the method has run on a fresh controller and response.
  abbrev pub outcome : Service M → ℕ → M → Controller × M
  outcome service method request =
      service.call_method method Controller.init request (service.response_prototype method)

  -- The responses to a request, by what is registered and what the service does.
  pub data Answers (services : Services M) (req : RpcRequest) : RpcResponse → Type 0 where
    no_service :
        find req.service_name services ≡ none
        → Answers services req
            (failure req.request_id (codes "service not found: " ++ req.service_name))
    no_method :
        (service : Service M)
        → find req.service_name services ≡ some service
        → service.find_method req.method_name ≡ none
        → Answers services req
            (failure req.request_id (codes "method not found: " ++ req.method_name))
    bad_args :
        (service : Service M) (method : ℕ)
        → find req.service_name services ≡ some service
        → service.find_method req.method_name ≡ some method
        → service.parse_request method req.args_data ≡ none
        → Answers services req (failure req.request_id (codes "failed to parse request args"))
    failed :
        (service : Service M) (method : ℕ) (request : M)
        → find req.service_name services ≡ some service
        → service.find_method req.method_name ≡ some method
        → service.parse_request method req.args_data ≡ some request
        → (outcome service method request).0.is_failed ≡ true
        → Answers services req (failure req.request_id (outcome service method request).0.err_text)
    succeeded :
        (service : Service M) (method : ℕ) (request : M)
        → find req.service_name services ≡ some service
        → service.find_method req.method_name ≡ some method
        → service.parse_request method req.args_data ≡ some request
        → (outcome service method request).0.is_failed ≡ false
        → Answers services req (record {
          request_id = req.request_id;
          success = true;
          result_data = (service.serialize_response (outcome service method request).1).1;
          error_msg = [];
        })

  -- A response is given, it carries the id, and it is the one called for.
  pub record Served (services : Services M) (req : RpcRequest) (o : Option RpcResponse)
      : Type 0 where
    pub response : RpcResponse
    pub given : o ≡ some response
    pub same_id : response.request_id ≡ req.request_id
    pub called_for : Answers services req response

  dispatch-Served :
      (services : Services M) (req : RpcRequest) (service : Service M) (method : ℕ) (request : M)
      → find req.service_name services ≡ some service
      → service.find_method req.method_name ≡ some method
      → service.parse_request method req.args_data ≡ some request
      → Served services req (
          some (
            dispatch_request (record {
              request_id = req.request_id;
              service = service;
              method = method;
              request = request;
            })))
  unfolding dispatch_request
  dispatch-Served services req service method request e f g =
      elim (Bool-cases (outcome service method request).0.is_failed) [
        | inl bad ↦ record {
          response = _;
          given = rw bad;
          same_id = refl;
          called_for = failed service method request e f g bad;
        }
        | inr good ↦ record {
          response = _;
          given = rw good;
          same_id = refl;
          called_for = succeeded service method request e f g good;
        }
      ]

  find_service-Served :
      (services : Services M) (req : RpcRequest)
      → Served services req (answer (find_service req services))
  unfolding answer find_service
  find_service-Served services req = elim (Option-cases (find req.service_name services)) [
    | inl e ↦
        rw (e, find_service)
          (record { response = _; given = refl; same_id = refl; called_for = no_service e })
    | inr (service, e) ↦
        rw (e, find_service)
          (elim (Option-cases (service.find_method req.method_name)) [
            | inl f ↦
                rw (f, find_service)
                  (record {
                    response = _;
                    given = refl;
                    same_id = refl;
                    called_for = no_method service e f;
                  })
            | inr (method, f) ↦
                rw (f, find_service)
                  (elim (Option-cases (service.parse_request method req.args_data)) [
                    | inl g ↦
                        rw (g, find_service)
                          (record {
                            response = _;
                            given = refl;
                            same_id = refl;
                            called_for = bad_args service method e f g;
                          })
                    | inr (request, g) ↦
                        rw (g, find_service)
                          (dispatch-Served services req service method request e f g)
                  ])
          ])
  ]

  -- A frame that parses gets exactly one response. It carries the id of the request, and it is the
  -- one that the registered services call for: that the service or the method is not found, that the
  -- arguments do not parse, the text of the controller that the method has set failed, or the result
  -- that the method has left. A frame that does not parse gets none.
  pub serve_answers :
      (p : Serializer RpcRequest) (services : Services M) (frame : List Byte)
      → ((p.parse frame ≡ none) × (serve p services frame ≡ none))
        ⊎ ((req : RpcRequest) × (p.parse frame ≡ some req)
            × Served services req (serve p services frame))
  unfolding serve on_frame answer
  serve_answers p services frame = elim (Option-cases (p.parse frame)) [
    | inl e ↦ inl (e, rw (e, on_frame))
    | inr (req, e) ↦ inr (req, e, rw (e, on_frame) (find_service-Served services req))
  ]
