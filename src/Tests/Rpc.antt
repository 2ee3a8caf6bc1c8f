-- ===== src/Tests/Rpc.antt =====
-- Runs of include/rpc and src/rpc.
use rpc_framework.Base.{
  ℕ, false, ◌+◌, ◌≤◌, ◌≢◌, ◌≡◌, refl, ◌⊎◌, subst, true, [], ◌∷◌, none, some, get_elem?, arith, ◌==◌,
  if◌then◌else◌,
}
use rpc_framework.Base.Map.{find, put, erase, nat_eq, bytes_eq}
use rpc_framework.Base.Update.{modify}
use rpc_framework.Base.Text.{codes}
use rpc_framework.Rpc.Messages.{RpcRequest, RpcResponse, Serializer, RoundTrips}
use rpc_framework.Rpc.Controller.{set_failed}
use rpc_framework.Rpc.Server.{Service, Services, serve}
use rpc_framework.Rpc.Server.Answers.{Answers, Served, serve_answers}
use rpc_framework.Rpc.Channel.{
  Call, RpcChannel, init, begin_call, take_id, register, write_failed, take_call, finish_call,
  run_done, fail, make_request, request_body, on_message, settle, new_call,
}
use rpc_framework.Base.Update.{modify}
use rpc_framework.Rpc.Channel.Calls.{
  outside, numbered, registered, takes_id, registers, fails_write, takes_call, finishes, here,
  later,
}
use rpc_framework.Rpc.Channel.Calls.Places.{moved}
use rpc_framework.Rpc.Channel.Once.{runs_once, unsent_unregistered}
use rpc_framework.Rpc.Channel.Routing.{next_request_id_fresh}
use rpc_framework.Rpc.EndToEnd.{call_answered}

-- A service over numbers: method 0 doubles, and fails at 0.
abbrev pub doubler : Service ℕ
doubler = record {
  full_name = codes "D";
  find_method = λ name. elim name [ [] ↦ none | c ∷ _ ↦ if c == b'd' then some 0 else none ];
  parse_request = λ m args. elim args [ [] ↦ none | n ∷ _ ↦ some n ];
  response_prototype = λ m. 0;
  call_method = λ m c n r. if n == 0 then (set_failed (codes "zero") c, r) else (c, n + n);
  serialize_response = λ r. (true, r ∷ []);
}

abbrev pub services : Services ℕ
services = (codes "D", doubler) ∷ []

-- Serializers for requests to that method and for its responses.
abbrev pub requests : Serializer RpcRequest
requests = record {
  serialize = λ r. (true, r.request_id ∷ r.args_data);
  parse =
      λ s. elim s [ [] ↦ none | id ∷ args ↦ some (make_request (codes "D") (codes "d") args id) ];
}

abbrev pub responses : Serializer RpcResponse
responses = record {
  serialize = λ r. (true, r.request_id ∷ r.result_data);
  parse = λ s. elim s [
    | [] ↦ none
    | id ∷ result ↦
        some (record { request_id = id; success = true; result_data = result; error_msg = [] })
  ];
}

abbrev ready : RpcChannel
ready = record {
  connected = true;
  reading = true;
  next_request_id = 1;
  calls = [];
  pending_calls = [];
}

doubled :
    serve requests services (1 ∷ 21 ∷ [])
    ≡ some (record { request_id = 1; success = true; result_data = 42 ∷ []; error_msg = [] })
unfolding serve find
doubled = refl

back :
    (r : RpcResponse)
    → serve requests services
        (request_body requests (make_request (codes "D") (codes "d") (21 ∷ []) 1))
      ≡ some r
    → RoundTrips responses r
back r e =
    let same : record { request_id = 1; success = true; result_data = 42 ∷ []; error_msg = [] }
        ≡ r =
      cc doubled in
    subst (RoundTrips responses) same (refl, refl)

serve_answers_example :
    ((requests.parse (1 ∷ 21 ∷ []) ≡ none) × (serve requests services (1 ∷ 21 ∷ []) ≡ none))
    ⊎ ((req : RpcRequest) × (requests.parse (1 ∷ 21 ∷ []) ≡ some req)
        × Served services req (serve requests services (1 ∷ 21 ∷ [])))
serve_answers_example = serve_answers requests services (1 ∷ 21 ∷ [])

call_answered_example :
    (r : RpcResponse) × (serve requests services (1 ∷ 21 ∷ []) ≡ some r)
    × Answers services (make_request (codes "D") (codes "d") (21 ∷ []) 1) r
    × (get_elem? (on_message responses (responses.serialize r).1 (begin_call true ready)).calls 0
        ≡ some (settle r (new_call true)))
    × (find 1 (on_message responses (responses.serialize r).1 (begin_call true ready)).pending_calls
        ≡ none)
call_answered_example =
    call_answered requests responses services ready true (codes "D") (codes "d") (21 ∷ [])
      (refl, refl) back

abbrev answer_42 : RpcResponse
answer_42 = record { request_id = 1; success = true; result_data = 42 ∷ []; error_msg = [] }

-- A call is registered under id 1, then its response comes before the write, which fails.
abbrev answered_early : Call
answered_early = run_done (fail (codes "write failed") (settle answer_42 (new_call true)))

answered_early-runs : answered_early.runs ≡ 2
answered_early-runs = refl

runs_once_example : answered_early.runs ≤ 2
unfolding take_id register write_failed take_call finish_call find put erase modify moved
runs_once_example =
    runs_once 0 answered_early
      (later
        (later
          (later (later (later here (takes_id true)) (registers 1 0 refl))
            (takes_call answer_42 0 refl))
          (finishes answer_42 0 refl))
        (fails_write 1 0 refl))
      refl

-- A request that is not written.
unsent_unregistered_example :
    find 1 (write_failed 1 0 (register 1 0 (take_id true init))).pending_calls ≢ some 0
unfolding take_id register moved
unsent_unregistered_example =
    unsent_unregistered 1 0
      (later (later (later here (takes_id true)) (registers 1 0 refl)) (fails_write 1 0 refl)) refl

-- One call has been registered.
next_request_id_fresh_example :
    (find
        (register 1 0 (take_id true init)).next_request_id
        (register 1 0 (take_id true init)).pending_calls
      ≡ none)
    × (moved 0 (registered 1) (moved 0 (numbered 1) (λ k. outside)) 0
        ≢ numbered (register 1 0 (take_id true init)).next_request_id)
unfolding take_id register moved
next_request_id_fresh_example =
    next_request_id_fresh 0 (later (later here (takes_id true)) (registers 1 0 refl)) (omega arith)

-- One call waits under id 1.
abbrev one_waits : RpcChannel
one_waits = record {
  connected = true;
  reading = true;
  next_request_id = 2;
  calls = new_call false ∷ [];
  pending_calls = (1, 0) ∷ [];
}
