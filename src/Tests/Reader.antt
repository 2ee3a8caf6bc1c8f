-- ===== src/Tests/Reader.antt =====
-- Runs of the reader thread of src/rpc/rpc_channel.cpp.
use rpc_framework.Base.{Byte, List, suc, ◌≡◌, refl, true, false, [], ◌∷◌, none, some}
use rpc_framework.Net.Buffer.{Buffer, peek, peek_at, readable, retrieve, reset, retrieve_as_string}
use rpc_framework.Codec
use rpc_framework.Codec.{frame_loop, examine, htonl}
use rpc_framework.Codec.Sound.{delivered}
use rpc_framework.Rpc.Messages.{RpcResponse, Serializer}
use rpc_framework.Rpc.Channel.{RpcChannel, init, connect, begin_call}
use rpc_framework.Rpc.Channel.Reader.{reader_loop, receive_frames}
use rpc_framework.Rpc.Channel.Reader.Equivalence.{watching, concluded, reader_loop-on_message}

-- Responses whose first byte is the id.
abbrev responses : Serializer RpcResponse
responses = record {
  serialize = λ r. (true, r.request_id ∷ r.result_data);
  parse = λ s. elim s [
    | [] ↦ none
    | id ∷ result ↦
        some (record { request_id = id; success = true; result_data = result; error_msg = [] })
  ];
}

-- The response to call 1, and then a wrong magic number.
abbrev arrived : Buffer
arrived = record {
  buf =
      0 ∷ 0 ∷ 0 ∷ 0 ∷ 0 ∷ 0 ∷ 0 ∷ 0 ∷ 202 ∷ 254 ∷ 186 ∷ 190 ∷ 0 ∷ 0 ∷ 0 ∷ 2 ∷ 1 ∷ 42 ∷ 0 ∷ 0 ∷ 0 ∷ 0
      ∷ 0 ∷ 0 ∷ 0 ∷ 0 ∷ [];
  read_idx = 8;
  write_idx = 26;
}

abbrev one_waits : RpcChannel
one_waits = begin_call false (connect init)

reader_loop-on_message_example :
    let run = Codec.on_message watching arrived in
    reader_loop responses (suc (readable arrived)) arrived one_waits ≡ (
      run.buffer,
      concluded run.ending (receive_frames responses one_waits (delivered run.actions)),
    )
unfolding Codec.on_message frame_loop examine peek peek_at readable retrieve reset
    retrieve_as_string
reader_loop-on_message_example = reader_loop-on_message responses arrived one_waits refl

-- The response to call 1 comes in two reads.
abbrev pieces : List (Byte × List Byte)
pieces = (202, 254 ∷ 186 ∷ []) ∷ (190, 0 ∷ 0 ∷ 0 ∷ 2 ∷ 1 ∷ 42 ∷ []) ∷ []
