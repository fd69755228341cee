-- ===== src/Examples/Server.antt =====
-- A request with a handler and one without.
use mini_kafka.Prelude.{◌≡◌, ◌⊎◌, some, none, [], ◌∷◌}
use mini_kafka.Prelude.Int.{pos}
use mini_kafka.Protocol.Frame.{RequestFrame}
use mini_kafka.Server.Handler.{Mux, HandlerFunc, returned, new_mux, handle, dispatch}
use mini_kafka.Server.Handler.Answers.{IsOwn, dispatch-correlation_id, dispatch-IsOwn}
use mathlib.Core.Bool.{true}

abbrev ask : RequestFrame
ask = record {
  size = pos 20;
  api_key = pos 3;
  api_version = pos 0;
  correlation_id = pos 77;
  client_id = [];
  payload = 1 ∷ [];
}

-- A handler that forgets the id.
abbrev echo : HandlerFunc
echo req =
    returned
      (some (record {
        size = pos 0;
        correlation_id = pos 0;
        error_code = pos 0;
        payload = req.payload;
      }))
      none

abbrev echo_mux : Mux
echo_mux = handle (new_mux true) (pos 3) echo

dispatch-correlation_id_example : (dispatch echo_mux ask).0.correlation_id ≡ pos 77
dispatch-correlation_id_example = dispatch-correlation_id echo_mux ask

dispatch-IsOwn_example :
    ((dispatch echo_mux ask).0.payload ≡ [])
    ⊎ ((h : HandlerFunc) × (echo_mux.handlers (pos 3) ≡ some h)
        × IsOwn ask h (dispatch echo_mux ask).0)
dispatch-IsOwn_example = dispatch-IsOwn echo_mux ask
