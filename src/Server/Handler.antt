-- ===== src/Server/Handler.antt =====
-- internal/server/handler.go: the multiplexer of requests. A handler is a function of the request
-- frame, of whose effects only what Dispatch sees is in the model: the values that it returns, or a
-- panic. The map of handlers is a function, and the calls of the logger are a list.
pub mod Answers
use mini_kafka.Prelude.{Bool, true, false, Option, none, some, List, [], ◌∷◌, if◌then◌else◌}
use mini_kafka.Prelude.Int.{ℤ, pos, ◌==ℤ◌}
use mini_kafka.Protocol.Frame.{RequestFrame, ResponseFrame}

-- An error that carries a protocol code (errors.As finds a codedError), or another one.
pub data HandlerError : Type 0 where
  coded : ℤ → HandlerError
  plain : HandlerError

pub data Outcome : Type 0 where
  returned : Option ResponseFrame → Option HandlerError → Outcome
  panicked : Outcome

abbrev pub HandlerFunc : Type 0
HandlerFunc = RequestFrame → Outcome

-- A call of the logger, with the apiKey and the correlationID that it gets.
pub data LogCall : Type 0 where
  handler_panic handler_failed : ℤ → ℤ → LogCall

pub record Mux : Type 0 where
  pub handlers : ℤ → Option HandlerFunc
  pub has_logger : Bool

abbrev pub err_none : ℤ
err_none = pos 0

abbrev pub err_unknown : ℤ
err_unknown = pos 1

abbrev pub err_unsupported_version : ℤ
err_unsupported_version = pos 13

-- NewMux
pub new_mux : Bool → Mux
new_mux has_logger = record { handlers = λ key. none; has_logger = has_logger }

-- Handle: a handler that is there is replaced.
pub handle : Mux → ℤ → HandlerFunc → Mux
handle m api_key h = record m {
  handlers = λ key. if api_key ==ℤ key then some h else m.handlers key;
}

-- The response without a payload that Dispatch makes itself.
pub respond : RequestFrame → ℤ → ResponseFrame
respond req code = record {
  size = pos 0;
  correlation_id = req.correlation_id;
  error_code = code;
  payload = [];
}

code_of : HandlerError → ℤ
code_of (coded code) = code
code_of plain = err_unknown

log : Mux → LogCall → List LogCall
log m call = if m.has_logger then call ∷ [] else []

-- Behind the call of the handler, the deferred recovery included.
pub finish : Mux → RequestFrame → Outcome → ResponseFrame × List LogCall
unfolding respond code_of log
finish m req panicked =
    (respond req err_unknown, log m (handler_panic req.api_key req.correlation_id))
finish m req (returned out (some e)) =
    (respond req (code_of e), log m (handler_failed req.api_key req.correlation_id))
finish m req (returned (some out) none) = (record out { correlation_id = req.correlation_id }, [])
finish m req (returned none none) = (respond req err_none, [])

call : Mux → RequestFrame → Option HandlerFunc → ResponseFrame × List LogCall
unfolding finish
call m req none = (respond req err_unsupported_version, [])
call m req (some h) = finish m req (h req)

-- Dispatch
pub dispatch : Mux → RequestFrame → ResponseFrame × List LogCall
unfolding call
dispatch m req = call m req (m.handlers req.api_key)
