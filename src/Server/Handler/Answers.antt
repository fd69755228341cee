-- ===== src/Server/Handler/Answers.antt =====
-- What a client can rely on in the answer of a dispatch.
use mini_kafka.Prelude.{
  ◌≡◌, refl, ◌∙◌, Option, none, some, [], if◌then◌else◌, Bool-cases, inl, inr, ◌⊎◌,
}
use mini_kafka.Prelude.Int.{ℤ, ◌==ℤ◌}
use mini_kafka.Protocol.Frame.{RequestFrame, ResponseFrame}
use mini_kafka.Server.Handler.{
  Mux, HandlerFunc, Outcome, returned, panicked, dispatch, call, finish, handle, respond, log,
}

finish-correlation_id :
    (m : Mux) (req : RequestFrame) (o : Outcome)
    → (finish m req o).0.correlation_id ≡ req.correlation_id
unfolding finish respond
finish-correlation_id m req panicked = refl
finish-correlation_id m req (returned out (some e)) = refl
finish-correlation_id m req (returned (some out) none) = refl
finish-correlation_id m req (returned none none) = refl

call-correlation_id :
    (m : Mux) (req : RequestFrame) (h : Option HandlerFunc)
    → (call m req h).0.correlation_id ≡ req.correlation_id
unfolding call respond
call-correlation_id m req none = refl
call-correlation_id m req (some h) = finish-correlation_id m req (h req)

-- The response of a dispatch carries the correlation id of the request, whatever the handler does:
-- it returns a response with another id, an error or nothing, panics, or is not there.
pub dispatch-correlation_id :
    (m : Mux) (req : RequestFrame) → (dispatch m req).0.correlation_id ≡ req.correlation_id
unfolding dispatch
dispatch-correlation_id m req = call-correlation_id m req (m.handlers req.api_key)

-- What a handler's own response must be: returned without an error, with the request's id put in.
abbrev pub IsOwn : RequestFrame → HandlerFunc → ResponseFrame → Type 0
IsOwn req h out =
    (sent : ResponseFrame) × (h req ≡ returned (some sent) none)
    × (out ≡ record sent { correlation_id = req.correlation_id })

abbrev FromHandler : RequestFrame → Option HandlerFunc → ResponseFrame → Type 0
FromHandler req found out =
    (out.payload ≡ []) ⊎ ((h : HandlerFunc) × (found ≡ some h) × IsOwn req h out)

finish-FromHandler :
    (m : Mux) (req : RequestFrame) (h : HandlerFunc) (o : Outcome)
    → h req ≡ o
    → FromHandler req (some h) (finish m req o).0
unfolding finish respond
finish-FromHandler m req h panicked e = inl refl
finish-FromHandler m req h (returned out (some x)) e = inl refl
finish-FromHandler m req h (returned (some out) none) e = inr (h, refl, (out, e, refl))
finish-FromHandler m req h (returned none none) e = inl refl

call-FromHandler :
    (m : Mux) (req : RequestFrame) (found : Option HandlerFunc)
    → FromHandler req found (call m req found).0
unfolding call respond
call-FromHandler m req none = inl refl
call-FromHandler m req (some h) = finish-FromHandler m req h (h req) refl

-- The response of a dispatch has no payload, or the handler registered for the API key returned it
-- without an error, and only the correlation id is set: no error or panic leaves a payload.
pub dispatch-IsOwn :
    (m : Mux) (req : RequestFrame)
    → ((dispatch m req).0.payload ≡ [])
      ⊎ ((h : HandlerFunc) × (m.handlers req.api_key ≡ some h) × IsOwn req h (dispatch m req).0)
unfolding dispatch
dispatch-IsOwn m req = call-FromHandler m req (m.handlers req.api_key)

-- The registered handlers do not matter behind a call.
finish-handle :
    (m : Mux) (key : ℤ) (h : HandlerFunc) (req : RequestFrame) (o : Outcome)
    → finish (handle m key h) req o ≡ finish m req o
unfolding finish handle log
finish-handle m key h req panicked = refl
finish-handle m key h req (returned out (some e)) = refl
finish-handle m key h req (returned (some out) none) = refl
finish-handle m key h req (returned none none) = refl

call-handle :
    (m : Mux) (key : ℤ) (h : HandlerFunc) (req : RequestFrame) (found : Option HandlerFunc)
    → call (handle m key h) req found ≡ call m req found
unfolding call
call-handle m key h req none = refl
call-handle m key h req (some g) = finish-handle m key h req (g req)

-- After a handler is registered for an API key, a request with that key is answered by what this
-- handler gives, also where another was registered before, and a request with any other key is
-- answered, and logged, as before.
pub dispatch-handle :
    (m : Mux) (key : ℤ) (h : HandlerFunc) (req : RequestFrame)
    → dispatch (handle m key h) req
      ≡ (if key ==ℤ req.api_key then finish m req (h req) else dispatch m req)
unfolding dispatch
dispatch-handle m key h req =
    call-handle m key h req ((handle m key h).handlers req.api_key)
    ∙ (unfold handle call in
        elim (Bool-cases (key ==ℤ req.api_key)) [
          | inl here ↦ rw here refl
          | inr other ↦ rw other refl
        ])
