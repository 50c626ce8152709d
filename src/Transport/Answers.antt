-- ===== src/Transport/Answers.antt =====
-- graphql/handler/server.go: every request is answered, also if a transport panics.
use fastgql.Prelude.{◌≡◌, none, List, [], ◌∷◌}
use fastgql.Prelude.Outcome.{Outcome, ok, panic, out_of_fuel, Halts}
use fastgql.Graphql.Errors.{GqlError}
use fastgql.Transport.{Transport, Exec, Reply}

-- The executor's calls end: they return or panic.
pub record Ends (x : Exec) : Type 0 where
  pub create : (p : Exec.Params x) → Halts (x.create_operation_context p)
  pub error : (errs : List GqlError) → Halts (x.dispatch_error errs)
  pub operation : (op : Exec.Created x) → Halts (x.dispatch_operation op)

module _ (x : Exec) where
  -- The reply of the transport, or a reply with status 422 to its panic.
  abbrev pub IsReply : Outcome (Reply x) → Reply x → Type 0
  IsReply (ok reply') reply = reply ≡ reply'
  IsReply (panic text) reply =
      (reply.status ≡ 422)
      × (reply.written ≡ x.error_response (x.present_recovered_error text ∷ []) ∷ [])
      × (reply.executed ≡ none)
  IsReply out_of_fuel reply = ⊥
