-- ===== src/Transport/Replies.antt =====
-- graphql/handler/server.go and graphql/handler/transport: when a request is executed.
use fastgql.Prelude.Outcome.{
  Outcome, ok, panic, out_of_fuel, ◌>>=◌, Ensures, Ensures-bind, Ensures-eq, Ensures-intro,
  Ensures-map,
}
use fastgql.Prelude.{
  ℕ, String, ◌≡◌, refl, sym, ap, ◌∙◌, Bool, true, false, ◌⊎◌, inl, inr, Option, none, some,
  some-injective, List, [], ◌∷◌, Bool-cases,
}
use fastgql.Prelude.Int.{ℤ, ltb_ℤ}
use fastgql.Graphql.Errors.{GqlError}
use fastgql.Transport.{
  Request, Transport, get, post, multipart_form, options, websocket, get_transport, Exec, Reply,
  decoded, query_only, get_created, get_decoded, do_get, post_created, post_decoded, do_post,
  do_options, form_params, max_upload_size, do_form, do_websocket, transported, recovering, handler,
  failed, dispatched,
}

module _ (x : Exec) where
  -- An operation that is executed was created from parameters, and its response is the reply.
  pub record IsExecuted (op : Exec.Created x) (reply : Reply x) : Type 0 where
    pub params : Exec.Params x
    pub created : x.create_operation_context params ≡ ok (inl op)
    pub succeeded : reply.status ≡ 200
    pub response : Exec.Response x
    pub dispatched : x.dispatch_operation op ≡ ok response
    pub answered : reply.written ≡ response ∷ []

  abbrev IsAccounted : Reply x → Type 0
  IsAccounted reply = (op : Exec.Created x) → reply.executed ≡ some op → IsExecuted op reply

  abbrev IsQueried : Reply x → Type 0
  IsQueried reply =
      (op : Exec.Created x)
      → reply.executed ≡ some op
      → IsExecuted op reply × (x.is_query op ≡ true)

  failed-Ensures :
      (P : Reply x → Type 0) (errs : List GqlError)
      → ((reply : Reply x) → reply.executed ≡ none → P reply)
      → Ensures P (failed x errs)
  failed-Ensures P errs h = Ensures-bind P (x.dispatch_error errs) _ (λ response e. h _ refl)

  unexecuted : (reply : Reply x) → reply.executed ≡ none → IsAccounted reply
  unexecuted reply e op found = cc (sym e ∙ found)

  dispatched-IsAccounted :
      (params : Exec.Params x) (op : Exec.Created x)
      → x.create_operation_context params ≡ ok (inl op)
      → Ensures IsAccounted (dispatched x op)
  dispatched-IsAccounted params op e =
      Ensures-bind IsAccounted (x.dispatch_operation op) _ (λ response gives op' found.
        let same = some-injective found in
        record {
          params = params;
          created = e ∙ ap (λ o. ok (inl o)) same;
          succeeded = refl;
          response = response;
          dispatched = ap x.dispatch_operation (sym same) ∙ gives;
          answered = refl;
        })

  dispatched-executed :
      (op : Exec.Created x) → Ensures (λ reply. reply.executed ≡ some op) (dispatched x op)
  dispatched-executed op =
      Ensures-bind (λ (reply : Reply x). reply.executed ≡ some op) (x.dispatch_operation op) _
        (λ response e. refl)

  query_only-IsQueried :
      (params : Exec.Params x) (op : Exec.Created x) (b : Bool)
      → x.create_operation_context params ≡ ok (inl op)
      → x.is_query op ≡ b
      → Ensures IsQueried (query_only x op b)
  unfolding query_only
  query_only-IsQueried params op false e other = λ op' found. cc
  query_only-IsQueried params op true e query =
      Ensures-intro IsQueried (dispatched x op) (λ reply gives op' found. (
        Ensures-eq IsAccounted (dispatched x op) reply gives (dispatched-IsAccounted params op e)
            op' found,
        ap x.is_query (
              some-injective (
                sym found
                ∙ Ensures-eq (λ (r : Reply x). r.executed ≡ some op) (dispatched x op) reply gives
                    (dispatched-executed op)))
            ∙ query,
      ))

  get_created-IsQueried :
      (params : Exec.Params x) (r : Exec.Created x ⊎ List GqlError)
      → x.create_operation_context params ≡ ok r
      → Ensures IsQueried (get_created x r)
  unfolding get_created
  get_created-IsQueried params (inr errs) e =
      failed-Ensures IsQueried errs (λ reply none_executed op found. cc (sym none_executed ∙ found))
  get_created-IsQueried params (inl op) e = query_only-IsQueried params op (x.is_query op) e refl

  get_decoded-IsQueried :
      (r : Request) (v e : Option (Option (Exec.Values x)))
      → Ensures IsQueried (get_decoded x r v e)
  unfolding get_decoded
  get_decoded-IsQueried r none e = λ op found. cc
  get_decoded-IsQueried r (some v) none = λ op found. cc
  get_decoded-IsQueried r (some v) (some e) =
      let params = x.raw_params r.query r.operation_name v e in
      Ensures-bind IsQueried (x.create_operation_context params) (get_created x)
        (get_created-IsQueried params)

  post_created-IsAccounted :
      (params : Exec.Params x) (r : Exec.Created x ⊎ List GqlError)
      → x.create_operation_context params ≡ ok r
      → Ensures IsAccounted (post_created x r)
  unfolding post_created
  post_created-IsAccounted params (inr errs) e = failed-Ensures IsAccounted errs unexecuted
  post_created-IsAccounted params (inl op) e = dispatched-IsAccounted params op e

  posted-IsAccounted :
      (params : Exec.Params x)
      → Ensures IsAccounted (x.create_operation_context params >>= post_created x)
  posted-IsAccounted params =
      Ensures-bind IsAccounted (x.create_operation_context params) (post_created x)
        (post_created-IsAccounted params)

  post_decoded-IsAccounted :
      (p : Option (Option (Exec.Params x))) → Ensures IsAccounted (post_decoded x p)
  unfolding post_decoded
  post_decoded-IsAccounted none = λ op found. cc
  post_decoded-IsAccounted (some none) = tt
  post_decoded-IsAccounted (some (some params)) = posted-IsAccounted params

  form_params-IsAccounted : (p : Exec.Params x ⊎ String) → Ensures IsAccounted (form_params x p)
  unfolding form_params
  form_params-IsAccounted (inl params) = posted-IsAccounted params
  form_params-IsAccounted (inr text) = λ op found. cc

  do_form-IsAccounted :
      (size : ℤ) (r : Request) (form : Request → Outcome (Exec.Params x ⊎ String))
      → Ensures IsAccounted (do_form x size r form)
  unfolding do_form
  do_form-IsAccounted size r form =
      elim (Bool-cases (ltb_ℤ (max_upload_size size) r.content_length)) [
        | inl large ↦ rw (Ensures, large) (λ op found. cc)
        | inr fits ↦
            rw fits
              (Ensures-bind IsAccounted (form r) (form_params x) (λ p e. form_params-IsAccounted p))
      ]

  do_websocket-IsAccounted : (status : Option ℕ) → IsAccounted (do_websocket x status)
  unfolding do_websocket
  do_websocket-IsAccounted none op found = cc
  do_websocket-IsAccounted (some status) op found = cc

  transported-IsAccounted :
      (form : Request → Outcome (Exec.Params x ⊎ String)) (upgrade : Request → Option ℕ)
      (r : Request) (t : Option Transport)
      → Ensures IsAccounted (transported x form upgrade r t)
  unfolding transported do_get do_post do_options
  transported-IsAccounted form upgrade r none = λ op found. cc
  transported-IsAccounted form upgrade r (some get) =
      Ensures-map IsQueried IsAccounted
        (get_decoded x r (decoded x r.variables) (decoded x r.extensions))
        (λ reply h op found. (h op found).0)
        (get_decoded-IsQueried r (decoded x r.variables) (decoded x r.extensions))
  transported-IsAccounted form upgrade r (some post) =
      post_decoded-IsAccounted (x.json_params r.body)
  transported-IsAccounted form upgrade r (some (multipart_form size memory)) =
      do_form-IsAccounted size r form
  transported-IsAccounted form upgrade r (some options) = λ op found. cc
  transported-IsAccounted form upgrade r (some websocket) = do_websocket-IsAccounted (upgrade r)

  recovering-IsAccounted :
      (o : Outcome (Reply x)) → Ensures IsAccounted o → Ensures IsAccounted (recovering x o)
  unfolding recovering
  recovering-IsAccounted (ok reply) h = h
  recovering-IsAccounted (panic text) h = λ op found. cc
  recovering-IsAccounted out_of_fuel h = tt

-- If GET replies with an operation's response, the operation is a query and was created from
-- parameters; the reply has status 200 and the first response, alone.
pub do_get-is_query :
    (x : Exec) (r : Request) (op : Exec.Created x) (reply : Reply x)
    → do_get x r ≡ ok reply
    → reply.executed ≡ some op
    → IsExecuted x op reply × (x.is_query op ≡ true)
unfolding do_get
do_get-is_query x r op reply e found =
    Ensures-eq (IsQueried x) (get_decoded x r (decoded x r.variables) (decoded x r.extensions))
      reply e (get_decoded-IsQueried x r (decoded x r.variables) (decoded x r.extensions)) op found

-- With any transports: an operation whose response the server's handler replies with was created
-- without an error and dispatched without a panic, and the reply is its first response, alone, with
-- status 200.
pub handler-IsExecuted :
    (x : Exec) (transports : List Transport) (form : Request → Outcome (Exec.Params x ⊎ String))
    (upgrade : Request → Option ℕ) (r : Request) (op : Exec.Created x) (reply : Reply x)
    → handler x transports form upgrade r ≡ ok reply
    → reply.executed ≡ some op
    → IsExecuted x op reply
unfolding handler
handler-IsExecuted x transports form upgrade r op reply e found =
    Ensures-eq (IsAccounted x)
      (recovering x (transported x form upgrade r (get_transport transports r))) reply e
      (recovering-IsAccounted x _
        (transported-IsAccounted x form upgrade r (get_transport transports r)))
      op found
