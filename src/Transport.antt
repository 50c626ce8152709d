-- ===== src/Transport.antt =====
-- graphql/handler/transport (http_get.go, http_post.go, options.go, the limit of http_form.go, error.go
-- and util.go) and graphql/handler/server.go: one request and its reply.
pub mod Routing
pub mod Replies
pub mod Answers
pub mod Websocket
pub mod Upload
pub mod Form
pub mod InitPayload
mod Tests
use fastgql.Prelude.Outcome.{Outcome, ok, panic, out_of_fuel, ◌>>=◌}
use fastgql.Prelude.{
  ℕ, ◌*◌, ◌≡◌, String, Bool, true, false, not, ◌&&◌, ◌||◌, ◌⊎◌, inl, inr, Option, none, some, List,
  [], ◌∷◌, if◌then◌else◌, str_eq, ◌==◌,
}
use fastgql.Prelude.Int.{ℤ, pos, negsuc, ltb_ℤ}
use fastgql.Graphql.Errors.{GqlError, ErrorKind, protocol, user, code_type, get_error_kind}

-- What the code reads of a `fasthttp.RequestCtx`. A media type that `mime.ParseMediaType` refuses is
-- missing.
pub record Request : Type 0 where
  pub method : String
  pub upgrade : String
  pub media_type : Option String
  pub content_length : ℤ
  pub query : String
  pub operation_name : String
  pub variables : String
  pub extensions : String
  pub body : String

-- `MultipartForm` has its sizes: `MaxUploadSize` and `MaxMemory`.
pub data Transport : Type 0 where
  get : Transport
  post : Transport
  multipart_form : ℤ → ℤ → Transport
  options : Transport
  websocket : Transport

abbrev pub is_media : Option String → String → Bool
is_media none name = false
is_media (some m) name = str_eq m name

unfoldable pub supports : Transport → Request → Bool
supports get r = if not (str_eq r.upgrade "") then false else str_eq r.method "GET"
supports post r =
    if not (str_eq r.upgrade "")
    then false
    else str_eq r.method "POST" && is_media r.media_type "application/json"
supports (multipart_form size memory) r =
    if not (str_eq r.upgrade "")
    then false
    else str_eq r.method "POST" && is_media r.media_type "multipart/form-data"
supports options r = str_eq r.method "HEAD" || str_eq r.method "OPTIONS"
supports websocket r = not (str_eq r.upgrade "")

unfoldable pub get_transport : List Transport → Request → Option Transport
unfolding supports
get_transport [] r = none
get_transport (t ∷ ts) r = if supports t r then some t else get_transport ts r

abbrev default_size : ℤ
default_size = pos 33_554_432  -- 32 << 20

abbrev is_zero : ℤ → Bool
is_zero (pos n) = n == 0
is_zero (negsuc n) = false

unfoldable pub max_upload_size : ℤ → ℤ
max_upload_size size = if is_zero size then default_size else size

unfoldable pub max_memory : ℤ → ℤ
max_memory memory = if is_zero memory then default_size else memory

abbrev error_of : String → GqlError
error_of text = record { message = text; path = none; code = none }

-- `statusFor`.
unfoldable pub status_for_kind : ErrorKind → ℕ
status_for_kind protocol = 422
status_for_kind user = 200

unfoldable pub status_for : List GqlError → ℕ
unfolding status_for_kind
status_for errs = status_for_kind (get_error_kind code_type errs)

-- The executor and the JSON decoder behind the transports. Interceptors, mutators and resolvers can
-- panic.
pub record Exec : Type 1 where
  pub Params : Type 0
  pub Created : Type 0
  pub Response : Type 0
  pub Values : Type 0
  pub json_object : String → Option Values
  -- No result is an error; `null` gives a nil pointer.
  pub json_params : String → Option (Option Params)
  pub raw_params : String → String → Option Values → Option Values → Params
  pub create_operation_context : Params → Outcome (Created ⊎ List GqlError)
  pub dispatch_error : List GqlError → Outcome Response
  -- The first response.
  pub dispatch_operation : Created → Outcome Response
  pub present_recovered_error : String → GqlError
  pub error_response : List GqlError → Response
  pub is_query : Created → Bool

module _ (x : Exec) where
  open x use {
    Params, Created, Response, Values, json_object, json_params, raw_params,
    create_operation_context, dispatch_error, dispatch_operation, present_recovered_error,
    error_response, is_query,
  }

  -- The status, what is written, and the operation that gave what is written.
  pub record Reply : Type 0 where
    pub status : ℕ
    pub written : List Response
    pub executed : Option Created

  abbrev refused : ℕ → String → Reply
  refused status text = record {
    status = status;
    written = error_response (error_of text ∷ []) ∷ [];
    executed = none;
  }

  abbrev failed : List GqlError → Outcome Reply
  failed errs = dispatch_error errs >>= λ response.
      ok (record { status = status_for errs; written = response ∷ []; executed = none })

  abbrev dispatched : Created → Outcome Reply
  dispatched op = dispatch_operation op >>= λ response.
      ok (record { status = 200; written = response ∷ []; executed = some op })

  -- An argument of the address: decoded if there is one.
  unfoldable pub decoded : String → Option (Option Values)
  decoded text =
      if str_eq text ""
      then some none
      else elim (json_object text) [ none ↦ none | some v ↦ some (some v) ]

  unfoldable pub query_only : Created → Bool → Outcome Reply
  query_only op true = dispatched op
  query_only op false = ok (refused 406 "GET requests only allow query operations")

  unfoldable pub get_created : Created ⊎ List GqlError → Outcome Reply
  unfolding query_only
  get_created (inr errs) = failed errs
  get_created (inl op) = query_only op (is_query op)

  unfoldable pub get_decoded :
      Request → Option (Option Values) → Option (Option Values) → Outcome Reply
  unfolding get_created
  get_decoded r none extensions = ok (refused 400 "variables could not be decoded")
  get_decoded r (some variables) none = ok (refused 400 "extensions could not be decoded")
  get_decoded r (some variables) (some extensions) =
      create_operation_context (raw_params r.query r.operation_name variables extensions)
      >>= get_created

  -- `GET.Do`.
  unfoldable pub do_get : Request → Outcome Reply
  unfolding get_decoded decoded
  do_get r = get_decoded r (decoded r.variables) (decoded r.extensions)

  -- `POST.Do` after the parameters; it is the end of `MultipartForm.Do` too.
  unfoldable pub post_created : Created ⊎ List GqlError → Outcome Reply
  post_created (inr errs) = failed errs
  post_created (inl op) = dispatched op

  unfoldable pub post_decoded : Option (Option Params) → Outcome Reply
  unfolding post_created
  post_decoded none = ok (refused 400 "json body could not be decoded: ")
  post_decoded (some none) = panic "invalid memory address or nil pointer dereference"
  post_decoded (some (some params)) = create_operation_context params >>= post_created

  unfoldable pub do_post : Request → Outcome Reply
  unfolding post_decoded
  do_post r = post_decoded (json_params r.body)

  -- `Options.Do`: the body is empty.
  unfoldable pub do_options : Request → Reply
  do_options r = record {
    status = if str_eq r.method "HEAD" then 405 else 200;
    written = [];
    executed = none;
  }

  -- `MultipartForm.Do` up to the form: a body that is too large is refused with status 200. `form` is
  -- the rest, with the parameters that the form holds or the reply to a form that does not hold them.
  unfoldable pub form_params : Params ⊎ String → Outcome Reply
  unfolding post_created
  form_params (inl params) = create_operation_context params >>= post_created
  form_params (inr text) = ok (refused 422 text)

  unfoldable pub do_form : ℤ → Request → (Request → Outcome (Params ⊎ String)) → Outcome Reply
  unfolding form_params max_upload_size
  do_form size r form =
      if ltb_ℤ (max_upload_size size) r.content_length
      then ok (refused 200 "failed to parse multipart form, request body too large")
      else (form r >>= form_params)

  -- `Websocket.Do`, from the status that the upgrade sets if it succeeds. The connection runs after the
  -- handler has returned.
  unfoldable pub do_websocket : Option ℕ → Reply
  do_websocket none = refused 400 "unable to upgrade"
  do_websocket (some status) = record { status = status; written = []; executed = none }

  unfoldable pub transported :
      (Request → Outcome (Params ⊎ String))
      → (Request → Option ℕ)
      → Request
      → Option Transport
      → Outcome Reply
  unfolding do_get do_post do_form do_options do_websocket
  transported form upgrade r none = ok (refused 400 "transport not supported")
  transported form upgrade r (some get) = do_get r
  transported form upgrade r (some post) = do_post r
  transported form upgrade r (some (multipart_form size memory)) = do_form size r form
  transported form upgrade r (some options) = ok (do_options r)
  transported form upgrade r (some websocket) = ok (do_websocket (upgrade r))

  -- The deferred function of `Server.Handler`: a panic is presented with status 422. The transports write
  -- last, so nothing is written before it.
  unfoldable pub recovering : Outcome Reply → Outcome Reply
  recovering (ok reply) = ok reply
  recovering (panic text) = ok (record {
    status = 422;
    written = error_response (present_recovered_error text ∷ []) ∷ [];
    executed = none;
  })
  recovering out_of_fuel = out_of_fuel

  -- `Server.Handler`.
  unfoldable pub handler :
      List Transport
      → (Request → Outcome (Params ⊎ String))
      → (Request → Option ℕ)
      → Request
      → Outcome Reply
  unfolding transported get_transport recovering
  handler transports form upgrade r =
      recovering (transported form upgrade r (get_transport transports r))
