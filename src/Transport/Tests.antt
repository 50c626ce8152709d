-- ===== src/Transport/Tests.antt =====
-- The transports' theorems at inputs.
use fastgql.Prelude.{
  if◌then◌else◌, ℕ, ◌≡◌, refl, String, true, inl, inr, none, some, List, [], ◌∷◌, str_eq,
}
use fastgql.Prelude.Int.{pos}
use fastgql.Prelude.Outcome.{panic, ok, Ensures}
use fastgql.Prelude.Text.{Bytes, codes}
use fastgql.Transport.{
  Request, Transport, get, post, multipart_form, options, websocket, get_transport, Exec, Reply,
  do_get, do_post, handler,
}
use fastgql.Transport.Replies.{IsExecuted, do_get-is_query}
use fastgql.Transport.Upload.{null, Entries, no_entries, entry, add_upload, split, rest_of}
use fastgql.Transport.Upload.Placing.{Finds, add_upload-Finds}
use fastgql.Transport.Form.{Disk}
use fastgql.Transport.InitPayload.{InitPayload, text, other, authorization}
use fastgql.Transport.Websocket.{
  Server, Subscription, Connection, Read, message, init, run, new_connection, launch, proceed,
  ended,
}
use fastgql.Transport.Websocket.Ordering.{IsOrdered}
use fastgql.Transport.Websocket.Reachable.{
  Reachable, opened, stepped, reads, proceeds, Reachable-IsOrdered,
}

abbrev request : Request
request = record {
  method = "GET";
  upgrade = "";
  media_type = none;
  content_length = pos 0;
  query = "{ a }";
  operation_name = "";
  variables = "";
  extensions = "";
  body = "";
}

abbrev transports : List Transport
transports = websocket ∷ options ∷ get ∷ post ∷ multipart_form (pos 0) (pos 0) ∷ []

runs : get_transport transports request ≡ some get
unfolding get_transport
runs = refl

-- Every query is an operation, and its own response.
abbrev echo : Exec
echo = record {
  Params = String;
  Created = String;
  Response = String;
  Values = ℕ;
  json_object = λ s. none;
  json_params = λ s. some (some s);
  raw_params = λ query name variables extensions. query;
  create_operation_context = λ p. ok (inl p);
  dispatch_error = λ errs. ok "errors";
  dispatch_operation = λ op. if str_eq op "{ crash }" then panic "crash" else ok op;
  present_recovered_error = λ text. record { message = text; path = none; code = none };
  error_response = λ errs. "error";
  is_query = λ op. str_eq op "{ a }";
}

abbrev answer : Reply echo
answer = record { status = 200; written = "{ a }" ∷ []; executed = some "{ a }" }

got : do_get echo request ≡ ok answer
unfolding do_get
got = refl

do_get-is_query_example : IsExecuted echo "{ a }" answer × (Exec.is_query echo "{ a }" ≡ true)
do_get-is_query_example = do_get-is_query echo request "{ a }" answer got refl

handled : handler echo transports (λ r. ok (inr "no form")) (λ r. some 101) request ≡ ok answer
unfolding handler do_get
handled = refl

-- A resolver that panics, by POST.
recovers :
    handler echo transports
      (λ r. ok (inr "no form"))
      (λ r. some 101)
      (record request { method = "POST"; media_type = some "application/json"; body = "{ crash }" })
    ≡ ok (record { status = 422; written = "error" ∷ []; executed = none })
unfolding handler do_post
recovers = refl

-- { file: null }
abbrev variables : Entries ℕ
variables = entry (codes "file") null no_entries

add_upload-Finds_example :
    Ensures
      (Finds (rest_of (split (codes "variables.file"))) 7)
      (add_upload (some variables) 7 (codes "variables.file"))
add_upload-Finds_example = add_upload-Finds variables 7 (codes "variables.file")

-- Every start message is an operation.
abbrev server : Server
server = record {
  Payload = ℕ;
  InitPayload = ℕ;
  Params = ℕ;
  Response = ℕ;
  is_empty = λ p. true;
  decode_init = λ p. none;
  decode_params = λ p. some (some p);
  init_func = none;
  create = λ p. [];
  dispatch_error = λ errs. errs;
  error_response = λ errs. 0;
}

abbrev sent : String → String → Read server
sent kind id = message (record { payload = 1; id = id; message_type = kind })

abbrev connected : Connection server
connected = (init server (new_connection server) (sent "connection_init" "")).0

connected-Reachable : Reachable server (connected, true)
unfolding init
connected-Reachable = opened (sent "connection_init" "") refl

abbrev started : Connection server
started = launch server connected "1"

started-Reachable : Reachable server (started, true)
unfolding run init
started-Reachable = stepped connected-Reachable (reads (sent "start" "1") refl)

abbrev first : Subscription server
first = record { number = 0; id = "1" }

ended-Reachable : Reachable server (proceed server started first ended, true)
unfolding init
ended-Reachable = stepped started-Reachable (proceeds 0 first ended refl)

Reachable-IsOrdered_example :
    IsOrdered server (Connection.output (proceed server started first ended))
Reachable-IsOrdered_example =
    Reachable-IsOrdered server (proceed server started first ended) true ended-Reachable

-- Files for every key, on a disk that works.
abbrev disk : Disk
disk = record {
  File = ℕ;
  form_file = λ key. some 7;
  can_read = λ key. true;
  can_create = λ key. true;
  can_copy = λ key. true;
  can_close = λ key. true;
  can_open = λ key path. true;
}

abbrev uploads : List (Bytes × List Bytes)
uploads = (codes "0", codes "variables.file" ∷ []) ∷ []

abbrev payload : InitPayload
payload = ("authorization", text "token") ∷ ("Authorization", other) ∷ []

header : authorization payload ≡ "token"
unfolding authorization
header = refl
