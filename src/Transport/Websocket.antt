-- ===== src/Transport/Websocket.antt =====
-- graphql/handler/transport/websocket.go: one connection. What is written is kept in order, the last
-- first; each start message and what it causes has a number, which is not on the wire.
pub mod Ordering
pub mod Initial
pub mod Reachable
use fastgql.Prelude.{
  ℕ, suc, ◌≡◌, String, Bool, true, false, ◌⊎◌, inl, inr, Option, none, some, List, [], ◌∷◌,
  if◌then◌else◌, str_eq, ◌==◌,
}
use fastgql.Prelude.Outcome.{Outcome, ok, panic, ◌>>=◌}
use fastgql.Graphql.Errors.{GqlError, ErrorKind, protocol, user, code_type, get_error_kind}

-- The request handler and the decoders behind the connection.
pub record Server : Type 1 where
  pub Payload : Type 0
  pub InitPayload : Type 0
  pub Params : Type 0
  pub Response : Type 0
  pub is_empty : Payload → Bool
  pub decode_init : Payload → Option InitPayload
  -- No result is an error; `null` gives a nil pointer.
  pub decode_params : Payload → Option (Option Params)
  -- `InitFunc`, and the error that it gives.
  pub init_func : Option (Option InitPayload → Option String)
  -- The errors of `CreateOperationContext`; those of the response to them.
  pub create : Params → List GqlError
  pub dispatch_error : List GqlError → List GqlError
  pub error_response : List GqlError → Response

module _ (sv : Server) where
  open sv use {
    Payload, InitPayload, Params, Response, is_empty, decode_init, decode_params, init_func, create,
    dispatch_error, error_response,
  }

  pub record OperationMessage : Type 0 where
    pub payload : Payload
    pub id : String
    pub message_type : String

  pub data Output : Type 0 where
    connection_ack : Output
    keep_alive : Output
    connection_error : String → List String → Output  -- the format and its arguments
    closing : ℕ → String → Output
    data_message : ℕ → String → Response → Output
    error_message : ℕ → String → List GqlError → Output
    complete_message : ℕ → String → Output

  -- A goroutine of `subscribe`, with the number of its cancel function.
  pub record Subscription : Type 0 where
    pub number : ℕ
    pub id : String

  -- `is_open` tells whether the websocket takes writes.
  pub record Connection : Type 0 where
    pub is_open : Bool
    pub output : List Output
    pub active : List (String × ℕ)
    pub running : List Subscription
    pub cancelled : List ℕ
    pub init_payload : Option InitPayload
    pub next : ℕ

  abbrev pub write : Connection → Output → Connection
  write c o = record c { output = if c.is_open then o ∷ c.output else c.output }

  -- The close frame, written under the mutex. The websocket refuses every write after it.
  abbrev pub write_close : Connection → ℕ → String → Connection
  write_close c code text = record (write c (closing code text)) { is_open = false }

  -- `conn.Close`. Nothing can be written after it.
  abbrev pub hang_up : Connection → Connection
  hang_up c = record c { is_open = false }

  -- The code lets go of the mutex between the two; a write of another goroutine there is refused, as one
  -- after the second is.
  abbrev pub close : Connection → ℕ → String → Connection
  close c code text = hang_up (write_close c code text)

  -- What `readOp` meets: a close frame, an error of the connection, no operation message, or one.
  pub data Read : Type 0 where
    closed : Read
    broken : List String → Read
    undecodable : Read
    message : OperationMessage → Read

  unfoldable pub read_op : Connection → Read → Connection × Option OperationMessage
  read_op c closed = (c, none)
  read_op c (broken args) = (write c (connection_error "invalid json: %T %s" args), none)
  read_op c undecodable = (write c (connection_error "invalid json" []), none)
  read_op c (message m) = (c, some m)

  -- What `InitFunc` says.
  unfoldable pub judged : Connection → Option String → Connection × Bool
  judged c none = (write (write c connection_ack) keep_alive, true)
  judged c (some err) = (close (write c (connection_error err [])) 1000 "terminated", false)

  -- The branch `connection_init` after the payload.
  unfoldable pub accept :
      Connection
      → Option InitPayload
      → Option (Option InitPayload → Option String)
      → Connection × Bool
  unfolding judged
  accept c payload none = judged c none
  accept c payload (some f) = judged c (f payload)

  unfoldable pub init_with : Connection → Bool → Option InitPayload → Connection × Bool
  unfolding accept
  init_with c true decoded = accept c none init_func
  init_with c false (some payload) =
      accept (record c { init_payload = some payload }) (some payload) init_func
  init_with c false none = (c, false)

  unfoldable pub init_message : Connection → Option OperationMessage → Connection × Bool
  unfolding init_with
  init_message c none = (close c 1002 "decoding error", false)
  init_message c (some m) =
      if str_eq m.message_type "connection_init"
      then init_with c (is_empty m.payload) (decode_init m.payload)
      else if str_eq m.message_type "connection_terminate"
      then (close c 1000 "terminated", false)
      else (
        close (write c (connection_error "unexpected message %s" (m.message_type ∷ []))) 1002
            "unexpected message",
        false,
      )

  -- `init`: whether the loop of `run` is entered.
  unfoldable pub init : Connection → Read → Connection × Bool
  unfolding read_op init_message
  init c r = let (c', m) = read_op c r in init_message c' m

  abbrev pub new_connection : Connection
  new_connection = record {
    is_open = true;
    output = [];
    active = [];
    running = [];
    cancelled = [];
    init_payload = none;
    next = 0;
  }

  -- The entry of a map, its assignment and its deletion.
  abbrev pub closer : List (String × ℕ) → String → Option ℕ
  closer [] id = none
  closer ((k, n) ∷ m) id = if str_eq k id then some n else closer m id

  abbrev pub without : List (String × ℕ) → String → List (String × ℕ)
  without [] id = []
  without ((k, n) ∷ m) id = if str_eq k id then without m id else (k, n) ∷ without m id

  -- A start message takes a number.
  abbrev pub numbered : Connection → Connection
  numbered c = record c { next = suc c.next }

  abbrev pub refuse : Connection → String → ErrorKind → List GqlError → Connection
  refuse c id protocol errs =
      write (write (numbered c) (error_message c.next id (dispatch_error errs)))
        (complete_message c.next id)
  refuse c id user errs =
      write (write (numbered c) (data_message c.next id (error_response errs)))
        (complete_message c.next id)

  -- The goroutine is started.
  abbrev pub launch : Connection → String → Connection
  launch c id = record (numbered c) {
    active = (id, c.next) ∷ without c.active id;
    running = record { number = c.next; id = id } ∷ c.running;
  }

  unfoldable pub subscribe_with : Connection → String → List GqlError → Connection
  subscribe_with c id [] = launch c id
  subscribe_with c id (err ∷ errs) =
      refuse c id (get_error_kind code_type (err ∷ errs)) (err ∷ errs)

  unfoldable pub subscribe_decoded :
      Connection → String → Option (Option Params) → Outcome Connection
  unfolding subscribe_with
  subscribe_decoded c id none = ok (
      write
        (write (numbered c) (
          error_message c.next id
            (record { message = "invalid json"; path = none; code = none } ∷ [])))
        (complete_message c.next id))
  subscribe_decoded c id (some none) = panic "nil pointer dereference"
  subscribe_decoded c id (some (some params)) = ok (subscribe_with c id (create params))

  unfoldable pub subscribe : Connection → OperationMessage → Outcome Connection
  unfolding subscribe_decoded
  subscribe c m = subscribe_decoded c m.id (decode_params m.payload)

  abbrev pub call : Option ℕ → Connection → Connection
  call none c = c
  call (some n) c = record c { cancelled = n ∷ c.cancelled }

  -- The end of `run`: its deferred functions.
  abbrev pub leave : Connection → Connection
  leave c = close c 1006 "unexpected closure"

  -- One round of the loop of `run`, and whether the loop goes on.
  unfoldable pub run_message : Connection → Option OperationMessage → Outcome (Connection × Bool)
  unfolding subscribe
  run_message c none = ok (leave c, false)
  run_message c (some m) =
      if str_eq m.message_type "start"
      then (subscribe c m >>= λ c'. ok (c', true))
      else if str_eq m.message_type "stop"
      then ok (call (closer c.active m.id) c, true)
      else if str_eq m.message_type "connection_terminate"
      then ok (leave (close c 1000 "terminated"), false)
      else ok (
        leave (
            close (write c (connection_error "unexpected message %s" (m.message_type ∷ []))) 1002
              "unexpected message"),
        false,
      )

  unfoldable pub run : Connection → Read → Outcome (Connection × Bool)
  unfolding read_op run_message
  run c r = let (c', m) = read_op c r in run_message c' m

  -- What a goroutine meets next: a response, the end, or a panic with the error for the user.
  pub data Event : Type 0 where
    responded : Response → Event
    ended : Event
    panicked : GqlError → Event

  abbrev pub stopped : List Subscription → ℕ → List Subscription
  stopped [] n = []
  stopped (s ∷ ss) n = if s.number == n then stopped ss n else s ∷ stopped ss n

  -- A goroutine's reaction. After a panic it neither completes nor gives up its entry.
  unfoldable pub proceed : Connection → Subscription → Event → Connection
  proceed c s (responded r) = write c (data_message s.number s.id r)
  proceed c s ended =
      let c' = write c (complete_message s.number s.id) in
      record c' {
        active = without c'.active s.id;
        running = stopped c'.running s.number;
        cancelled = s.number ∷ c'.cancelled;
      }
  proceed c s (panicked err) =
      let c' = write c (error_message s.number s.id (err ∷ [])) in
      record c' { running = stopped c'.running s.number }
