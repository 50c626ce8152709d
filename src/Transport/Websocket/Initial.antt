-- ===== src/Transport/Websocket/Initial.antt =====
-- graphql/handler/transport/websocket.go: what `init` writes is in order.
use fastgql.Prelude.{
  ℕ, ◌≡◌, refl, Bool, true, false, inl, inr, Option, none, some, [], ◌∷◌, String, str_eq,
  Bool-cases,
}
use fastgql.Transport.Websocket.{
  Server, OperationMessage, Output, connection_ack, keep_alive, connection_error, Connection, write,
  close, Read, read_op, closed, broken, undecodable, message, judged, accept, init_with,
  init_message, new_connection,
}
use fastgql.Transport.Websocket.Ordering.{
  IsSoundConnection, number_of, completes, is_closing, write-IsSound, close-IsSound,
}

module _ (sv : Server) where
  -- Outputs about no operation.
  pub written-IsSound :
      (c : Connection sv) (o : Output sv)
      → number_of sv o ≡ none
      → ((n : ℕ) → completes sv o n ≡ false)
      → is_closing sv o ≡ false
      → IsSoundConnection sv c
      → IsSoundConnection sv (write sv c o)
  written-IsSound c o none_of plain not_closing s =
      write-IsSound sv o plain not_closing c.is_open c.output c.running c.next (λ n e. cc) s

  pub closed-IsSound :
      (c : Connection sv) (code : ℕ) (text : String)
      → IsSoundConnection sv c
      → IsSoundConnection sv (close sv c code text)
  closed-IsSound c code text s = close-IsSound sv c.is_open c.output c.running c.next code text s

  pub read_op-IsSound :
      (c : Connection sv) (r : Read sv)
      → IsSoundConnection sv c
      → IsSoundConnection sv (read_op sv c r).0
  unfolding read_op
  read_op-IsSound c closed s = s
  read_op-IsSound c (broken args) s =
      written-IsSound c (connection_error "invalid json: %T %s" args) refl (λ n. refl) refl s
  read_op-IsSound c undecodable s =
      written-IsSound c (connection_error "invalid json" []) refl (λ n. refl) refl s
  read_op-IsSound c (message m) s = s

  -- The connection after what `init` does.
  welcome-IsSound :
      (c : Connection sv)
      → IsSoundConnection sv c
      → IsSoundConnection sv (write sv (write sv c connection_ack) keep_alive)
  welcome-IsSound c s =
      written-IsSound (write sv c connection_ack) keep_alive refl (λ n. refl) refl
        (written-IsSound c connection_ack refl (λ n. refl) refl s)

  judged-IsSound :
      (c : Connection sv) (err : Option String)
      → IsSoundConnection sv c
      → IsSoundConnection sv (judged sv c err).0
  unfolding judged
  judged-IsSound c none s = welcome-IsSound c s
  judged-IsSound c (some err) s =
      closed-IsSound (write sv c (connection_error err [])) 1000 "terminated"
        (written-IsSound c (connection_error err []) refl (λ n. refl) refl s)

  accept-IsSound :
      (c : Connection sv) (payload : Option sv.InitPayload)
      (f : Option (Option sv.InitPayload → Option String))
      → IsSoundConnection sv c
      → IsSoundConnection sv (accept sv c payload f).0
  unfolding accept
  accept-IsSound c payload none s = judged-IsSound c none s
  accept-IsSound c payload (some f) s = judged-IsSound c (f payload) s

  init_with-IsSound :
      (c : Connection sv) (b : Bool) (decoded : Option sv.InitPayload)
      → IsSoundConnection sv c
      → IsSoundConnection sv (init_with sv c b decoded).0
  unfolding init_with
  init_with-IsSound c true decoded s = accept-IsSound c none sv.init_func s
  init_with-IsSound c false (some payload) s =
      accept-IsSound (record c { init_payload = some payload }) (some payload) sv.init_func s
  init_with-IsSound c false none s = s

  pub unexpected-IsSound :
      (c : Connection sv) (kind : String)
      → IsSoundConnection sv c
      → IsSoundConnection sv (
          close sv
            (write sv c (connection_error "unexpected message %s" (kind ∷ [])))
            1002
            "unexpected message")
  unexpected-IsSound c kind s =
      closed-IsSound (write sv c (connection_error "unexpected message %s" (kind ∷ []))) 1002
        "unexpected message"
        (written-IsSound c (connection_error "unexpected message %s" (kind ∷ [])) refl (λ n. refl)
          refl s)

  pub init_message-IsSound :
      (c : Connection sv) (m : Option (OperationMessage sv))
      → IsSoundConnection sv c
      → IsSoundConnection sv (init_message sv c m).0
  unfolding init_message
  init_message-IsSound c none s = closed-IsSound c 1002 "decoding error" s
  init_message-IsSound c (some m) s = elim (Bool-cases (str_eq m.message_type "connection_init")) [
    | inl e ↦ rw e (init_with-IsSound c (sv.is_empty m.payload) (sv.decode_init m.payload) s)
    | inr e ↦ elim (Bool-cases (str_eq m.message_type "connection_terminate")) [
      | inl e' ↦ rw (e, e') (closed-IsSound c 1000 "terminated" s)
      | inr e' ↦ rw (e, e') (unexpected-IsSound c m.message_type s)
    ]
  ]

  pub new_connection-IsSound : IsSoundConnection sv (new_connection sv)
  new_connection-IsSound = record { ordered = tt; unclosed = λ e. tt; live = tt; below = tt }
