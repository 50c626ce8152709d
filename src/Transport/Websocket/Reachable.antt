-- ===== src/Transport/Websocket/Reachable.antt =====
-- graphql/handler/transport/websocket.go: the connections that `Do` can reach.
use fastgql.Prelude.{
  ℕ, zero, suc, ◌≡◌, refl, ap, arith, Bool, true, false, inl, inr, Option, none, some, List, [],
  ◌∷◌, String, ◌==◌, str_eq, Bool-cases, some-injective, All, get_elem?,
}
use fastgql.Prelude.Outcome.{Outcome, ok, panic, out_of_fuel, ◌>>=◌, Ensures, Ensures-eq}
use fastgql.Graphql.Errors.{GqlError, code_type, get_error_kind}
use fastgql.Transport.Websocket.{
  Server, OperationMessage, Output, keep_alive, connection_error, data_message, error_message,
  Subscription, Connection, write, close, Read, read_op, init, new_connection, subscribe_with,
  subscribe_decoded, subscribe, call, closer, leave, run_message, run, Event, responded, ended,
  panicked, stopped, proceed,
}
use fastgql.Transport.Websocket.Ordering.{
  IsOrdered, IsSound, IsSoundConnection, IsLive, write-IsSound, complete-IsSound, answered-IsSound,
  refuse-IsSound, launch-IsSound,
}
use fastgql.Transport.Websocket.Initial.{
  written-IsSound, closed-IsSound, read_op-IsSound, unexpected-IsSound, init_message-IsSound,
  new_connection-IsSound,
}

module _ (sv : Server) where
  -- A step of the reader, of a goroutine or of the ticker; the flag tells whether the loop of `run`
  -- still reads.
  pub data Step : Connection sv × Bool → Connection sv × Bool → Type 0 where
    reads :
        {c c' : Connection sv} {go : Bool} (r : Read sv)
        → run sv c r ≡ ok (c', go)
        → Step (c, true) (c', go)
    proceeds :
        {c : Connection sv} {go : Bool} (i : ℕ) (s : Subscription sv) (e : Event sv)
        → get_elem? c.running i ≡ some s
        → Step (c, go) (proceed sv c s e, go)
    ticks : {c : Connection sv} {go : Bool} → Step (c, go) (write sv c keep_alive, go)

  pub data Reachable : Connection sv × Bool → Type 0 where
    opened :
        {c : Connection sv} {go : Bool} (r : Read sv)
        → init sv (new_connection sv) r ≡ (c, go)
        → Reachable (c, go)
    stepped : {a b : Connection sv × Bool} → Reachable a → Step a b → Reachable b

  subscribe_with-IsSound :
      (c : Connection sv) (id : String) (errs : List GqlError)
      → IsSoundConnection sv c
      → IsSoundConnection sv (subscribe_with sv c id errs)
  unfolding subscribe_with
  subscribe_with-IsSound c id [] s = launch-IsSound sv c id s
  subscribe_with-IsSound c id (err ∷ errs) s =
      refuse-IsSound sv c id (get_error_kind code_type (err ∷ errs)) (err ∷ errs) s

  subscribe_decoded-IsSound :
      (c : Connection sv) (id : String) (p : Option (Option sv.Params))
      → IsSoundConnection sv c
      → Ensures (IsSoundConnection sv) (subscribe_decoded sv c id p)
  unfolding subscribe_decoded
  subscribe_decoded-IsSound c id none s =
      answered-IsSound sv c id
        (error_message c.next id
          (record { message = "invalid json"; path = none; code = none } ∷ []))
        (λ n. refl) refl refl s
  subscribe_decoded-IsSound c id (some none) s = tt
  subscribe_decoded-IsSound c id (some (some params)) s =
      subscribe_with-IsSound c id (sv.create params) s

  abbrev IsSoundResult : Connection sv × Bool → Type 0
  IsSoundResult (c, go) = IsSoundConnection sv c

  call-IsSound :
      (n : Option ℕ) (c : Connection sv)
      → IsSoundConnection sv c
      → IsSoundConnection sv (call sv n c)
  call-IsSound none c s = s
  call-IsSound (some n) c s = s

  leave-IsSound : (c : Connection sv) → IsSoundConnection sv c → IsSoundConnection sv (leave sv c)
  leave-IsSound c s = closed-IsSound sv c 1006 "unexpected closure" s

  Ensures-going :
      (r : Outcome (Connection sv)) (go : Bool)
      → Ensures (IsSoundConnection sv) r
      → Ensures IsSoundResult (r >>= λ c. ok (c, go))
  Ensures-going (ok c) go s = s
  Ensures-going (panic text) go s = tt
  Ensures-going out_of_fuel go s = tt

  run_message-IsSound :
      (c : Connection sv) (m : Option (OperationMessage sv))
      → IsSoundConnection sv c
      → Ensures IsSoundResult (run_message sv c m)
  unfolding run_message subscribe
  run_message-IsSound c none s = leave-IsSound c s
  run_message-IsSound c (some m) s = elim (Bool-cases (str_eq m.message_type "start")) [
    | inl e ↦ rw e (
        Ensures-going (subscribe_decoded sv c m.id (sv.decode_params m.payload)) true
          (subscribe_decoded-IsSound c m.id (sv.decode_params m.payload) s))
    | inr e ↦ elim (Bool-cases (str_eq m.message_type "stop")) [
      | inl e' ↦ rw (e, e') (call-IsSound (closer sv c.active m.id) c s)
      | inr e' ↦ elim (Bool-cases (str_eq m.message_type "connection_terminate")) [
        | inl e'' ↦
            rw (e, e', e'')
              (leave-IsSound (close sv c 1000 "terminated")
                (closed-IsSound sv c 1000 "terminated" s))
        | inr e'' ↦
            rw (e, e', e'')
              (leave-IsSound
                (close sv
                  (write sv c (connection_error "unexpected message %s" (m.message_type ∷ []))) 1002
                  "unexpected message")
                (unexpected-IsSound sv c m.message_type s))
      ]
    ]
  ]

  -- A running operation is live; stopping one keeps the others.
  running-IsLive :
      (os : List (Output sv)) (k i : ℕ) (running : List (Subscription sv)) (s : Subscription sv)
      → get_elem? running i ≡ some s
      → All (IsLive sv os k) running
      → IsLive sv os k s
  running-IsLive os k i [] s e h = cc
  running-IsLive os k zero (r ∷ running) s e (h, hs) = rw (← some-injective e) h
  running-IsLive os k (suc i) (r ∷ running) s e (h, hs) = running-IsLive os k i running s e hs

  stopped-IsLive :
      (os : List (Output sv)) (k n : ℕ) (running : List (Subscription sv))
      → All (IsLive sv os k) running
      → All (IsLive sv os k) (stopped sv running n)
        × All (λ r. (n == Subscription.number r) ≡ false) (stopped sv running n)
  stopped-IsLive os k n [] h = (tt, tt)
  stopped-IsLive os k n (r ∷ running) (h, hs) = elim (Bool-cases (r.number == n)) [
    | inl e ↦ rw e (stopped-IsLive os k n running hs)
    | inr e ↦
        let (kept, idle) = stopped-IsLive os k n running hs in
        rw e ((h, kept), (ground arith, idle))
  ]

  stopped-IsSound :
      (b : Bool) (os : List (Output sv)) (running : List (Subscription sv)) (k n : ℕ)
      → IsSound sv b os running k
      → IsSound sv b os (stopped sv running n) k
  stopped-IsSound b os running k n s = record {
    ordered = s.ordered;
    unclosed = s.unclosed;
    live = (stopped-IsLive os k n running s.live).0;
    below = s.below;
  }

  proceed-IsSound :
      (c : Connection sv) (i : ℕ) (sub : Subscription sv) (e : Event sv)
      → get_elem? c.running i ≡ some sub
      → IsSoundConnection sv c
      → IsSoundConnection sv (proceed sv c sub e)
  unfolding proceed
  proceed-IsSound c i sub (responded r) found s =
      let (fits, open_now) = running-IsLive c.output c.next i c.running sub found s.live in
      write-IsSound sv (data_message sub.number sub.id r) (λ n. refl) refl c.is_open c.output
        c.running c.next (λ n e. rw (← some-injective e) open_now) s
  proceed-IsSound c i sub ended found s =
      let (fits, open_now) = running-IsLive c.output c.next i c.running sub found s.live in
      complete-IsSound sv c.is_open c.output (stopped sv c.running sub.number) c.next sub.number
        sub.id fits open_now (stopped-IsLive c.output c.next sub.number c.running s.live).1
        (stopped-IsSound c.is_open c.output c.running c.next sub.number s)
  proceed-IsSound c i sub (panicked err) found s =
      let (fits, open_now) = running-IsLive c.output c.next i c.running sub found s.live in
      stopped-IsSound c.is_open _ c.running c.next sub.number (
        write-IsSound sv (error_message sub.number sub.id (err ∷ [])) (λ n. refl) refl c.is_open
          c.output c.running c.next (λ n e. rw (← some-injective e) open_now) s)

  Step-IsSound :
      {a b : Connection sv × Bool} → Step a b → IsSoundConnection sv a.0 → IsSoundConnection sv b.0
  unfolding run
  Step-IsSound (reads {c = c} {c' = c'} {go = go} r e) s =
      let (c'', m) = read_op sv c r in
      Ensures-eq IsSoundResult (run_message sv c'' m) (c', go) e
        (run_message-IsSound c'' m (read_op-IsSound sv c r s))
  Step-IsSound (proceeds {c = c} i sub e found) s = proceed-IsSound c i sub e found s
  Step-IsSound (ticks {c = c}) s = written-IsSound sv c keep_alive refl (λ n. refl) refl s

  Reachable-IsSound : {a : Connection sv × Bool} → Reachable a → IsSoundConnection sv a.0
  unfolding init
  Reachable-IsSound (opened r e) = rw (← ap (λ x. x.0) e) (
      init_message-IsSound sv (read_op sv (new_connection sv) r).0
        (read_op sv (new_connection sv) r).1
        (read_op-IsSound sv (new_connection sv) r (new_connection-IsSound sv)))
  Reachable-IsSound (stepped h step) = Step-IsSound step (Reachable-IsSound h)

-- Whatever the client sends and however the goroutines, the reader and the ticker take turns: nothing
-- is written after the close message, and nothing about an operation after its complete message.
pub Reachable-IsOrdered :
    (sv : Server) (c : Connection sv) (go : Bool) → Reachable sv (c, go) → IsOrdered sv c.output
Reachable-IsOrdered sv c go h = IsSound.ordered (Reachable-IsSound sv h)
