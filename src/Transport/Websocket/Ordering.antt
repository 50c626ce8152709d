-- ===== src/Transport/Websocket/Ordering.antt =====
-- graphql/handler/transport/websocket.go: the order of what a connection writes, whatever the client
-- sends and however the goroutines of its operations take turns.
use fastgql.Prelude.{
  ℕ, suc, ◌<◌, ◌≡◌, refl, sym, ◌∙◌, arith, Bool, true, false, ◌||◌, inl, inr, Option, none, some,
  List, [], ◌∷◌, if◌then◌else◌, String, ◌==◌, Bool-cases, Option-cases, some-injective, All,
}
use fastgql.Graphql.Errors.{GqlError, ErrorKind, protocol, user}
use fastgql.Transport.Websocket.{
  Server, Output, closing, data_message, error_message, complete_message, Subscription, Connection,
  write, numbered, refuse, launch,
}

module _ (sv : Server) where
  -- The number of the operation that an output is about.
  abbrev pub number_of : Output sv → Option ℕ
  number_of (data_message n id r) = some n
  number_of (error_message n id errs) = some n
  number_of (complete_message n id) = some n
  number_of _ = none

  abbrev pub completes : Output sv → ℕ → Bool
  completes (complete_message n id) m = n == m
  completes _ m = false

  abbrev pub is_closing : Output sv → Bool
  is_closing (closing code text) = true
  is_closing _ = false

  abbrev pub about : (ℕ → Bool) → Option ℕ → Bool
  about f none = false
  about f (some n) = f n

  -- Whether nothing like `o` may follow `p`.
  abbrev pub blocks : Output sv → Output sv → Bool
  blocks p o = is_closing p || about (completes p) (number_of o)

  -- Nothing follows a close message, and nothing about an operation follows its complete message.
  abbrev pub IsOrdered : List (Output sv) → Type 0
  IsOrdered [] = Unit
  IsOrdered (o ∷ earlier) = All (λ p. blocks p o ≡ false) earlier × IsOrdered earlier

  abbrev pub IsUnfinished : List (Output sv) → ℕ → Type 0
  IsUnfinished os n = All (λ p. completes p n ≡ false) os

  abbrev pub IsBelow : ℕ → Output sv → Type 0
  IsBelow k p = (n : ℕ) → completes p n ≡ true → n < k

  abbrev pub IsLive : List (Output sv) → ℕ → Subscription sv → Type 0
  IsLive os k s = (s.number < k) × IsUnfinished os s.number

  pub record IsSound (is_open : Bool) (os : List (Output sv)) (running : List (Subscription sv))
      (k : ℕ) : Type 0 where
    pub ordered : IsOrdered os
    pub unclosed : is_open ≡ true → All (λ p. is_closing p ≡ false) os
    pub live : All (IsLive os k) running
    pub below : All (IsBelow k) os

  abbrev pub IsSoundConnection : Connection sv → Type 0
  IsSoundConnection c = IsSound c.is_open c.output c.running c.next

  unblocked :
      (os : List (Output sv)) (o : Output sv)
      → All (λ p. is_closing p ≡ false) os
      → ((n : ℕ) → number_of o ≡ some n → IsUnfinished os n)
      → All (λ p. blocks p o ≡ false) os
  unblocked [] o h h' = tt
  unblocked (p ∷ os) o (open_now, h) h' = (
    elim (Option-cases (number_of o)) [
      | inl none_of ↦ rw (none_of, open_now) refl
      | inr (n, some_of) ↦ rw (some_of, open_now) (h' n some_of).0
    ],
    unblocked os o h (λ n e. (h' n e).1),
  )

  All-map :
      {A : Type 0} (P Q : A → Type 0) (xs : List A) → ((x : A) → P x → Q x) → All P xs → All Q xs
  All-map P Q [] f h = tt
  All-map P Q (x ∷ xs) f (px, h) = (f x px, All-map P Q xs f h)

  -- Writing what completes nothing, about an operation that is not finished.
  module _ (o : Output sv) (plain : (n : ℕ) → completes o n ≡ false)
      (not_closing : is_closing o ≡ false) where
    pub write-IsSound :
        (b : Bool) (os : List (Output sv)) (running : List (Subscription sv)) (k : ℕ)
        → ((n : ℕ) → number_of o ≡ some n → IsUnfinished os n)
        → IsSound b os running k
        → IsSound b (if b then o ∷ os else os) running k
    write-IsSound false os running k h s = s
    write-IsSound true os running k h s = record {
      ordered = (unblocked os o (s.unclosed refl) h, s.ordered);
      unclosed = λ e. (not_closing, s.unclosed refl);
      live =
          All-map (IsLive os k) (IsLive (o ∷ os) k) running
            (λ r alive. (alive.0, (plain r.number, alive.1))) s.live;
      below = ((λ n e. ground (arith, plain n)), s.below);
    }

    write-IsUnfinished :
        (b : Bool) (os : List (Output sv)) (n : ℕ)
        → IsUnfinished os n
        → IsUnfinished (if b then o ∷ os else os) n
    write-IsUnfinished true os n h = (plain n, h)
    write-IsUnfinished false os n h = h

  idle-IsLive :
      (os : List (Output sv)) (k n : ℕ) (id : String) (running : List (Subscription sv))
      → All (λ r. (n == Subscription.number r) ≡ false) running
      → All (IsLive os k) running
      → All (IsLive (complete_message n id ∷ os) k) running
  idle-IsLive os k n id [] idle live = tt
  idle-IsLive os k n id (r ∷ running) (other, idle) ((fits, unfinished), live) =
      ((fits, (other, unfinished)), idle-IsLive os k n id running idle live)

  -- Completing an operation that does not run.
  pub complete-IsSound :
      (b : Bool) (os : List (Output sv)) (running : List (Subscription sv)) (k n : ℕ) (id : String)
      → n < k
      → IsUnfinished os n
      → All (λ r. (n == Subscription.number r) ≡ false) running
      → IsSound b os running k
      → IsSound b (if b then complete_message n id ∷ os else os) running k
  complete-IsSound false os running k n id fits h idle s = s
  complete-IsSound true os running k n id fits h idle s = record {
    ordered = (
      unblocked os (complete_message n id) (s.unclosed refl) (λ m e. rw (← some-injective e) h),
      s.ordered,
    );
    unclosed = λ e. (refl, s.unclosed refl);
    live = idle-IsLive os k n id running idle s.live;
    below = ((λ m e. ground arith), s.below);
  }

  pub close-IsSound :
      (b : Bool) (os : List (Output sv)) (running : List (Subscription sv)) (k code : ℕ)
      (text : String)
      → IsSound b os running k
      → IsSound false (if b then closing code text ∷ os else os) running k
  close-IsSound false os running k code text s = record {
    ordered = s.ordered;
    unclosed = λ e. cc;
    live = s.live;
    below = s.below;
  }
  close-IsSound true os running k code text s = record {
    ordered = (unblocked os (closing code text) (s.unclosed refl) (λ m e. cc), s.ordered);
    unclosed = λ e. cc;
    live =
        All-map (IsLive os k) (IsLive (closing code text ∷ os) k) running
          (λ r alive. (alive.0, (refl, alive.1))) s.live;
    below = ((λ m e. cc), s.below);
  }

  -- A number that no start message has had.
  fresh-IsUnfinished : (os : List (Output sv)) (k : ℕ) → All (IsBelow k) os → IsUnfinished os k
  fresh-IsUnfinished [] k h = tt
  fresh-IsUnfinished (p ∷ os) k (h, hs) = (
    elim (Bool-cases (completes p k)) [ inl e ↦ ground (arith, h k e) | inr e ↦ e ],
    fresh-IsUnfinished os k hs,
  )

  numbered-IsSound :
      (b : Bool) (os : List (Output sv)) (running : List (Subscription sv)) (k : ℕ)
      → IsSound b os running k
      → IsSound b os running (suc k)
  numbered-IsSound b os running k s = record {
    ordered = s.ordered;
    unclosed = s.unclosed;
    live =
        All-map (IsLive os k) (IsLive os (suc k)) running
          (λ r alive. (omega (arith, alive.0), alive.1)) s.live;
    below = All-map (IsBelow k) (IsBelow (suc k)) os (λ p h n e. omega (arith, h n e)) s.below;
  }

  -- An operation with a new number is not one that runs.
  fresh-idle :
      (os : List (Output sv)) (k : ℕ) (running : List (Subscription sv))
      → All (IsLive os k) running
      → All (λ r. (k == Subscription.number r) ≡ false) running
  fresh-idle os k [] live = tt
  fresh-idle os k (r ∷ running) ((fits, unfinished), live) =
      (ground (arith, fits), fresh-idle os k running live)

  -- What a start message that starts nothing causes.
  pub answered-IsSound :
      (c : Connection sv) (id : String) (o : Output sv)
      → ((n : ℕ) → completes o n ≡ false)
      → is_closing o ≡ false
      → number_of o ≡ some c.next
      → IsSoundConnection c
      → IsSoundConnection (write sv (write sv (numbered sv c) o) (complete_message c.next id))
  answered-IsSound c id o plain not_closing own s =
      let fresh = fresh-IsUnfinished c.output c.next s.below in
      let s' = numbered-IsSound c.is_open c.output c.running c.next s in
      complete-IsSound c.is_open (if c.is_open then o ∷ c.output else c.output) c.running
        (suc c.next) c.next id (omega arith)
        (write-IsUnfinished o plain not_closing c.is_open c.output c.next fresh)
        (fresh-idle c.output c.next c.running s.live)
        (write-IsSound o plain not_closing c.is_open c.output c.running (suc c.next)
          (λ n e. rw (← some-injective (sym own ∙ e)) fresh) s')

  pub refuse-IsSound :
      (c : Connection sv) (id : String) (kind : ErrorKind) (errs : List GqlError)
      → IsSoundConnection c
      → IsSoundConnection (refuse sv c id kind errs)
  refuse-IsSound c id protocol errs s =
      answered-IsSound c id (error_message c.next id (sv.dispatch_error errs)) (λ n. refl) refl refl
        s
  refuse-IsSound c id user errs s =
      answered-IsSound c id (data_message c.next id (sv.error_response errs)) (λ n. refl) refl refl
        s

  pub launch-IsSound :
      (c : Connection sv) (id : String) → IsSoundConnection c → IsSoundConnection (launch sv c id)
  launch-IsSound c id s =
      let s' = numbered-IsSound c.is_open c.output c.running c.next s in
      record {
        ordered = s'.ordered;
        unclosed = s'.unclosed;
        live = ((omega arith, fresh-IsUnfinished c.output c.next s.below), s'.live);
        below = s'.below;
      }
