-- ===== src/Transport/Routing.antt =====
-- graphql/handler/server.go `getTransport`: which transport takes a request.
use fastgql.Prelude.{
  ◌≡◌, refl, sym, ◌∙◌, arith, String, Bool, true, false, not, ◌||◌, ◌⊎◌, inl, inr, Option, none,
  some, List, [], ◌∷◌, if◌then◌else◌, str_eq, str_eq_iff, Bool-cases,
}
use fastgql.Transport.{
  Request, Transport, get, post, multipart_form, options, websocket, is_media, supports,
  get_transport,
}

-- The kind of request that a transport is for.
pub data Kind : Type 0 where
  upgrade_kind : Kind
  get_kind : Kind
  json_kind : Kind
  form_kind : Kind
  options_kind : Kind
  other_kind : Kind

abbrev pub kind_of : Transport → Kind
kind_of get = get_kind
kind_of post = json_kind
kind_of (multipart_form size memory) = form_kind
kind_of options = options_kind
kind_of websocket = upgrade_kind

abbrev posted : Option String → Kind
posted none = other_kind
posted (some m) =
    if str_eq m "application/json"
    then json_kind
    else if str_eq m "multipart/form-data"
    then form_kind
    else other_kind

-- The kind of a request: the method of a request that asks for an upgrade is not looked at.
abbrev pub classify : Request → Kind
classify r =
    if not (str_eq r.upgrade "")
    then upgrade_kind
    else if str_eq r.method "GET"
    then get_kind
    else if str_eq r.method "POST"
    then posted r.media_type
    else if str_eq r.method "HEAD" || str_eq r.method "OPTIONS"
    then options_kind
    else other_kind

-- A text is not equal to two literals.
clash : (m a b : String) → str_eq a b ≡ false → str_eq m a ≡ true → str_eq m b ≡ false
clash m a b differ e = elim (Bool-cases (str_eq m b)) [
  | inl e' ↦
      let same = sym ((str_eq_iff m a).0 e) ∙ (str_eq_iff m b).0 e' in
      cc (sym differ ∙ (str_eq_iff a b).1 same)
  | inr e' ↦ e'
]

abbrev pub same_kind : Kind → Kind → Bool
same_kind upgrade_kind upgrade_kind = true
same_kind get_kind get_kind = true
same_kind json_kind json_kind = true
same_kind form_kind form_kind = true
same_kind options_kind options_kind = true
same_kind _ _ = false

-- The first transport for a kind of request.
abbrev pub first_for : Kind → List Transport → Option Transport
first_for k [] = none
first_for k (t ∷ ts) = if same_kind (kind_of t) k then some t else first_for k ts

-- A request that asks for no upgrade, or has a method other than HEAD and OPTIONS.
abbrev pub IsPlain : Request → Type 0
IsPlain r =
    (str_eq r.upgrade "" ≡ true) ⊎ ((str_eq r.method "HEAD" || str_eq r.method "OPTIONS") ≡ false)

supports-posted :
    (m : Option String)
    → (is_media m "application/json" ≡ same_kind json_kind (posted m))
      × (is_media m "multipart/form-data" ≡ same_kind form_kind (posted m))
      × (same_kind get_kind (posted m) ≡ false)
      × (same_kind options_kind (posted m) ≡ false)
      × (same_kind upgrade_kind (posted m) ≡ false)
supports-posted none = (refl, refl, refl, refl, refl)
supports-posted (some m) = elim (Bool-cases (str_eq m "application/json")) [
  | inl e ↦
      rw (e, clash m "application/json" "multipart/form-data" refl e) (refl, refl, refl, refl, refl)
  | inr e ↦ elim (Bool-cases (str_eq m "multipart/form-data")) [
    | inl e' ↦ rw (e, e') (refl, refl, refl, refl, refl)
    | inr e' ↦ rw (e, e') (refl, refl, refl, refl, refl)
  ]
]

-- What the tests of the method tell about one another.
methods_lem :
    (m : String)
    → (str_eq m "GET" ≡ true
        → (str_eq m "POST" ≡ false) × (str_eq m "HEAD" ≡ false) × (str_eq m "OPTIONS" ≡ false))
      × (str_eq m "POST" ≡ true → (str_eq m "HEAD" ≡ false) × (str_eq m "OPTIONS" ≡ false))
methods_lem m = (
  (λ e. (clash m "GET" "POST" refl e, clash m "GET" "HEAD" refl e, clash m "GET" "OPTIONS" refl e)),
  (λ e. (clash m "POST" "HEAD" refl e, clash m "POST" "OPTIONS" refl e)),
)

supports-kind :
    (t : Transport) (r : Request) → IsPlain r → supports t r ≡ same_kind (kind_of t) (classify r)
unfolding supports
supports-kind get r h = ground (arith, methods_lem r.method, supports-posted r.media_type)
supports-kind post r h = ground (arith, methods_lem r.method, supports-posted r.media_type)
supports-kind (multipart_form size memory) r h =
    ground (arith, methods_lem r.method, supports-posted r.media_type)
supports-kind options r h = ground (arith, methods_lem r.method, supports-posted r.media_type)
supports-kind websocket r h = ground (arith, methods_lem r.method, supports-posted r.media_type)

-- A request that asks for no upgrade, or has a method other than HEAD and OPTIONS, goes to the first
-- transport for its kind: the order of transports of different kinds does not matter, and with no
-- transport for its kind it has none.
get_transport-first_for :
    (transports : List Transport) (r : Request)
    → IsPlain r
    → get_transport transports r ≡ first_for (classify r) transports
unfolding get_transport
get_transport-first_for [] r h = refl
get_transport-first_for (t ∷ ts) r h = rw (supports-kind t r h, get_transport-first_for ts r h) refl
