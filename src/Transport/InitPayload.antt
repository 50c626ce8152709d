-- ===== src/Transport/InitPayload.antt =====
-- graphql/handler/transport/websocket_init.go: reading a payload of `connection_init`.
use fastgql.Prelude.{
  ◌≡◌, refl, String, List, [], ◌∷◌, if◌then◌else◌, str_eq, str_eq_iff, not, ◌↔◌, Bool-cases, inl,
  inr,
}

-- A value that is a string, or another one.
pub data Value : Type 0 where
  text : String → Value
  other : Value

abbrev text_of : Value → String
text_of (text s) = s
text_of other = ""

-- The payload; a nil map has no entry.
abbrev pub InitPayload : Type 0
InitPayload = List (String × Value)

unfoldable pub get_string : InitPayload → String → String
get_string [] key = ""
get_string ((k, v) ∷ p) key = if str_eq k key then text_of v else get_string p key

unfoldable pub authorization : InitPayload → String
unfolding get_string
authorization p =
    if not (str_eq (get_string p "Authorization") "")
    then get_string p "Authorization"
    else if not (str_eq (get_string p "authorization") "")
    then get_string p "authorization"
    else ""

-- The header is empty exactly if both spellings are missing, not strings, or empty.
authorization-get_string :
    (p : InitPayload)
    → (authorization p ≡ "")
      ↔ ((get_string p "Authorization" ≡ "") × (get_string p "authorization" ≡ ""))
unfolding authorization
authorization-get_string p = elim (Bool-cases (str_eq (get_string p "Authorization") "")) [
  | inl e ↦ elim (Bool-cases (str_eq (get_string p "authorization") "")) [
    | inl e' ↦
        rw (e, e')
          (
            (λ h. (
              (str_eq_iff (get_string p "Authorization") "").0 e,
              (str_eq_iff (get_string p "authorization") "").0 e',
            )),
            (λ h. refl),
          )
    | inr e' ↦
        rw (e, e') ((λ h. ((str_eq_iff (get_string p "Authorization") "").0 e, h)), (λ h. h.1))
  ]
  | inr e ↦
      rw e ((λ h. let t = (str_eq_iff (get_string p "Authorization") "").1 h in cc), (λ h. h.0))
]
