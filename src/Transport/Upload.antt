-- ===== src/Transport/Upload.antt =====
-- graphql/handler.go: `AddUpload`. A JSON value is changed in place, so the variables after the call are
-- the value that is returned; a type assertion that fails and an index out of bounds are panics.
pub mod Placing
use fastgql.Prelude.{
  ℕ, zero, suc, ◌≡◌, refl, String, Bool, true, false, Option, none, some, List, [], ◌∷◌,
  if◌then◌else◌, ◌==◌, take,
}
use fastgql.Prelude.Int.{ℤ, pos, negsuc, half_range}
use fastgql.Prelude.Outcome.{Outcome, ok, panic, ◌>>=◌}
use fastgql.Prelude.Text.{Bytes, codes, bytes_eq, parse_int}

-- A value of encoding/json (a leaf is a text, a number or a Boolean) with uploads U in it.
mutual
  pub data Json (U : Type 0) : Type 0 where
    null : Json U
    leaf : Bytes → Json U
    upload : U → Json U
    array : Items U → Json U
    object : Entries U → Json U

  pub data Items (U : Type 0) : Type 0 where
    no_items : Items U
    item : Json U → Items U → Items U

  pub data Entries (U : Type 0) : Type 0 where
    no_entries : Entries U
    entry : Bytes → Json U → Entries U → Entries U

-- What `AddUpload` returns, with the variables as they are then.
pub data Added (U : Type 0) : Type 0 where
  added : Json U → Added U
  refused : String → Added U

-- `strings.Split` at dots.
abbrev onto : ℕ → List Bytes → List Bytes
onto c [] = (c ∷ []) ∷ []
onto c (s ∷ ss) = (c ∷ s) ∷ ss

unfoldable pub split : Bytes → List Bytes
split [] = [] ∷ []
split (c ∷ s) = if c == b'.' then [] ∷ split s else onto c (split s)

abbrev pub rest_of : List Bytes → List Bytes
rest_of [] = []
rest_of (s ∷ ss) = ss

abbrev wrong : {A : Type 0} → Outcome A
wrong = panic "interface conversion"

module _ {U : Type 0} where
  -- `m[p]`, null for a key that is missing, and `m[p] = v`.
  unfoldable pub entry_at : Entries U → Bytes → Json U
  entry_at no_entries p = null
  entry_at (entry k v es) p = if bytes_eq k p then v else entry_at es p

  unfoldable pub put_entry : Entries U → Bytes → Json U → Entries U
  put_entry no_entries p w = entry p w no_entries
  put_entry (entry k v es) p w = if bytes_eq k p then entry k w es else entry k v (put_entry es p w)

  unfoldable pub item_at : Items U → ℕ → Outcome (Json U)
  item_at no_items i = panic "index out of range"
  item_at (item v vs) zero = ok v
  item_at (item v vs) (suc i) = item_at vs i

  unfoldable pub put_item : Items U → ℕ → Json U → Outcome (Items U)
  put_item no_items i w = panic "index out of range"
  put_item (item v vs) zero w = ok (item w vs)
  put_item (item v vs) (suc i) w = put_item vs i w >>= λ vs'. ok (item v vs')

  -- The walk under one place gives its new value, which is put back.
  abbrev pub into_item : Items U → ℕ → Added U → Outcome (Added U)
  into_item vs i (added w) = put_item vs i w >>= λ vs'. ok (added (array vs'))
  into_item vs i (refused text) = ok (refused text)

  abbrev pub into_entry : Entries U → Bytes → Added U → Outcome (Added U)
  into_entry es p (added w) = ok (added (object (put_entry es p w)))
  into_entry es p (refused text) = ok (refused text)

  unfoldable pub in_array : Option ℤ → (ℕ → Outcome (Added U)) → Outcome (Added U)
  in_array none f = wrong
  in_array (some (negsuc n)) f = panic "index out of range"
  in_array (some (pos i)) f = f i

  unfoldable pub in_object : Option ℤ → Outcome (Added U) → Outcome (Added U)
  in_object none r = r
  in_object (some i) r = wrong

  -- The loop over the parts; after the last one, the place has the upload.
  unfoldable pub place : Json U → List Bytes → U → Outcome (Added U)
  unfolding put_entry put_item in_array in_object
  place v [] u = ok (added (upload u))
  place null (p ∷ ps) u = ok (refused "path is missing \"variables.\" prefix")
  place (leaf t) (p ∷ ps) u = wrong
  place (upload v) (p ∷ ps) u = wrong
  place (array vs) (p ∷ ps) u =
      in_array (parse_int half_range p) (λ i. item_at vs i >>= λ v. place v ps u >>= into_item vs i)
  place (object es) (p ∷ ps) u =
      in_object (parse_int half_range p) (place (entry_at es p) ps u >>= into_entry es p)

  -- The variables are a map, which can be nil: it has no entry and takes none.
  unfoldable pub place_in : Option (Entries U) → List Bytes → U → Outcome (Added U)
  unfolding place
  place_in (some es) ps u = place (object es) ps u
  place_in none [] u = ok (added (upload u))
  place_in none (p ∷ []) u =
      in_object (parse_int half_range p) (panic "assignment to entry in nil map")
  place_in none (p ∷ q ∷ ps) u =
      in_object (parse_int half_range p) (ok (refused "path is missing \"variables.\" prefix"))

  unfoldable pub add_upload : Option (Entries U) → U → Bytes → Outcome (Added U)
  unfolding place_in split
  add_upload variables u path =
      if bytes_eq (take 10 path) (codes "variables.")
      then place_in variables (rest_of (split path)) u
      else ok (refused "invalid operations paths")
