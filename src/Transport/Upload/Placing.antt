-- ===== src/Transport/Upload/Placing.antt =====
-- graphql/handler.go: where `AddUpload` puts the upload.
use fastgql.Prelude.{
  ℕ, zero, suc, ◌≡◌, refl, inl, inr, Option, none, some, List, [], ◌∷◌, Bool-cases, take,
}
use fastgql.Prelude.Int.{ℤ, pos, negsuc, half_range}
use fastgql.Prelude.Outcome.{Outcome, ok, panic, out_of_fuel, ◌>>=◌, Ensures, Ensures-then}
use fastgql.Prelude.Text.{Bytes, codes, bytes_eq, bytes_eq_refl, parse_int}
use fastgql.Transport.Upload.{
  Json, null, leaf, upload, array, object, Items, no_items, item, Entries, no_entries, entry, Added,
  added, refused, split, entry_at, put_entry, item_at, put_item, into_item, into_entry, in_array,
  in_object, place, place_in, rest_of, add_upload,
}

anything : {A : Type 0} (r : Outcome A) → Ensures (λ a. Unit {0}) r
anything (ok a) = tt
anything (panic text) = tt
anything out_of_fuel = tt

module _ {U : Type 0} where
  -- The value at a path, read as the walk reads it.
  abbrev pub item_found : Option ℤ → Items U → Outcome (Json U)
  item_found none vs = panic "interface conversion"
  item_found (some (negsuc n)) vs = panic "index out of range"
  item_found (some (pos i)) vs = item_at vs i

  abbrev pub entry_found : Option ℤ → Entries U → Bytes → Outcome (Json U)
  entry_found none es p = ok (entry_at es p)
  entry_found (some i) es p = panic "interface conversion"

  abbrev pub value_at : Json U → List Bytes → Outcome (Json U)
  value_at v [] = ok v
  value_at (array vs) (p ∷ ps) = item_found (parse_int half_range p) vs >>= λ v. value_at v ps
  value_at (object es) (p ∷ ps) = entry_found (parse_int half_range p) es p >>= λ v. value_at v ps
  value_at _ (p ∷ ps) = panic "interface conversion"

  -- The upload is found where it was put.
  abbrev pub Finds : List Bytes → U → Added U → Type 0
  Finds ps u (added v) = value_at v ps ≡ ok (upload u)
  Finds ps u (refused text) = Unit

  entry_at-put_entry : (es : Entries U) (p : Bytes) (w : Json U) → entry_at (put_entry es p w) p ≡ w
  unfolding entry_at put_entry
  entry_at-put_entry no_entries p w = rw (bytes_eq_refl p) refl
  entry_at-put_entry (entry k v es) p w = elim (Bool-cases (bytes_eq k p)) [
    | inl e ↦ rw (e, e) refl
    | inr e ↦ rw (e, e) (entry_at-put_entry es p w)
  ]

  item_at-put_item :
      (vs : Items U) (i : ℕ) (w : Json U) → Ensures (λ vs'. item_at vs' i ≡ ok w) (put_item vs i w)
  unfolding item_at put_item
  item_at-put_item no_items i w = tt
  item_at-put_item (item v vs) zero w = refl
  item_at-put_item (item v vs) (suc i) w =
      Ensures-then (λ vs'. item_at vs' i ≡ ok w) (λ vs'. item_at vs' (suc i) ≡ ok w)
        (put_item vs i w) (λ vs'. ok (item v vs')) (λ vs' h. h) (item_at-put_item vs i w)

  into_item-Finds :
      (p : Bytes) (ps : List Bytes) (u : U) (vs : Items U) (i : ℕ) (a : Outcome (Added U))
      → parse_int half_range p ≡ some (pos i)
      → Ensures (Finds ps u) a
      → Ensures (Finds (p ∷ ps) u) (a >>= into_item vs i)
  into_item-Finds p ps u vs i (ok (added w)) e h =
      Ensures-then (λ vs'. item_at vs' i ≡ ok w) (Finds (p ∷ ps) u) (put_item vs i w)
        (λ vs'. ok (added (array vs'))) (λ vs' found. rw (e, found) h) (item_at-put_item vs i w)
  into_item-Finds p ps u vs i (ok (refused text)) e h = tt
  into_item-Finds p ps u vs i (panic text) e h = tt
  into_item-Finds p ps u vs i out_of_fuel e h = tt

  into_entry-Finds :
      (p : Bytes) (ps : List Bytes) (u : U) (es : Entries U) (a : Outcome (Added U))
      → parse_int half_range p ≡ none
      → Ensures (Finds ps u) a
      → Ensures (Finds (p ∷ ps) u) (a >>= into_entry es p)
  into_entry-Finds p ps u es (ok (added w)) e h = rw (e, entry_at-put_entry es p w) h
  into_entry-Finds p ps u es (ok (refused text)) e h = tt
  into_entry-Finds p ps u es (panic text) e h = tt
  into_entry-Finds p ps u es out_of_fuel e h = tt

  in_array-Finds :
      (p : Bytes) (ps : List Bytes) (u : U) (vs : Items U) (n : Option ℤ)
      → parse_int half_range p ≡ n
      → ((v : Json U) → Ensures (Finds ps u) (place v ps u))
      → Ensures
          (Finds (p ∷ ps) u)
          (in_array n (λ i. item_at vs i >>= λ v. place v ps u >>= into_item vs i))
  unfolding in_array
  in_array-Finds p ps u vs none e ih = tt
  in_array-Finds p ps u vs (some (negsuc n)) e ih = tt
  in_array-Finds p ps u vs (some (pos i)) e ih =
      Ensures-then (λ v. Unit {0}) (Finds (p ∷ ps) u) (item_at vs i)
        (λ v. place v ps u >>= into_item vs i)
        (λ v _. into_item-Finds p ps u vs i (place v ps u) e (ih v)) (anything (item_at vs i))

  in_object-Finds :
      (p : Bytes) (ps : List Bytes) (u : U) (es : Entries U) (n : Option ℤ)
      → parse_int half_range p ≡ n
      → Ensures (Finds ps u) (place (entry_at es p) ps u)
      → Ensures (Finds (p ∷ ps) u) (in_object n (place (entry_at es p) ps u >>= into_entry es p))
  unfolding in_object
  in_object-Finds p ps u es none e ih = into_entry-Finds p ps u es (place (entry_at es p) ps u) e ih
  in_object-Finds p ps u es (some i) e ih = tt

  place-Finds : (v : Json U) (ps : List Bytes) (u : U) → Ensures (Finds ps u) (place v ps u)
  unfolding place
  place-Finds v [] u = refl
  place-Finds null (p ∷ ps) u = tt
  place-Finds (leaf t) (p ∷ ps) u = tt
  place-Finds (upload w) (p ∷ ps) u = tt
  place-Finds (array vs) (p ∷ ps) u =
      in_array-Finds p ps u vs (parse_int half_range p) refl (λ v. place-Finds v ps u)
  place-Finds (object es) (p ∷ ps) u =
      in_object-Finds p ps u es (parse_int half_range p) refl (place-Finds (entry_at es p) ps u)

-- An upload that `AddUpload` takes for a path of given variables is found afterwards by reading the
-- variables along the path.
pub add_upload-Finds :
    {U : Type 0} (variables : Entries U) (u : U) (path : Bytes)
    → Ensures (Finds (rest_of (split path)) u) (add_upload (some variables) u path)
unfolding add_upload place_in
add_upload-Finds variables u path =
    elim (Bool-cases (bytes_eq (take 10 path) (codes "variables."))) [
      | inl e ↦ rw e (place-Finds (object variables) (rest_of (split path)) u)
      | inr e ↦ rw e tt
    ]
