-- ===== src/Transport/Form.antt =====
-- graphql/handler/transport/http_form.go: the loop of `MultipartForm.Do` over the map of the form. The
-- map comes as the list of its entries in the order of the iteration; the files and the disk are
-- parameters.
use fastgql.Prelude.{
  ◌≡◌, ◌≢◌, refl, String, Bool, true, ◌⊎◌, inl, inr, Option, none, some, List, [], ◌∷◌,
  if◌then◌else◌, All,
}
use fastgql.Prelude.Outcome.{Outcome, ok, ◌>>=◌, Ensures, Ensures-then, Ensures-intro, Ensures-map}
use fastgql.Prelude.Text.{Bytes}
use fastgql.Transport.Upload.{Json, object, Entries, Added, added, refused, add_upload}

-- What `FormFile` with `Open` gives for a key, and whether the steps with a file succeed: reading it,
-- making the temporary file, copying to it and closing it, and opening it for a path.
pub record Disk : Type 1 where
  pub File : Type 0
  pub form_file : Bytes → Option File
  pub can_read : Bytes → Bool
  pub can_create : Bytes → Bool
  pub can_copy : Bytes → Bool
  pub can_close : Bytes → Bool
  pub can_open : Bytes → Bytes → Bool

module _ (d : Disk) where
  open d use {File, form_file, can_read, can_create, can_copy, can_close, can_open}

  abbrev pub Variables : Type 0
  Variables = Option (Entries File)

  -- The variables after a path, or the text of the reply.
  abbrev pub Step : Type 0
  Step = Outcome (Variables ⊎ String)

  abbrev variables_of : Json File → Variables
  variables_of (object es) = some es
  variables_of _ = none

  abbrev uploaded : Added File → Variables ⊎ String
  uploaded (added v) = inl (variables_of v)
  uploaded (refused text) = inr text

  -- One step after another, until one replies.
  abbrev pub then_step : (Variables → Step) → Variables ⊎ String → Step
  then_step next (inl v) = next v
  then_step next (inr text) = ok (inr text)

  -- The loop over the paths of a key.
  unfoldable pub add_paths : (Bytes → Bool) → File → List Bytes → Variables → Step
  add_paths opens file [] v = ok (inl v)
  add_paths opens file (path ∷ paths) v =
      let next = then_step (λ v'. add_paths opens file paths v') in
      if opens path
      then (add_upload v file path >>= λ a. next (uploaded a))
      else ok (inr "failed to open temp file for key")

  abbrev always : Bytes → Bool
  always path = true

  -- Several paths of a file that goes to the disk.
  unfoldable pub add_stored : Bytes → File → List Bytes → Variables → Step
  unfolding add_paths
  add_stored key file paths v =
      if can_create key
      then (if can_copy key
          then (if can_close key
              then add_paths (can_open key) file paths v
              else ok (inr "failed to close temp file for key"))
          else (if can_close key
              then ok (inr "failed to copy to temp file for key")
              else ok (inr "failed to copy to temp file and close temp file for key")))
      else ok (inr "failed to create temp file for key")

  -- The body of the loop once the file is there; `small` tells whether the body of the request is below
  -- the memory limit.
  unfoldable pub add_file : Bool → Bytes → File → List Bytes → Variables → Step
  unfolding add_stored
  add_file small key file [] v = ok (inr "invalid empty operations paths list for key")
  add_file small key file (path ∷ []) v = add_paths always file (path ∷ []) v
  add_file small key file (path ∷ path' ∷ paths) v =
      if small
      then (if can_read key
          then add_paths always file (path ∷ path' ∷ paths) v
          else ok (inr "failed to read file for key"))
      else add_stored key file (path ∷ path' ∷ paths) v

  unfoldable pub add_key : Bool → Bytes → Option File → List Bytes → Variables → Step
  unfolding add_file
  add_key small key found [] v = ok (inr "invalid empty operations paths list for key")
  add_key small key none (path ∷ paths) v = ok (inr "failed to get key from form")
  add_key small key (some file) (path ∷ paths) v = add_file small key file (path ∷ paths) v

  unfoldable pub add_files : Bool → List (Bytes × List Bytes) → Variables → Step
  unfolding add_key
  add_files small [] v = ok (inl v)
  add_files small ((key, paths) ∷ uploads) v =
      add_key small key (form_file key) paths v >>= then_step (λ v'. add_files small uploads v')

  -- A key that can be taken: it has a path and a file.
  abbrev pub IsGiven : Bytes × List Bytes → Type 0
  IsGiven (key, paths) = (paths ≢ []) × (form_file key ≢ none)

  -- What success shows.
  abbrev pub Takes : List (Bytes × List Bytes) → Variables ⊎ String → Type 0
  Takes uploads (inl v) = All IsGiven uploads
  Takes uploads (inr text) = Unit

  taken :
      (key : Bytes) (paths : List Bytes) (r : Variables ⊎ String)
      → IsGiven (key, paths)
      → Takes ((key, paths) ∷ []) r
  taken key paths (inl v) h = (h, tt)
  taken key paths (inr text) h = tt

  add_key-IsGiven :
      (small : Bool) (key : Bytes) (found : Option File) (paths : List Bytes) (v : Variables)
      → form_file key ≡ found
      → Ensures (Takes ((key, paths) ∷ [])) (add_key small key found paths v)
  unfolding add_key
  add_key-IsGiven small key found [] v e = tt
  add_key-IsGiven small key none (path ∷ paths) v e = tt
  add_key-IsGiven small key (some file) (path ∷ paths) v e =
      Ensures-intro (Takes ((key, path ∷ paths) ∷ [])) (add_file small key file (path ∷ paths) v)
        (λ r _. taken key (path ∷ paths) r ((λ h. cc), (λ h. cc)))

  more :
      (key : Bytes) (paths : List Bytes) (uploads : List (Bytes × List Bytes))
      (r : Variables ⊎ String)
      → IsGiven (key, paths)
      → Takes uploads r
      → Takes ((key, paths) ∷ uploads) r
  more key paths uploads (inl v) given rest = (given, rest)
  more key paths uploads (inr text) given rest = tt

  add_rest-IsGiven :
      (small : Bool) (key : Bytes) (paths : List Bytes) (uploads : List (Bytes × List Bytes))
      (r : Variables ⊎ String)
      → ((v : Variables) → Ensures (Takes uploads) (add_files small uploads v))
      → Takes ((key, paths) ∷ []) r
      → Ensures (Takes ((key, paths) ∷ uploads)) (then_step (λ v'. add_files small uploads v') r)
  add_rest-IsGiven small key paths uploads (inr text) ih h = tt
  add_rest-IsGiven small key paths uploads (inl v) ih (given, _) =
      Ensures-map (Takes uploads) (Takes ((key, paths) ∷ uploads)) (add_files small uploads v)
        (λ r rest. more key paths uploads r given rest) (ih v)

-- The loop takes a form only if every key of its map has a path and a file: else the reply tells what
-- is missing.
add_files-Takes :
    (d : Disk) (small : Bool) (uploads : List (Bytes × List Bytes)) (v : Variables d)
    → Ensures (Takes d uploads) (add_files d small uploads v)
unfolding add_files
add_files-Takes d small [] v = tt
add_files-Takes d small ((key, paths) ∷ uploads) v =
    Ensures-then (Takes d ((key, paths) ∷ [])) (Takes d ((key, paths) ∷ uploads))
      (add_key d small key (d.form_file key) paths v)
      (then_step d (λ v'. add_files d small uploads v'))
      (λ r h.
        add_rest-IsGiven d small key paths uploads r (λ v'. add_files-Takes d small uploads v') h)
      (add_key-IsGiven d small key (d.form_file key) paths v refl)
