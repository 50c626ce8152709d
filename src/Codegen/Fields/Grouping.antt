-- ===== src/Codegen/Fields/Grouping.antt =====
-- codegen/complexity.go: the groups that `UniqueFields` makes.
use fastgql.Prelude.{
  ◌≡◌, sym, ap, ◌∙◌, inl, inr, List, [], ◌∷◌, ◌++◌, append_assoc, append-nil, if◌then◌else◌,
  Bool-cases,
}
use fastgql.Prelude.Text.{Bytes, bytes_eq}
use fastgql.Prelude.Maps.{Map, find, put, find-put_same, find-put_other, bytes_eq-eq}
use fastgql.Codegen.Fields.{Field, group_or, group_fields, unique_fields}

-- The fields that have that Go name.
abbrev pub of_go_name : Bytes → List Field → List Field
of_go_name n [] = []
of_go_name n (f ∷ fs) =
    let rest = of_go_name n fs in if bytes_eq n f.go_field_name then f ∷ rest else rest

group_fields-of_go_name :
    (n : Bytes) (fs : List Field) (m : Map (List Field))
    → group_or (find n (group_fields fs m)) ≡ group_or (find n m) ++ of_go_name n fs
unfolding group_fields
group_fields-of_go_name n [] m = sym (append-nil (group_or (find n m)))
group_fields-of_go_name n (f ∷ fs) m =
    let group = group_or (find f.go_field_name m) ++ f ∷ [] in
    elim (Bool-cases (bytes_eq n f.go_field_name)) [
      | inl same ↦ rw same (
          group_fields-of_go_name n fs (put f.go_field_name group m)
          ∙ ap (λ r. group_or r ++ of_go_name n fs)
              (ap (λ k. find k (put f.go_field_name group m)) (bytes_eq-eq n f.go_field_name same)
                ∙ find-put_same f.go_field_name group m)
          ∙ append_assoc (group_or (find f.go_field_name m)) (f ∷ []) (of_go_name n fs)
          ∙ ap (λ k. group_or (find k m) ++ f ∷ of_go_name n fs)
              (sym (bytes_eq-eq n f.go_field_name same)))
      | inr other ↦ rw other (
          group_fields-of_go_name n fs (put f.go_field_name group m)
          ∙ ap (λ r. group_or r ++ of_go_name n fs)
              (find-put_other n f.go_field_name group m other))
    ]

-- UniqueFields holds for each Go name the fields of that name, in their order.
unique_fields-of_go_name :
    (n : Bytes) (fs : List Field) → group_or (find n (unique_fields fs)) ≡ of_go_name n fs
unfolding unique_fields
unique_fields-of_go_name n fs = group_fields-of_go_name n fs []
