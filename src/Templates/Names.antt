-- ===== src/Templates/Names.antt =====
-- codegen/templates/templates.go: what `ToGo` and `ToGoPrivate` make of a name.
use fastgql.Prelude.{
  ℕ, ◌≡◌, refl, sym, ap, ◌∙◌, arith, not, ◌&&◌, inl, inr, List, [], ◌∷◌, ◌++◌, Bool-cases,
}
use fastgql.Prelude.Text.{Bytes, codes, bytes_eq}
use fastgql.Prelude.Maps.{bytes_eq-eq}
use fastgql.Templates.{
  is_delimiter, upper, lower, to_upper, to_lower, uc_first, WordInfo, word_walker, is_cased,
  go_word, joined, to_go,
}
use fastgql.Templates.Words.{kept, text_of, word_walker-kept}

-- The letters and digits of a name, without their case.
abbrev pub letters : Bytes → Bytes
letters s = kept (to_lower s)

lower-upper : (c : ℕ) → lower (upper c) ≡ lower c
lower-upper c = ground arith

lower-lower : (c : ℕ) → lower (lower c) ≡ lower c
lower-lower c = ground arith

to_lower-upper : (s : Bytes) → to_lower (to_upper s) ≡ to_lower s
to_lower-upper [] = refl
to_lower-upper (c ∷ s) = rw (lower-upper c, to_lower-upper s) refl

to_lower-lower : (s : Bytes) → to_lower (to_lower s) ≡ to_lower s
to_lower-lower [] = refl
to_lower-lower (c ∷ s) = rw (lower-lower c, to_lower-lower s) refl

to_lower-uc_first : (s : Bytes) → to_lower (uc_first s) ≡ to_lower s
to_lower-uc_first [] = refl
to_lower-uc_first (c ∷ s) = rw (lower-upper c) refl

to_lower-append : (s t : Bytes) → to_lower (s ++ t) ≡ to_lower s ++ to_lower t
to_lower-append [] t = refl
to_lower-append (c ∷ s) t = rw (to_lower-append s t) refl

to_lower-go_word : (info : WordInfo) → to_lower (go_word info) ≡ to_lower info.word
unfolding go_word
to_lower-go_word info = elim (Bool-cases info.match_common_initial) [
  | inl e ↦ rw e (to_lower-upper info.word)
  | inr e ↦ elim (Bool-cases (not info.has_common_initial && is_cased info.word)) [
    | inl e' ↦ rw (e, e') (to_lower-uc_first (to_lower info.word) ∙ to_lower-lower info.word)
    | inr e' ↦ rw (e, e') refl
  ]
]

to_lower-joined :
    (infos : List WordInfo) → to_lower (joined go_word infos) ≡ to_lower (text_of infos)
unfolding joined
to_lower-joined [] = refl
to_lower-joined (info ∷ infos) =
    to_lower-append (go_word info) (joined go_word infos)
    ∙ rw (to_lower-go_word info, to_lower-joined infos)
        (sym (to_lower-append info.word (text_of infos)))

is_delimiter-lower : (c : ℕ) → is_delimiter (lower c) ≡ is_delimiter c
is_delimiter-lower c = ground arith

kept-to_lower : (s : Bytes) → kept (to_lower s) ≡ to_lower (kept s)
unfolding kept
kept-to_lower [] = refl
kept-to_lower (c ∷ s) = rw (is_delimiter-lower c) (elim (Bool-cases (is_delimiter c)) [
  | inl e ↦ rw e (kept-to_lower s)
  | inr e ↦ rw (e, kept-to_lower s) refl
])

-- The Go name of a GraphQL name has its letters and digits in their order: only delimiters go and only
-- the case changes.
pub to_go-letters : (name : Bytes) → letters (to_go name) ≡ letters name
unfolding to_go
to_go-letters name = elim (Bool-cases (bytes_eq name (codes "_"))) [
  | inl e ↦ rw (e, bytes_eq-eq name (codes "_") e) refl
  | inr e ↦ rw e (
      ap kept (to_lower-joined (word_walker name))
      ∙ kept-to_lower (text_of (word_walker name))
      ∙ ap to_lower (word_walker-kept name)
      ∙ sym (kept-to_lower name))
]
