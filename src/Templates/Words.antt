-- ===== src/Templates/Words.antt =====
-- codegen/templates/templates.go: what `wordWalker` leaves out.
use fastgql.Prelude.{
  ℕ, zero, suc, ◌≤◌, ◌<◌, ◌≡◌, refl, sym, ap, ◌∙◌, arith, Bool, true, false, not, ◌&&◌, ◌||◌, ◌⊎◌,
  inl, inr, List, [], ◌∷◌, ◌++◌, append_assoc, if◌then◌else◌, length, Bool-cases,
}
use fastgql.Prelude.Text.{Bytes}
use fastgql.Templates.{
  is_delimiter, is_lower, is_digit, is_common, WordInfo, skip_delimiters, trim_end,
  after_delimiters, walk_words, words_of, word_walker,
}

-- The runes that are no delimiters.
unfoldable pub kept : Bytes → Bytes
kept [] = []
kept (c ∷ s) = if is_delimiter c then kept s else c ∷ kept s

abbrev pub text_of : List WordInfo → Bytes
text_of [] = []
text_of (info ∷ infos) = info.word ++ text_of infos

kept-append : (s t : Bytes) → kept (s ++ t) ≡ kept s ++ kept t
unfolding kept
kept-append [] t = refl
kept-append (c ∷ s) t = elim (Bool-cases (is_delimiter c)) [
  | inl e ↦ rw e (kept-append s t)
  | inr e ↦ rw (e, kept-append s t) refl
]

kept-drop : (n : ℕ) (s : Bytes) → is_delimiter n ≡ true → kept (n ∷ s) ≡ kept s
unfolding kept
kept-drop n s e = rw e refl

kept-nil : (s : Bytes) → kept [] ++ kept s ≡ kept s
unfolding kept
kept-nil s = refl

Bytes-cases : (s : Bytes) → (s ≡ []) ⊎ ((c : ℕ) × (t : Bytes) × (s ≡ c ∷ t))
Bytes-cases [] = inl refl
Bytes-cases (c ∷ s) = inr (c, s, refl)

kept-after_delimiters :
    (r d : ℕ) (s : Bytes)
    → is_delimiter d ≡ true
    → (kept (after_delimiters r d s) ≡ kept s) × (length (after_delimiters r d s) ≤ suc (length s))
unfolding kept after_delimiters
kept-after_delimiters r d [] delim = (refl, omega arith)
kept-after_delimiters r d (c ∷ s) delim = elim (Bool-cases (is_delimiter c)) [
  | inl e ↦ let (same, short) = kept-after_delimiters r c s e in rw e (same, omega (arith, short))
  | inr e ↦ elim (Bool-cases (is_digit r && is_digit c)) [
    | inl e' ↦ rw (e, e', delim) (rw e refl, omega arith)
    | inr e' ↦ rw (e, e') (rw e refl, omega arith)
  ]
]

-- A rune goes from what is behind it to the word before it.
kept-moved :
    (before : Bytes) (r : ℕ) (rest : Bytes)
    → kept (before ++ r ∷ []) ++ kept rest ≡ kept before ++ kept (r ∷ rest)
kept-moved before r rest = rw (kept-append before (r ∷ [])) (
    append_assoc (kept before) (kept (r ∷ [])) (kept rest)
    ∙ ap (λ s. kept before ++ s) (sym (kept-append (r ∷ []) rest)))

kept-emitted :
    (before : Bytes) (r : ℕ) (rest text : Bytes)
    → kept text ≡ kept rest
    → kept ((before ++ r ∷ []) ++ text) ≡ kept before ++ kept (r ∷ rest)
kept-emitted before r rest text e =
    kept-append (before ++ r ∷ []) text ∙ rw e (kept-moved before r rest)

walk_words-kept :
    (fuel : ℕ) (before : Bytes) (r : ℕ) (rest : Bytes) (has : Bool)
    → length rest < fuel
    → kept (text_of (walk_words fuel before r rest has)) ≡ kept before ++ kept (r ∷ rest)
unfolding walk_words
walk_words-kept zero before r rest has fits = ground arith
walk_words-kept (suc fuel) before r [] has fits = kept-emitted before r [] [] refl
walk_words-kept (suc fuel) before r (n ∷ rest) has fits =
    let word = before ++ r ∷ [] in
    elim (Bool-cases (is_delimiter n)) [
      | inl e ↦
          let (same, short) = kept-after_delimiters r n rest e in
          elim (Bytes-cases (after_delimiters r n rest)) [
            | inl none_left ↦
                rw (e, none_left)
                  (kept-emitted before r (n ∷ rest) []
                    (ap kept (sym none_left) ∙ same ∙ sym (kept-drop n rest e)))
            | inr (c, s, left) ↦
                rw (e, left)
                  (kept-emitted before r (n ∷ rest) (text_of (walk_words fuel [] c s false)) (
                    walk_words-kept fuel [] c s false (omega (arith, fits, short, ap length left))
                    ∙ kept-nil (c ∷ s)
                    ∙ ap kept (sym left)
                    ∙ same
                    ∙ sym (kept-drop n rest e)))
          ]
      | inr e ↦
          elim (Bool-cases (is_lower r && not (is_lower n) || is_common word && not (is_lower n))) [
            | inl ends ↦
                rw (e, ends)
                  (kept-emitted before r (n ∷ rest) (text_of (walk_words fuel [] n rest false)) (
                    walk_words-kept fuel [] n rest false (omega (arith, fits))
                    ∙ kept-nil (n ∷ rest)))
            | inr goes ↦
                rw (e, goes)
                  (walk_words-kept fuel word n rest (has || is_common word) (omega (arith, fits))
                    ∙ kept-moved before r (n ∷ rest))
          ]
    ]

kept-skip_delimiters : (s : Bytes) → kept (skip_delimiters s) ≡ kept s
unfolding kept skip_delimiters
kept-skip_delimiters [] = refl
kept-skip_delimiters (c ∷ s) = elim (Bool-cases (is_delimiter c)) [
  | inl e ↦ rw e (kept-skip_delimiters s)
  | inr e ↦ rw e (rw e refl)
]

kept-trim_end : (s : Bytes) → kept (trim_end s) ≡ kept s
unfolding kept trim_end
kept-trim_end [] = refl
kept-trim_end (c ∷ s) = elim (Bytes-cases (trim_end s)) [
  | inl none_left ↦ elim (Bool-cases (is_delimiter c)) [
    | inl e ↦ rw (none_left, e) (ap kept (sym none_left) ∙ kept-trim_end s)
    | inr e ↦
        rw (none_left, e)
          (rw e (ap (λ t. c ∷ kept t) (sym none_left) ∙ ap (λ t. c ∷ t) (kept-trim_end s)))
  ]
  | inr (d, t, left) ↦ rw left (
      kept-append (c ∷ []) (d ∷ t)
      ∙ rw (ap kept (sym left) ∙ kept-trim_end s) (sym (kept-append (c ∷ []) s)))
]

words_of-kept : (s : Bytes) → kept (text_of (words_of s)) ≡ kept s
unfolding words_of
words_of-kept [] = refl
words_of-kept (r ∷ rest) =
    walk_words-kept (suc (length rest)) [] r rest false (omega arith) ∙ kept-nil (r ∷ rest)

-- The words of a name, one after the other, have the runes of the name in their order, but for
-- delimiters: `wordWalker` ends, and loses no other rune.
pub word_walker-kept : (name : Bytes) → kept (text_of (word_walker name)) ≡ kept name
unfolding word_walker
word_walker-kept name =
    words_of-kept (trim_end (skip_delimiters name))
    ∙ kept-trim_end (skip_delimiters name)
    ∙ kept-skip_delimiters name
