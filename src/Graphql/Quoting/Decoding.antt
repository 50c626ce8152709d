-- ===== src/Graphql/Quoting/Decoding.antt =====
-- graphql/string.go against a decoder of JSON strings, which knows nothing of the encoder.
use fastgql.Prelude.{
  ℕ, zero, suc, ◌+◌, ◌-◌, ◌*◌, ◌/◌, ◌%◌, ◌<◌, ◌≡◌, refl, arith, ◌||◌, ◌&&◌, Option, none, some, [],
  ◌∷◌, ◌++◌, append_assoc, append-nil, ltb, leb, ◌==◌, if◌then◌else◌, take, drop, length,
  length-append, Bool-cases, inl, inr, ◌∙◌, ap,
}
use fastgql.Prelude.Text.{Bytes, codes}
use fastgql.Graphql.Quoting.{
  quote, backslash, encode_hex, is_special, escape, quote_from, write_quoted_string,
}

-- What a backslash and the next character stand for, `\\u` aside.
abbrev unescaped : ℕ → Option ℕ
unescaped c =
    if c == quote || c == backslash || c == b'/'
    then some c
    else if c == b'b'
    then some 8
    else if c == b'f'
    then some 12
    else if c == b'n'
    then some 10
    else if c == b'r'
    then some 13
    else if c == b't'
    then some 9
    else none

hex_value : ℕ → Option ℕ
hex_value c =
    if leb b'0' c && leb c b'9'
    then some (c - b'0')
    else if leb b'A' c && leb c b'F'
    then some (c - b'A' + 10)
    else if leb b'a' c && leb c b'f'
    then some (c - b'a' + 10)
    else none

-- Where the decoder stands: in plain text, behind a backslash, or in a `\\u` with so many more hex
-- digits to come behind the next, and the value so far.
data Mode : Type 0 where
  plain : Mode
  escaped : Mode
  hex : ℕ → ℕ → Mode

infixl 5 ◌>>=◌
abbrev ◌>>=◌ : {A B : Type 0} → Option A → (A → Option B) → Option B
none >>= f = none
some a >>= f = f a

-- Decodes up to the closing quote: the text, and what follows. A raw control character is an error,
-- and so is an escaped code point above 0x7f, whose bytes this decoder does not write.
decode : Bytes → Mode → Bytes → Option (Bytes × Bytes)
decode [] mode out = none
decode (c ∷ s) plain out =
    let skip = decode s escaped out in
    let more = decode s plain (out ++ c ∷ []) in
    if c == quote
    then some (out, s)
    else if c == backslash
    then skip
    else if ltb c 0x20
    then none
    else more
decode (c ∷ s) escaped out =
    let digits = decode s (hex 3 0) out in
    let more = λ (d : ℕ). decode s plain (out ++ d ∷ []) in
    if c == b'u' then digits else unescaped c >>= more
decode (c ∷ s) (hex zero v) out =
    let more = λ (d : ℕ). decode s plain (out ++ (v * 16 + d) ∷ []) in
    hex_value c >>= λ d. if ltb (v * 16 + d) 0x80 then more d else none
decode (c ∷ s) (hex (suc n) v) out =
    let more = λ (d : ℕ). decode s (hex n (v * 16 + d)) out in hex_value c >>= more

-- A string with its quotes.
pub decode_string : Bytes → Option (Bytes × Bytes)
unfolding decode
decode_string [] = none
decode_string (c ∷ s) = if c == quote then decode s plain [] else none

-- What the encoder writes for one byte.
abbrev written : ℕ → Bytes
written c = if is_special c then escape c else c ∷ []

abbrev all_written : Bytes → Bytes
all_written [] = []
all_written (c ∷ s) = written c ++ all_written s

hex_value-encode_hex : (d : ℕ) → d < 16 → hex_value (encode_hex d) ≡ some d
unfolding hex_value encode_hex
hex_value-encode_hex zero h = refl
hex_value-encode_hex (suc zero) h = refl
hex_value-encode_hex (suc (suc zero)) h = refl
hex_value-encode_hex (suc (suc (suc zero))) h = refl
hex_value-encode_hex (suc (suc (suc (suc zero)))) h = refl
hex_value-encode_hex (suc (suc (suc (suc (suc zero))))) h = refl
hex_value-encode_hex (suc (suc (suc (suc (suc (suc zero)))))) h = refl
hex_value-encode_hex (suc (suc (suc (suc (suc (suc (suc zero))))))) h = refl
hex_value-encode_hex (suc (suc (suc (suc (suc (suc (suc (suc zero)))))))) h = refl
hex_value-encode_hex (suc (suc (suc (suc (suc (suc (suc (suc (suc zero))))))))) h = refl
hex_value-encode_hex (suc (suc (suc (suc (suc (suc (suc (suc (suc (suc zero)))))))))) h = refl
hex_value-encode_hex (suc (suc (suc (suc (suc (suc (suc (suc (suc (suc (suc zero))))))))))) h = refl
hex_value-encode_hex (suc (suc (suc (suc (suc (suc (suc (suc (suc (suc (suc (suc zero))))))))))))
      h =
    refl
hex_value-encode_hex
      (suc (suc (suc (suc (suc (suc (suc (suc (suc (suc (suc (suc (suc zero))))))))))))) h =
    refl
hex_value-encode_hex
      (suc (suc (suc (suc (suc (suc (suc (suc (suc (suc (suc (suc (suc (suc zero)))))))))))))) h =
    refl
hex_value-encode_hex
      (suc (suc (suc (suc (suc (suc (suc (suc (suc (suc (suc (suc (suc (suc (suc zero)))))))))))))))
      h =
    refl
hex_value-encode_hex
      (suc
        (suc (suc (suc (suc (suc (suc (suc (suc (suc (suc (suc (suc (suc (suc (suc d))))))))))))))))
      h =
    absurd (omega arith)

hex_zero : hex_value b'0' ≡ some 0
unfolding hex_value
hex_zero = refl

decode-low :
    (c : ℕ) (rest out : Bytes)
    → c < 0x20
    → decode (codes "\\u00" ++ (encode_hex (c / 16) ∷ encode_hex (c % 16) ∷ rest)) plain out
      ≡ decode rest plain (out ++ c ∷ [])
unfolding decode
decode-low c rest out low =
    rw
      (
        hex_zero,
        hex_value-encode_hex (c / 16) (omega arith),
        hex_value-encode_hex (c % 16) (omega arith),
      )
      (value (((0 * 16 + 0) * 16 + c / 16) * 16 + c % 16) (omega arith))
  where
    value :
        (d : ℕ)
        → d ≡ c
        → (if ltb d 0x80 then decode rest plain (out ++ d ∷ []) else none)
          ≡ decode rest plain (out ++ c ∷ [])
    value d e = rw e (ground arith)

decode-written :
    (c : ℕ) (rest out : Bytes)
    → decode (written c ++ rest) plain out ≡ decode rest plain (out ++ c ∷ [])
unfolding decode escape
decode-written c rest out = ground (arith, decode-low c rest out)

decode-all_written :
    (s rest out : Bytes)
    → decode (all_written s ++ (quote ∷ rest)) plain out ≡ some (out ++ s, rest)
decode-all_written [] rest out = unfold decode in rw append-nil
decode-all_written (c ∷ s) rest out = simp (append_assoc, decode-written, decode-all_written s)

-- Slices of a text in three parts.
drop-append : (s t : Bytes) → drop (length s) (s ++ t) ≡ t
drop-append [] t = refl
drop-append (c ∷ s) t = drop-append s t

take-append : (s t : Bytes) (n : ℕ) → n ≡ length s → take n (s ++ t) ≡ s
take-append s t n e = rw e (go s)
  where
    go : (s : Bytes) → take (length s) (s ++ t) ≡ s
    go [] = refl
    go (c ∷ s) = ap (λ x. c ∷ x) (go s)

slice-mid :
    (s pre mid rest : Bytes) (start i : ℕ)
    → s ≡ pre ++ (mid ++ rest)
    → start ≡ length pre
    → i ≡ length pre + length mid
    → take (i - start) (drop start s) ≡ mid
slice-mid s pre mid rest start i es eb ei =
    rw (es, eb, drop-append) (take-append mid rest (i - length pre) (omega arith))

-- The loop keeps a text `pre` that is written, and a text `mid` that waits.
quote_from-all_written :
    (rest s pre mid out : Bytes) (i start : ℕ)
    → s ≡ pre ++ (mid ++ rest)
    → start ≡ length pre
    → i ≡ length pre + length mid
    → quote_from s rest i start out ≡ out ++ (mid ++ (all_written rest ++ quote ∷ []))
unfolding quote_from
quote_from-all_written [] s pre mid out i start es eb ei = rw (es, eb, drop-append, append-nil) refl
quote_from-all_written (c ∷ rest) s pre mid out i start es eb ei =
    elim (Bool-cases (is_special c)) [
      | inl special ↦
          rw (special, slice-mid s pre mid (c ∷ rest) start i es eb ei)
            (quote_from-all_written rest s (pre ++ (mid ++ c ∷ [])) [] (out ++ (mid ++ escape c))
                (suc i) (suc i) (es ∙ simp append_assoc)
                (omega (arith, length-append pre (mid ++ c ∷ []), length-append mid (c ∷ [])))
                (omega (arith, length-append pre (mid ++ c ∷ []), length-append mid (c ∷ [])))
              ∙ simp append_assoc)
      | inr other ↦ rw other (
          quote_from-all_written rest s pre (mid ++ c ∷ []) out (suc i) start
            (es ∙ simp append_assoc) eb (omega (arith, length-append mid (c ∷ [])))
          ∙ simp append_assoc)
    ]

-- A JSON decoder reads every quoted string back: behind the opening quote it finds the bytes of the
-- string and the closing quote, and leaves what follows.
pub decode-write_quoted_string :
    (s rest : Bytes) → decode_string (write_quoted_string s ++ rest) ≡ some (s, rest)
unfolding write_quoted_string decode_string
decode-write_quoted_string s rest =
    rw (quote_from-all_written s s [] [] (quote ∷ []) 0 0 refl refl (omega arith)) (
      ap (λ t. decode t plain []) (append_assoc (all_written s) (quote ∷ []) rest)
      ∙ decode-all_written s rest [])
