-- ===== src/Graphql/Quoting.antt =====
-- graphql/string.go and graphql/jsonw.go: JSON text written byte by byte. A byte above 0x7f is never
-- one of the characters that `writeQuotedString` looks for, so its loop over runes is a loop over
-- bytes; what is written is a list of bytes.
pub mod Decoding
use fastgql.Prelude.{
  ℕ, zero, suc, ◌+◌, ◌-◌, ◌/◌, ◌%◌, ◌≡◌, refl, Bool, true, false, ◌||◌, List, [], ◌∷◌, ◌++◌, ltb,
  ◌==◌, if◌then◌else◌, take, drop,
}
use fastgql.Prelude.Text.{Bytes, codes}

abbrev pub quote : ℕ
quote = b'"'

abbrev pub backslash : ℕ
backslash = b'\\'

abbrev byte_at : Bytes → ℕ → ℕ
byte_at [] i = 0
byte_at (c ∷ s) zero = c
byte_at (c ∷ s) (suc i) = byte_at s i

-- `encodeHex[d]`.
unfoldable pub encode_hex : ℕ → ℕ
encode_hex d = byte_at (codes "0123456789ABCDEF") d

abbrev pub is_special : ℕ → Bool
is_special c = ltb c 0x20 || c == backslash || c == quote

-- The `switch c`.
unfoldable pub escape : ℕ → Bytes
escape c =
    if c == 9
    then codes "\\t"
    else if c == 13
    then codes "\\r"
    else if c == 10
    then codes "\\n"
    else if c == backslash
    then backslash ∷ backslash ∷ []
    else if c == quote
    then backslash ∷ quote ∷ []
    else codes "\\u00" ++ encode_hex (c / 16) ∷ encode_hex (c % 16) ∷ []

-- `s[start:i]`.
abbrev slice : Bytes → ℕ → ℕ → Bytes
slice s start i = take (i - start) (drop start s)

-- The loop: `rest` is what is left of `s` at `i`, and `out` what is written so far.
unfoldable pub quote_from : Bytes → Bytes → ℕ → ℕ → Bytes → Bytes
unfolding escape
quote_from s [] i start out = out ++ (drop start s ++ quote ∷ [])
quote_from s (c ∷ rest) i start out =
    let flushed = quote_from s rest (suc i) (suc i) (out ++ (slice s start i ++ escape c)) in
    let longer = quote_from s rest (suc i) start out in if is_special c then flushed else longer

unfoldable pub write_quoted_string : Bytes → Bytes
unfolding quote_from
write_quoted_string s = quote_from s s 0 0 (quote ∷ [])

-- What `MarshalString` and `MarshalIntID` pass to a writer.
abbrev pub marshal_string : Bytes → Bytes
marshal_string s = write_quoted_string s

-- `Array.MarshalGQL`, over what its elements write.
unfoldable pub elements_from : ℕ → List Bytes → Bytes
elements_from i [] = []
elements_from i (val ∷ vals) =
    (if i == 0 then [] else b',' ∷ []) ++ (val ++ elements_from (suc i) vals)

unfoldable pub marshal_array : List Bytes → Bytes
unfolding elements_from
marshal_array vals = b'[' ∷ (elements_from 0 vals ++ b']' ∷ [])
