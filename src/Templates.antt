-- ===== src/Templates.antt =====
-- codegen/templates/templates.go: the Go names of GraphQL names, which are ASCII: a rune is its byte.
pub mod Words
pub mod Names
pub mod Imports
mod Tests
use fastgql.Prelude.{
  ℕ, zero, suc, ◌+◌, ◌-◌, ◌/◌, ◌≡◌, String, Bool, true, false, not, ◌&&◌, ◌||◌, Option, none, some,
  List, [], ◌∷◌, ◌++◌, if◌then◌else◌, ◌==◌, ltb, leb, length,
}
use fastgql.Prelude.Text.{Bytes, codes, bytes_eq}

abbrev pub is_delimiter : ℕ → Bool
is_delimiter c = c == b'-' || c == b'_' || c == 32 || leb 9 c && leb c 13 || c == 133 || c == 160

abbrev pub is_lower : ℕ → Bool
is_lower c = leb b'a' c && leb c b'z'

abbrev pub is_upper : ℕ → Bool
is_upper c = leb b'A' c && leb c b'Z'

abbrev pub is_digit : ℕ → Bool
is_digit c = leb b'0' c && leb c b'9'

abbrev pub upper : ℕ → ℕ
upper c = if is_lower c then c - 32 else c

abbrev pub lower : ℕ → ℕ
lower c = if is_upper c then c + 32 else c

abbrev pub to_upper : Bytes → Bytes
to_upper [] = []
to_upper (c ∷ s) = upper c ∷ to_upper s

abbrev pub to_lower : Bytes → Bytes
to_lower [] = []
to_lower (c ∷ s) = lower c ∷ to_lower s

abbrev pub uc_first : Bytes → Bytes
uc_first [] = []
uc_first (c ∷ s) = upper c ∷ s

abbrev pub lc_first : Bytes → Bytes
lc_first [] = []
lc_first (c ∷ s) = lower c ∷ s

abbrev is_one_of : List String → Bytes → Bool
is_one_of [] word = false
is_one_of (s ∷ ss) word = bytes_eq (codes s) word || is_one_of ss word

common_initialisms : List String
common_initialisms =
    "ACL" ∷ "API" ∷ "ASCII" ∷ "CPU" ∷ "CSS" ∷ "DNS" ∷ "EOF" ∷ "GUID" ∷ "HTML" ∷ "HTTP" ∷ "HTTPS"
    ∷ "ID" ∷ "IP" ∷ "JSON" ∷ "LHS" ∷ "PGP" ∷ "QPS" ∷ "RAM" ∷ "RHS" ∷ "RPC" ∷ "SLA" ∷ "SMTP" ∷ "SQL"
    ∷ "SSH" ∷ "TCP" ∷ "TLS" ∷ "TTL" ∷ "UDP" ∷ "UI" ∷ "UID" ∷ "UUID" ∷ "URI" ∷ "URL" ∷ "UTF8" ∷ "VM"
    ∷ "XML" ∷ "XMPP" ∷ "XSRF" ∷ "XSS" ∷ []

unfoldable pub is_common : Bytes → Bool
unfolding common_initialisms
is_common word = is_one_of common_initialisms word

pub record WordInfo : Type 0 where
  pub word : Bytes
  pub match_common_initial : Bool
  pub has_common_initial : Bool

-- `strings.TrimFunc`: the delimiters before and after.
unfoldable pub skip_delimiters : Bytes → Bytes
skip_delimiters [] = []
skip_delimiters (c ∷ s) = let rest = skip_delimiters s in if is_delimiter c then rest else c ∷ s

unfoldable pub trim_end : Bytes → Bytes
trim_end [] = []
trim_end (c ∷ s) = elim (trim_end s) [
  | [] ↦ if is_delimiter c then [] else c ∷ []
  | d ∷ t ↦ c ∷ d ∷ t
]

-- What follows a run of delimiters; the last one stays between two digits. `r` is the rune before,
-- `d` the last delimiter so far.
unfoldable pub after_delimiters : ℕ → ℕ → Bytes → Bytes
after_delimiters r d [] = []
after_delimiters r d (c ∷ s) =
    let rest = after_delimiters r c s in
    if is_delimiter c then rest else if is_digit r && is_digit c then d ∷ c ∷ s else c ∷ s

abbrev pub word_of : Bytes → Bool → WordInfo
word_of word has =
    let matches = is_common (to_upper word) in
    record { word = word; match_common_initial = matches; has_common_initial = has || matches }

-- The loop at the rune `r`, with the part of the word before it, the runes after it, and the flag.
-- `fuel` is at least their number.
unfoldable pub walk_words : ℕ → Bytes → ℕ → Bytes → Bool → List WordInfo
unfolding after_delimiters
walk_words zero before r rest has = []
walk_words (suc fuel) before r [] has = word_of (before ++ r ∷ []) has ∷ []
walk_words (suc fuel) before r (n ∷ rest) has =
    let word = before ++ r ∷ [] in
    if is_delimiter n
    then word_of word has
      ∷ elim (after_delimiters r n rest) [ [] ↦ [] | c ∷ s ↦ walk_words fuel [] c s false ]
    else if is_lower r && not (is_lower n) || is_common word && not (is_lower n)
    then word_of word has ∷ walk_words fuel [] n rest false
    else walk_words fuel word n rest (has || is_common word)

-- `wordWalker` with a function that keeps each word.
unfoldable pub words_of : Bytes → List WordInfo
unfolding walk_words
words_of [] = []
words_of (r ∷ rest) = walk_words (suc (length rest)) [] r rest false

unfoldable pub word_walker : Bytes → List WordInfo
unfolding words_of skip_delimiters trim_end
word_walker str = words_of (trim_end (skip_delimiters str))

abbrev is_cased : Bytes → Bool
is_cased word = bytes_eq (to_upper word) word || bytes_eq (to_lower word) word

unfoldable pub go_word : WordInfo → Bytes
go_word info =
    if info.match_common_initial
    then to_upper info.word
    else if not info.has_common_initial && is_cased info.word
    then uc_first (to_lower info.word)
    else info.word

unfoldable pub private_first : WordInfo → Bytes
private_first info = if is_cased info.word then to_lower info.word else lc_first info.word

unfoldable pub private_word : WordInfo → Bytes
private_word info =
    if info.match_common_initial
    then to_upper info.word
    else if not info.has_common_initial
    then uc_first (to_lower info.word)
    else info.word

unfoldable pub joined : (WordInfo → Bytes) → List WordInfo → Bytes
joined f [] = []
joined f (info ∷ infos) = f info ++ joined f infos

unfoldable pub joined_private : List WordInfo → Bytes
unfolding joined private_first private_word
joined_private [] = []
joined_private (info ∷ infos) = private_first info ++ joined private_word infos

abbrev keywords : List String
keywords =
    "break" ∷ "default" ∷ "func" ∷ "interface" ∷ "select" ∷ "case" ∷ "defer" ∷ "go" ∷ "map"
    ∷ "struct" ∷ "chan" ∷ "else" ∷ "goto" ∷ "package" ∷ "switch" ∷ "const" ∷ "fallthrough" ∷ "if"
    ∷ "range" ∷ "type" ∷ "continue" ∷ "for" ∷ "import" ∷ "return" ∷ "var" ∷ "_" ∷ []

unfoldable pub is_keyword : Bytes → Bool
is_keyword name = is_one_of keywords name

unfoldable pub sanitize_keywords : Bytes → Bytes
unfolding is_keyword
sanitize_keywords name = if is_keyword name then name ++ codes "Arg" else name

unfoldable pub to_go : Bytes → Bytes
unfolding joined go_word word_walker
to_go name = if bytes_eq name (codes "_") then codes "_" else joined go_word (word_walker name)

unfoldable pub to_go_private : Bytes → Bytes
unfolding joined_private word_walker sanitize_keywords
to_go_private name =
    if bytes_eq name (codes "_")
    then codes "_"
    else sanitize_keywords (joined_private (word_walker name))
