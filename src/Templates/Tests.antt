-- ===== src/Templates/Tests.antt =====
-- Go names of some names, and the theorems at inputs.
use fastgql.Prelude.{◌≡◌, refl}
use fastgql.Prelude.Text.{codes}
use fastgql.Templates.{to_go, to_go_private, is_common, is_keyword}
use fastgql.Templates.Names.{letters, to_go-letters}

runs :
    (to_go (codes "RelatedURLs") ≡ codes "RelatedURLs")
    × (to_go (codes "IDFoo") ≡ codes "IDFoo")
    × (to_go (codes "UTF8Foo") ≡ codes "UTF8Foo")
    × (to_go (codes "TO_CAMEL") ≡ codes "ToCamel")
    × (to_go (codes "ITicket") ≡ codes "ITicket")
    × (to_go (codes "A_1_2") ≡ codes "A1_2")
    × (to_go_private (codes "RelatedURLs") ≡ codes "relatedURLs")
    × (to_go_private (codes "IDFoo") ≡ codes "idFoo")
    × (to_go_private (codes "jsonEncoding") ≡ codes "jsonEncoding")
    × (to_go_private (codes "type") ≡ codes "typeArg")
unfolding to_go to_go_private is_common is_keyword
runs = (refl, refl, refl, refl, refl, refl, refl, refl, refl, refl)

to_go-letters_example : letters (to_go (codes "_to_cdn__id")) ≡ letters (codes "_to_cdn__id")
to_go-letters_example = to_go-letters (codes "_to_cdn__id")
