-- ===== src/Code/Packages/Tests.antt =====
-- A package, what it imports, and the theorems at these.
use fastgql.Prelude.{◌≡◌, refl, true, false, none, some, List, [], ◌∷◌, All}
use fastgql.Prelude.Outcome.{ok, Ensures}
use fastgql.Prelude.Text.{Bytes, codes}
use fastgql.Prelude.Maps.{find, put, remove}
use fastgql.Code.{normalize_vendor}
use fastgql.Code.Packages.{
  Package, go_package, nil, cons, Packages, Loaded, load_all, load_with_types, load_missing,
  missing, add_all, add_to_cache, evict,
}
use fastgql.Code.Packages.Naming.{sanitize_package_name, base}
use fastgql.Code.Packages.Closed.{IsClosed, load-IsClosed}
use fastgql.Code.Packages.Left.{IsKeyed}
use fastgql.Code.Packages.Eviction.{evict-IsClosed}

abbrev leaf : Package
leaf = go_package (codes "x/leaf") (codes "leaf") true [] nil

abbrev root : Package
root = go_package (codes "x/root") (codes "root") false [] (cons leaf nil)

abbrev load : List Bytes → Loaded
load paths = record { found = root ∷ []; failure = none }

abbrev load_name : Bytes → Loaded
load_name path = record { found = []; failure = some "no such package" }

abbrev no_packages : Packages
no_packages = record { packages = []; import_to_name = []; load_errors = [] }

abbrev loaded : Packages
loaded = record no_packages { packages = (codes "x/root", root) ∷ (codes "x/leaf", leaf) ∷ [] }

no_packages-IsClosed : IsClosed no_packages.packages
unfolding find
no_packages-IsClosed k p e = cc

loads : (load_all load (codes "x/root" ∷ []) no_packages).0 ≡ loaded
unfolding load_all load_missing missing add_all add_to_cache find put normalize_vendor
loads = refl

loaded-IsClosed : IsClosed loaded.packages
unfolding load_all load_missing missing add_all add_to_cache find put normalize_vendor
loaded-IsClosed =
    (load-IsClosed load (codes "x/root" ∷ []) (codes "x/root") no_packages no_packages-IsClosed).0

loaded-IsKeyed : All IsKeyed loaded.packages
unfolding normalize_vendor
loaded-IsKeyed = ((refl, (refl, tt)), ((refl, tt), tt))

-- The package that imports the evicted one goes too.
evicts : evict (codes "x/leaf") loaded ≡ ok no_packages
unfolding evict find remove
evicts = refl

-- A vendored package stays: it is cached under a path that `Evict` does not look at.
stays :
    evict (codes "y/vendor/leaf") (record no_packages { packages = (codes "leaf", leaf) ∷ [] })
    ≡ ok (record no_packages { packages = (codes "leaf", leaf) ∷ [] })
unfolding evict find remove
stays = refl

names : sanitize_package_name (codes "x/go-leaf/") ≡ codes "go_leaf"
unfolding sanitize_package_name base
names = refl

load-IsClosed_example :
    IsClosed (load_all load (codes "x/root" ∷ []) no_packages).0.packages
    × Ensures (λ r. IsClosed r.0.packages) (load_with_types load (codes "x/root") no_packages)
load-IsClosed_example =
    load-IsClosed load (codes "x/root" ∷ []) (codes "x/root") no_packages no_packages-IsClosed

evict-IsClosed_example :
    (p' : Packages) × (evict (codes "x/leaf") loaded ≡ ok p')
    × (find (codes "x/leaf") p'.packages ≡ none)
    × ((k : Bytes) (q : Package) → find k p'.packages ≡ some q → find k loaded.packages ≡ some q)
    × IsClosed p'.packages
evict-IsClosed_example = evict-IsClosed (codes "x/leaf") loaded loaded-IsKeyed loaded-IsClosed
