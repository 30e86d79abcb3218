-- ===== src/Common/Dict.antt =====
-- Go's maps from texts to texts, as association lists.
use Prim.Native.String.{String}
use mathlib.Core.Path.{◌≡◌}
use mathlib.Core.Option.{Option, none, some}
use mathlib.Core.List.{List, [], ◌∷◌}
use native.Mathlib.Omega.{arith}
use text.Mathlib.Text.{◌==◌ as str_eq}
use text.Mathlib.TextEquality.{eq_iff}
use certhub_server.Common.Tests.{if◌then◌else◌}

abbrev pub Dict : Type 0
Dict = List (String × String)

unfoldable pub lookup : String → Dict → Option String
lookup k [] = none
lookup k ((j, v) ∷ m) = if str_eq j k then some v else lookup k m

-- delete(m, k)
unfoldable pub delete : String → Dict → Dict
delete k [] = []
delete k ((j, w) ∷ m) = if str_eq j k then delete k m else (j, w) ∷ delete k m

-- m[k] = v
unfoldable pub insert : String → String → Dict → Dict
insert k v m = (k, v) ∷ delete k m

pub lookup-delete :
    (k j : String) (m : Dict) → lookup j (delete k m) ≡ (if str_eq k j then none else lookup j m)
unfolding lookup delete
lookup-delete k j [] = ground arith
lookup-delete k j ((i, w) ∷ m) =
    ground (arith, eq_iff k j, eq_iff i k, eq_iff i j, lookup-delete k j m)

pub lookup-insert :
    (k j v : String) (m : Dict)
    → lookup j (insert k v m) ≡ (if str_eq k j then some v else lookup j m)
unfolding lookup insert
lookup-insert k j v m = ground (arith, lookup-delete k j m)
