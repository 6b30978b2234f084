-- ===== src/Prelude/Json/Laws.antt =====
-- The laws of `get` and `put` on a dict.
use Prim.Native.String.{String}
use mathlib.Core.Path.{◌≡◌, refl}
use mathlib.Core.Option.{Option, some}
use native.Mathlib.Omega.{arith}
use text.Mathlib.Text.{◌==◌}
use text.Mathlib.TextEquality.{eq_iff}
use review_agent_v.Prelude.Tests.{if◌then◌else◌}
use review_agent_v.Prelude.Json.Defs.{Json, Fields, end, field, get, put, update}

pub get-put :
    (k j : String) (v : Json) (d : Fields)
    → get j (put k v d) ≡ (if k == j then some v else get j d)
unfolding get put
get-put k j v end = refl
get-put k j v (field i w d) = ground (arith, eq_iff k j, eq_iff i k, eq_iff i j, get-put k j v d)

-- The last value that a patch gives to a key, or the old one.
abbrev pub patched : String → Fields → Option Json → Option Json
patched j end old = old
patched j (field k v patch) old = patched j patch (if k == j then some v else old)

pub get-update :
    (j : String) (d patch : Fields) → get j (update d patch) ≡ patched j patch (get j d)
unfolding update
get-update j d end = refl
get-update j d (field k v patch) = rw (get-update j (put k v d) patch, get-put k j v d)
