-- ===== src/Codegen/Use/Adds.antt =====
-- codegen/use.ts, `Use.add`: the paths that a call adds.
use typespec_rust.Prelude.{Text, List, [], ◌∷◌, ◌++◌, ◌||◌, any, ◌≡◌, refl, arith}
use typespec_rust.Prelude.Result.{ok}
use typespec_rust.Codegen.Paths.{split_path}
use typespec_rust.Codegen.UseTree.{UseNodes, insert}
use typespec_rust.Codegen.UseTree.Paths.{holds, starts, Distinct, holds-insert, insert-Distinct}
use typespec_rust.Codegen.Use.{Use, add, add_types}

-- The path of a type in a module, in its chunks.
abbrev pub full_path : Text → Text → List Text
full_path path t = split_path path ++ split_path t

pub holds-add_types :
    (p : List Text) (path : Text) (types : List Text) (ns : UseNodes)
    → holds p (add_types path types ns)
      ≡ (holds p ns || any (λ t. starts p (full_path path t)) types)
unfolding add_types any
holds-add_types p path [] ns = ground arith
holds-add_types p path (t ∷ types) ns = ground (
  arith,
  holds-add_types p path types (insert (full_path path t) ns),
  holds-insert p (full_path path t) ns,
)

add_types-Distinct :
    (path : Text) (types : List Text) (ns : UseNodes)
    → Distinct ns
    → Distinct (add_types path types ns)
unfolding add_types
add_types-Distinct path [] ns d = d
add_types-Distinct path (t ∷ types) ns d =
    add_types-Distinct path types (insert (full_path path t) ns)
      (insert-Distinct (full_path path t) ns d)

-- After `add` the statements hold what they held and what the new paths begin with, and no other.
pub holds-add :
    (path : Text) (types : List Text) (u v : Use) (p : List Text)
    → add path types u ≡ ok v
    → holds p v.trees ≡ (holds p u.trees || any (λ t. starts p (full_path path t)) types)
unfolding add
holds-add path [] u v p h = cc
holds-add path (t ∷ types) u v p h = ground (arith, holds-add_types p path (t ∷ types) u.trees)

pub add-Distinct :
    (path : Text) (types : List Text) (u v : Use)
    → add path types u ≡ ok v
    → Distinct u.trees
    → Distinct v.trees
unfolding add
add-Distinct path [] u v h d = cc
add-Distinct path (t ∷ types) u v h d =
    let e : add_types path (t ∷ types) u.trees ≡ v.trees = ground arith in
    rw (← e) (add_types-Distinct path (t ∷ types) u.trees d)

-- `add` fails exactly when it is given no type.
pub add_total :
    (path t : Text) (types : List Text) (u : Use) → (v : Use) × (add path (t ∷ types) u ≡ ok v)
unfolding add
add_total path t types u = (_, refl)
