-- ===== src/Codegen/Manifest/Order.antt =====
-- codemodel/crate.ts, codegen/codeGenerator.ts and codegen/cargotoml.ts together: the order in which the
-- dependencies were added does not matter for Cargo.toml.
use typespec_rust.Prelude.{Text, true, false, List, [], ◌∷◌, ==_iff, ◌≡◌, refl, arith, sym, ◌∙◌}
use typespec_rust.Prelude.Order.{less, less_trans, less_total}
use typespec_rust.Prelude.Sort.{insert_sorted}
use typespec_rust.Codemodel.Crate.{Crate, CrateDependency, add_dependency}
use typespec_rust.Codemodel.Crate.Features.{requires, depends_on, requires-add_dependency}
use typespec_rust.Codemodel.Crate.Names.{
  UniqueNames, depends_on-add_dependency, add_dependency-UniqueNames,
}
use typespec_rust.Codegen.Manifest.{emit_cargo_toml, sort_dependencies}
use typespec_rust.Codegen.Manifest.Features.{NoRepeats, merged-NoRepeats}
use typespec_rust.Codegen.Manifest.Canonical.{
  SameRequests, Clean, Above, Strict, dependencies_text_canonical,
}

abbrev put : CrateDependency → List CrateDependency → List CrateDependency
put = insert_sorted (λ d. d.name)

depends_on-put :
    (n : Text) (d : CrateDependency) (ds : List CrateDependency)
    → depends_on n (put d ds) ≡ depends_on n (d ∷ ds)
unfolding depends_on insert_sorted
depends_on-put n d [] = refl
depends_on-put n d (e ∷ ds) = ground (arith, depends_on-put n d ds)

requires-put :
    (n f : Text) (d : CrateDependency) (ds : List CrateDependency)
    → requires n f (put d ds) ≡ requires n f (d ∷ ds)
unfolding requires insert_sorted
requires-put n f d [] = refl
requires-put n f d (e ∷ ds) = ground (arith, requires-put n f d ds)

put-Clean :
    (d : CrateDependency) (ds : List CrateDependency)
    → NoRepeats d.features
    → Clean ds
    → Clean (put d ds)
unfolding insert_sorted
put-Clean d [] n c = (n, tt)
put-Clean d (e ∷ ds) n c = ground (arith, put-Clean d ds n c.1)

Above-trans : (m n : Text) (ds : List CrateDependency) → less m n ≡ true → Above n ds → Above m ds
Above-trans m n [] h a = tt
Above-trans m n (d ∷ ds) h a = (less_trans m n d.name h a.0, Above-trans m n ds h a.1)

put-Above :
    (n : Text) (d : CrateDependency) (ds : List CrateDependency)
    → less n d.name ≡ true
    → Above n ds
    → Above n (put d ds)
unfolding insert_sorted
put-Above n d [] h a = (h, tt)
put-Above n d (e ∷ ds) h a = ground (arith, put-Above n d ds h a.1)

put-Strict :
    (d : CrateDependency) (ds : List CrateDependency)
    → depends_on d.name ds ≡ false
    → Strict ds
    → Strict (put d ds)
unfolding insert_sorted depends_on
put-Strict d [] h s = (tt, tt)
put-Strict d (e ∷ ds) h s = ground (
  arith,
  put-Strict d ds,
  put-Above e.name d ds,
  less_total d.name e.name,
  ==_iff e.name d.name,
  Above-trans d.name e.name ds,
)

sort_requests : (ds : List CrateDependency) → SameRequests (sort_dependencies ds) ds
unfolding sort_dependencies depends_on requires
sort_requests [] = record { crates = λ n. refl; features = λ n f. refl }
sort_requests (d ∷ ds) = record {
  crates =
      λ n. ground (arith, depends_on-put n d (sort_dependencies ds), (sort_requests ds).crates n);
  features = λ n f.
      ground (arith, requires-put n f d (sort_dependencies ds), (sort_requests ds).features n f);
}

sort-Strict : (ds : List CrateDependency) → UniqueNames ds → Strict (sort_dependencies ds)
unfolding sort_dependencies
sort-Strict [] u = tt
sort-Strict (d ∷ ds) u =
    put-Strict d (sort_dependencies ds) ((sort_requests ds).crates d.name ∙ u.0)
      (sort-Strict ds u.1)

sort-Clean : (ds : List CrateDependency) → Clean ds → Clean (sort_dependencies ds)
unfolding sort_dependencies
sort-Clean [] c = tt
sort-Clean (d ∷ ds) c = put-Clean d (sort_dependencies ds) c.0 (sort-Clean ds c.1)

-- With one entry per crate and no repeated feature, the Cargo.toml of a crate whose dependencies are sorted depends only on which crates are there and which features of each.
pub emit_cargo_toml_canonical :
    (c : Crate) (ds es : List CrateDependency)
    → UniqueNames ds
    → UniqueNames es
    → Clean ds
    → Clean es
    → SameRequests ds es
    → emit_cargo_toml (record c { dependencies = sort_dependencies ds })
      ≡ emit_cargo_toml (record c { dependencies = sort_dependencies es })
unfolding emit_cargo_toml
emit_cargo_toml_canonical c ds es u v k l same =
    rw
      (dependencies_text_canonical (sort_dependencies ds) (sort_dependencies es) (sort-Strict ds u)
        (sort-Strict es v) (sort-Clean ds k) (sort-Clean es l) sorted)
      refl
  where
    sorted : SameRequests (sort_dependencies ds) (sort_dependencies es)
    sorted = record {
      crates =
          λ n. (sort_requests ds).crates n ∙ (same.crates n ∙ sym ((sort_requests es).crates n));
      features = λ n f.
          (sort_requests ds).features n f
          ∙ (same.features n f ∙ sym ((sort_requests es).features n f));
    }

add_dependency-Clean :
    (d : CrateDependency) (ds : List CrateDependency)
    → NoRepeats d.features
    → Clean ds
    → Clean (add_dependency d ds)
unfolding add_dependency
add_dependency-Clean d [] n c = (n, tt)
add_dependency-Clean d (e ∷ ds) n c =
    ground (arith, add_dependency-Clean d ds n c.1, merged-NoRepeats e.features d.features c.0 n)

add_comm-requests :
    (d e : CrateDependency) (ds : List CrateDependency)
    → SameRequests (add_dependency e (add_dependency d ds)) (add_dependency d (add_dependency e ds))
add_comm-requests d e ds = record {
  crates = λ n. ground (
    arith,
    depends_on-add_dependency e (add_dependency d ds) n,
    depends_on-add_dependency d ds n,
    depends_on-add_dependency d (add_dependency e ds) n,
    depends_on-add_dependency e ds n,
  );
  features = λ n f. ground (
    arith,
    requires-add_dependency e (add_dependency d ds) n f,
    requires-add_dependency d ds n f,
    requires-add_dependency d (add_dependency e ds) n f,
    requires-add_dependency e ds n f,
  );
}

-- On dependencies with one entry per crate and no repeated feature, two calls of `addDependency` without
-- repeated features lead to the same Cargo.toml in either order.
pub emit_cargo_toml-add_dependency :
    (c : Crate) (d e : CrateDependency) (ds : List CrateDependency)
    → UniqueNames ds
    → Clean ds
    → NoRepeats d.features
    → NoRepeats e.features
    → emit_cargo_toml
        (record c { dependencies = sort_dependencies (add_dependency e (add_dependency d ds)) })
      ≡ emit_cargo_toml
          (record c { dependencies = sort_dependencies (add_dependency d (add_dependency e ds)) })
emit_cargo_toml-add_dependency c d e ds u k n m =
    emit_cargo_toml_canonical c _ _
      (add_dependency-UniqueNames e _ (add_dependency-UniqueNames d ds u))
      (add_dependency-UniqueNames d _ (add_dependency-UniqueNames e ds u))
      (add_dependency-Clean e _ m (add_dependency-Clean d ds n k))
      (add_dependency-Clean d _ n (add_dependency-Clean e ds m k)) (add_comm-requests d e ds)
