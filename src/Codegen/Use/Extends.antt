-- ===== src/Codegen/Use/Extends.antt =====
-- codegen/use.ts, `Use.addForType`: what every call keeps, and steps that are done once.
use typespec_rust.Prelude.{Text, true, List, [], ◌∷◌, ◌≡◌, refl, arith, ◌∙◌, ap}
use typespec_rust.Prelude.Result.{Result, ok, throw, ◌>>=◌, >>=-eq-ok}
use typespec_rust.Codemodel.Crate.{ModuleContainer}
use typespec_rust.Codegen.UseTree.Paths.{holds, Distinct, holds-insert, insert-held, starts_refl}
use typespec_rust.Codegen.UseTree.{UseNodes, insert}
use typespec_rust.Codegen.Use.{Use, Scope, add, add_types}
use typespec_rust.Codegen.Use.Adds.{full_path, holds-add, holds-add_types, add-Distinct}

-- The second holds what the first holds, for the same module and scope, and is as well formed.
pub record Extends (u v : Use) : Type 0 where
  pub keeps : (p : List Text) → holds p u.trees ≡ true → holds p v.trees ≡ true
  pub same_scope : v.scope ≡ u.scope
  pub same_container : v.container ≡ u.container
  pub distinct : Distinct u.trees → Distinct v.trees

pub Extends-refl : (u : Use) → Extends u u
Extends-refl u = record {
  keeps = λ p h. h;
  same_scope = refl;
  same_container = refl;
  distinct = λ d. d;
}

pub Extends-trans : {u v w : Use} → Extends u v → Extends v w → Extends u w
Extends-trans a b = record {
  keeps = λ p h. b.keeps p (a.keeps p h);
  same_scope = b.same_scope ∙ a.same_scope;
  same_container = b.same_container ∙ a.same_container;
  distinct = λ d. b.distinct (a.distinct d);
}

-- A step that extends wherever it succeeds.
abbrev Extending : (Use → Result Use) → Type 0
Extending f = (u v : Use) → f u ≡ ok v → Extends u v

pub add-scope :
    (path : Text) (types : List Text) (u v : Use)
    → add path types u ≡ ok v
    → (v.scope ≡ u.scope) × (v.container ≡ u.container)
unfolding add
add-scope path [] u v h = cc
add-scope path (t ∷ types) u v h = ground arith

add-Extending : (path : Text) (types : List Text) → Extending (add path types)
add-Extending path types u v h = record {
  keeps = λ p k. ground (arith, holds-add path types u v p h);
  same_scope = (add-scope path types u v h).0;
  same_container = (add-scope path types u v h).1;
  distinct = add-Distinct path types u v h;
}

ok-Extending : Extending ok
ok-Extending u v h = let e : u ≡ v = ground arith in rw (← e) (Extends-refl u)

bind-Extending : (f g : Use → Result Use) → Extending f → Extending g → Extending (λ u. f u >>= g)
bind-Extending f g ef eg u w h =
    let (v, a, b) = >>=-eq-ok (f u) g h in Extends-trans (ef u v a) (eg v w b)

-- Done once, the step has nothing to do in what extends the result.
abbrev Stable : (Use → Result Use) → Type 0
Stable f = (u v w : Use) → f u ≡ ok v → Extends v w → Distinct w.trees → f w ≡ ok w

pub record Lawful (f : Use → Result Use) : Type 0 where
  pub extending : (u v : Use) → f u ≡ ok v → Extends u v
  pub stable : (u v w : Use) → f u ≡ ok v → Extends v w → Distinct w.trees → f w ≡ ok w

add_types-held :
    (path : Text) (types : List Text) (u w : UseNodes)
    → Distinct w
    → ((p : List Text) → holds p (add_types path types u) ≡ true → holds p w ≡ true)
    → add_types path types w ≡ w
unfolding add_types
add_types-held path [] u w d k = refl
add_types-held path (t ∷ types) u w d k =
    let q = full_path path t in
    let held : holds q (add_types path types (insert q u)) ≡ true =
      ground
        (arith, holds-add_types q path types (insert q u), holds-insert q q u, starts_refl q) in
    rw (insert-held q w d (k q held)) (add_types-held path types (insert q u) w d k)

add-Stable : (path : Text) (types : List Text) → Stable (add path types)
unfolding add
add-Stable path [] u v w h e d = cc
add-Stable path (t ∷ types) u v w h e d =
    let same : add_types path (t ∷ types) u.trees ≡ v.trees = ground arith in
    ap (λ (ns : UseNodes). ok (record w { trees = ns }))
      (add_types-held path (t ∷ types) u.trees w.trees d (λ p k. e.keeps p (rw same at k)))

pub add-Lawful : (path : Text) (types : List Text) → Lawful (add path types)
add-Lawful path types = record {
  extending = add-Extending path types;
  stable = add-Stable path types;
}

pub ok-Lawful : Lawful ok
ok-Lawful = record { extending = ok-Extending; stable = λ u v w h e d. refl }

pub throw-Lawful : (m : Text) → Lawful (λ u. throw m)
throw-Lawful m = record { extending = λ u v h. cc; stable = λ u v w h e d. cc }

bind-Stable : (f g : Use → Result Use) → Lawful f → Lawful g → Stable (λ u. f u >>= g)
bind-Stable f g ef eg u v w h e d =
    let (m, a, b) = >>=-eq-ok (f u) g h in
    rw (ef.stable u m w a (Extends-trans (eg.extending m v b) e) d) (eg.stable m v w b e d)

pub bind-Lawful : (f g : Use → Result Use) → Lawful f → Lawful g → Lawful (λ u. f u >>= g)
bind-Lawful f g ef eg = record {
  extending = bind-Extending f g ef.extending eg.extending;
  stable = bind-Stable f g ef eg;
}

-- A step may depend on what never changes, the scope and the module.
pub choose-Lawful :
    (f : Scope → ModuleContainer → Use → Result Use)
    → ((s : Scope) (c : ModuleContainer) → Lawful (f s c))
    → Lawful (λ u. f u.scope u.container u)
choose-Lawful f l = record {
  extending = λ u v h. (l u.scope u.container).extending u v h;
  stable = λ u v w h e d.
      let before = (l u.scope u.container).extending u v h in
      let scope_kept : w.scope ≡ u.scope = e.same_scope ∙ before.same_scope in
      let container_kept : w.container ≡ u.container = e.same_container ∙ before.same_container in
      cc ((l u.scope u.container).stable u v w h e d);
}
