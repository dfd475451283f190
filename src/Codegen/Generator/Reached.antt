-- ===== src/Codegen/Generator/Reached.antt =====
-- codegen/codeGenerator.ts, `recursiveEmit`: every module below the crate is emitted in its directory.
use typespec_rust.Prelude.{Text, text, List, [], ◌∷◌, ◌++◌, ◌≡◌, ◌⊎◌, inl, inr, refl, arith}
use mathlib.Core.Path.{subst}
use mathlib.Core.List.{Mem, mem-append_left, mem-append_right, mem-cons_self, mem-cons_of_mem}
use typespec_rust.Prelude.Result.{Result, ok, >>=-eq-ok}
use typespec_rust.Codemodel.Crate.{ModuleContainer, crate, sub_module}
use typespec_rust.Codemodel.Client.{ModuleBase, SubModules, nil, cons, node}
use typespec_rust.Codemodel.Client as Client
use typespec_rust.Codegen.ModFiles.{emit_sub_mod_rs}
use typespec_rust.Codegen.Generator.{File, sub_dir, mod_file, recursive_emit, emit_subs}

-- The directory of a sub-module stands in that of its parent, and has the sub-module's name.
abbrev pub under : Client.Module → Text → Text
under (node (crate i name) b subs) d = d ++ (name ++ text "/")
under (node (sub_module i name parent) b subs) d = d ++ (name ++ text "/")

-- The mod.rs of a sub-module: the file in its directory, with its declarations.
abbrev pub mod_rs : Client.Module → Text → File
mod_rs (node c b subs) d = record { name = d ++ text "mod.rs"; content = emit_sub_mod_rs b subs }

sub_dir-under : (m : Client.Module) (d : Text) → sub_dir m d ≡ under m d
unfolding sub_dir
sub_dir-under (node (crate i name) b subs) d = refl
sub_dir-under (node (sub_module i name parent) b subs) d = refl

mod_file_rs : (m : Client.Module) (d : Text) → mod_file m d ≡ mod_rs m d
unfolding mod_file
mod_file_rs (node c b subs) d = refl

-- The second module, in the second directory, is the first or below it.
abbrev mutual
  pub Below : Client.Module → Text → Client.Module → Text → Type 0
  Below (node c b subs) d n e = ((node c b subs ≡ n) × (d ≡ e)) ⊎ BelowSubs subs d n e

  -- It is one of the sub-modules or below one.
  pub BelowSubs : SubModules → Text → Client.Module → Text → Type 0
  BelowSubs nil d n e = ⊥
  BelowSubs (cons m ms) d n e = Below m (under m d) n e ⊎ BelowSubs ms d n e

-- The files that the callback gives for a module in a directory, among others.
pub record Emits (emit : Client.Module → Text → Result (List File)) (n : Client.Module) (e : Text)
    (files : List File) : Type 0 where
  pub own : List File
  pub gives : emit n e ≡ ok own
  pub among : (x : File) → Mem x own → Mem x files

Emits-more :
    {emit : Client.Module → Text → Result (List File)} {n : Client.Module} {e : Text}
    (files more : List File)
    → ((x : File) → Mem x files → Mem x more)
    → Emits emit n e files
    → Emits emit n e more
Emits-more files more f h = record {
  own = h.own;
  gives = h.gives;
  among = λ x p. f x (h.among x p);
}

-- The results that a run over a module puts together.
record Parts (emit : Client.Module → Text → Result (List File)) (m : Client.Module)
    (subs : SubModules) (d : Text) (files : List File) : Type 0 where
  pub own : List File
  pub rest : List File
  pub gives : emit m d ≡ ok own
  pub below : emit_subs emit subs d ≡ ok rest
  pub together : own ++ rest ≡ files

recursive_emit-Parts :
    (emit : Client.Module → Text → Result (List File)) (c : ModuleContainer) (b : ModuleBase)
    (subs : SubModules) (d : Text) (files : List File)
    → recursive_emit emit (node c b subs) d ≡ ok files
    → Parts emit (node c b subs) subs d files
unfolding recursive_emit
recursive_emit-Parts emit c b subs d files r =
    let (own, a, s) = >>=-eq-ok (emit (node c b subs) d) _ r in
    let (rest, t, z) = >>=-eq-ok (emit_subs emit subs d) _ s in
    record { own = own; rest = rest; gives = a; below = t; together = ground arith }

-- The results that a run over sub-modules puts together.
record SubParts (emit : Client.Module → Text → Result (List File)) (m : Client.Module)
    (ms : SubModules) (d : Text) (files : List File) : Type 0 where
  pub own : List File
  pub rest : List File
  pub gives : recursive_emit emit m (under m d) ≡ ok own
  pub behind : emit_subs emit ms d ≡ ok rest
  pub together : mod_rs m (under m d) ∷ (own ++ rest) ≡ files

emit_subs-SubParts :
    (emit : Client.Module → Text → Result (List File)) (m : Client.Module) (ms : SubModules)
    (d : Text) (files : List File)
    → emit_subs emit (cons m ms) d ≡ ok files
    → SubParts emit m ms d files
unfolding emit_subs
emit_subs-SubParts emit m ms d files r' =
    let r = rw (sub_dir-under m d, mod_file_rs m (under m d)) at r' in
    let (own, a, s) = >>=-eq-ok (recursive_emit emit m (under m d)) _ r in
    let (rest, t, z) = >>=-eq-ok (emit_subs emit ms d) _ s in
    record { own = own; rest = rest; gives = a; behind = t; together = ground arith }

mutual
  reached :
      (emit : Client.Module → Text → Result (List File)) (m : Client.Module) (d : Text)
      (n : Client.Module) (e : Text) (files : List File)
      → recursive_emit emit m d ≡ ok files
      → Below m d n e
      → Emits emit n e files
  reached emit (node c b subs) d n e files r (inl (p, q)) =
      let h = recursive_emit-Parts emit c b subs d files r in
      record {
        own = h.own;
        gives = subst (λ x. emit n x ≡ ok h.own) q (subst (λ x. emit x d ≡ ok h.own) p h.gives);
        among = λ x k. subst (Mem x) h.together (mem-append_left h.rest k);
      }
  reached emit (node c b subs) d n e files r (inr k) =
      let h = recursive_emit-Parts emit c b subs d files r in
      Emits-more h.rest files (λ x i. subst (Mem x) h.together (mem-append_right h.own i))
        (reached_sub emit subs d n e h.rest h.below k)

  reached_sub :
      (emit : Client.Module → Text → Result (List File)) (ms : SubModules) (d : Text)
      (n : Client.Module) (e : Text) (files : List File)
      → emit_subs emit ms d ≡ ok files
      → BelowSubs ms d n e
      → Emits emit n e files
  reached_sub emit nil d n e files r k = absurd k
  reached_sub emit (cons m ms) d n e files r (inl k) =
      let h = emit_subs-SubParts emit m ms d files r in
      Emits-more h.own files
        (λ x i. subst (Mem x) h.together (mem-cons_of_mem _ (mem-append_left h.rest i)))
        (reached emit m (under m d) n e h.own h.gives k)
  reached_sub emit (cons m ms) d n e files r (inr k) =
      let h = emit_subs-SubParts emit m ms d files r in
      Emits-more h.rest files
        (λ x i. subst (Mem x) h.together (mem-cons_of_mem _ (mem-append_right h.own i)))
        (reached_sub emit ms d n e h.rest h.behind k)

-- Each sub-module's own mod.rs, wherever it stands below.
mutual
  declared :
      (emit : Client.Module → Text → Result (List File)) (m : Client.Module) (d : Text)
      (n : Client.Module) (e : Text) (files : List File)
      → recursive_emit emit m d ≡ ok files
      → Below m d n e
      → ((m ≡ n) × (d ≡ e)) ⊎ Mem (mod_rs n e) files
  declared emit (node c b subs) d n e files r (inl k) = inl k
  declared emit (node c b subs) d n e files r (inr k) =
      let h = recursive_emit-Parts emit c b subs d files r in
      inr (
        subst (Mem (mod_rs n e)) h.together
          (mem-append_right h.own (declared_sub emit subs d n e h.rest h.below k)))

  declared_sub :
      (emit : Client.Module → Text → Result (List File)) (ms : SubModules) (d : Text)
      (n : Client.Module) (e : Text) (files : List File)
      → emit_subs emit ms d ≡ ok files
      → BelowSubs ms d n e
      → Mem (mod_rs n e) files
  declared_sub emit nil d n e files r k = absurd k
  declared_sub emit (cons m ms) d n e files r (inl k) =
      let h = emit_subs-SubParts emit m ms d files r in
      subst (Mem (mod_rs n e)) h.together (elim (declared emit m (under m d) n e h.own h.gives k) [
        | inl (p, q) ↦
            subst (λ x. Mem (mod_rs n x) (mod_rs m (under m d) ∷ (h.own ++ h.rest))) q
              (subst (λ x. Mem (mod_rs x (under m d)) (mod_rs m (under m d) ∷ (h.own ++ h.rest))) p
                mem-cons_self)
        | inr i ↦ mem-cons_of_mem _ (mem-append_left h.rest i)
      ])
  declared_sub emit (cons m ms) d n e files r (inr k) =
      let h = emit_subs-SubParts emit m ms d files r in
      subst (Mem (mod_rs n e)) h.together
        (mem-cons_of_mem _ (mem-append_right h.own (declared_sub emit ms d n e h.rest h.behind k)))

-- The callback gives files for a module in a directory.
abbrev pub Gives : (Client.Module → Text → Result (List File)) → Client.Module → Text → Type 0
Gives emit n e = (own : List File) × (emit n e ≡ ok own)

mutual
  unfolding recursive_emit emit_subs

  total :
      (emit : Client.Module → Text → Result (List File)) (m : Client.Module) (d : Text)
      → ((n : Client.Module) (e : Text) → Below m d n e → Gives emit n e)
      → (files : List File) × (recursive_emit emit m d ≡ ok files)
  total emit (node c b subs) d g =
      let (own, p) = g (node c b subs) d (inl (refl, refl)) in
      let (rest, q) = total_sub emit subs d (λ n e k. g n e (inr k)) in
      (own ++ rest, rw (p, q) refl)

  total_sub :
      (emit : Client.Module → Text → Result (List File)) (ms : SubModules) (d : Text)
      → ((n : Client.Module) (e : Text) → BelowSubs ms d n e → Gives emit n e)
      → (files : List File) × (emit_subs emit ms d ≡ ok files)
  total_sub emit nil d g = ([], refl)
  total_sub emit (cons m ms) d g =
      let (own, p) = total emit m (under m d) (λ n e k. g n e (inl k)) in
      let (rest, q) = total_sub emit ms d (λ n e k. g n e (inr k)) in
      (
        mod_rs m (under m d) ∷ (own ++ rest),
        rw (sub_dir-under m d, mod_file_rs m (under m d), p, q) refl,
      )

-- Where the callback gives files for every module at and below a module, in its directory,
-- `recursiveEmit` gives files, among which are all files of each of these modules, and the mod.rs of
-- each but the first, in the directory of that module; a sub-module's directory is its parent's, its
-- name and a slash.
pub recursive_emit-Emits :
    (emit : Client.Module → Text → Result (List File)) (m : Client.Module) (d : Text)
    → ((n : Client.Module) (e : Text) → Below m d n e → Gives emit n e)
    → (files : List File) × (recursive_emit emit m d ≡ ok files)
      × ((n : Client.Module) (e : Text)
          → Below m d n e
          → Emits emit n e files × (((m ≡ n) × (d ≡ e)) ⊎ Mem (mod_rs n e) files))
recursive_emit-Emits emit m d g =
    let (files, r) = total emit m d g in
    (files, r, λ n e k. (reached emit m d n e files r k, declared emit m d n e files r k))
