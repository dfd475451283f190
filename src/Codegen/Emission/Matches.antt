-- ===== src/Codegen/Emission/Matches.antt =====
-- codegen/helpers.ts, `buildMatch`: a match of sound arms is sound.
use typespec_rust.Prelude.{
  ℕ, suc, Text, text, some, List, [], ◌∷◌, ◌++◌, All, ◌≡◌, refl, arith, append-nil, ◌∙◌, sym, ap,
}
use typespec_rust.Codegen.Use.{Use}
use typespec_rust.Codegen.Use.Extends.{Extends-refl, Extends-trans}
use typespec_rust.Codegen.Indentation.{get, push, pop, spaces}
use typespec_rust.Codegen.Blocks.{MatchArm, match_arm, match_arms, build_match, returns_text}
use typespec_rust.Codegen.Emission.{Sound}
use typespec_rust.Codegen.Emission.Braces.{
  braces, BraceFree, braces-append, braces-empty, braces-spaces, braces-through, using,
}

pub BraceFree-braces : (k : ℕ) (t : Text) → BraceFree t → braces k t ≡ some k
BraceFree-braces k t f =
    ap (braces k) (sym (append-nil t)) ∙ braces-through t [] k f ∙ braces-empty k

-- An arm without a return, with its body, below the match.
pub record ArmSound (P : Type 0) (n k : ℕ) (a : MatchArm Use) : Type 0 where
  pub pattern : P → BraceFree a.pattern_text
  pub no_return : returns_text a.returns ≡ []
  pub body : Sound (using P) (suc n) (suc k) a.body (suc n) (suc k)

-- The text of an arm around the text of its body.
arm_braces :
    (n k : ℕ) (p r b : Text)
    → BraceFree p
    → r ≡ []
    → braces (suc k) b ≡ some (suc k)
    → braces k (spaces n ++ p ++ text " => " ++ r ++ text "{\n" ++ b ++ spaces n ++ text "},\n")
      ≡ some k
unfolding braces
arm_braces n k p r b f none_there inside =
    let t1 = spaces n ++ p in
    let a1 = braces-append k k k (spaces n) p (braces-spaces k n) (BraceFree-braces k p f) in
    let t2 = t1 ++ text " => " in
    let a2 = braces-append k k k t1 (text " => ") a1 refl in
    let a3 = braces-append k k k t2 r a2 (ap (braces k) none_there ∙ braces-empty k) in
    let t3 = t2 ++ r ++ text "{\n" in
    let a4 = braces-append k k (suc k) (t2 ++ r) (text "{\n") a3 refl in
    let a5 = braces-append k (suc k) (suc k) t3 b a4 inside in
    let t4 = t3 ++ b ++ spaces n in
    let a6 = braces-append k (suc k) (suc k) (t3 ++ b) (spaces n) a5 (braces-spaces (suc k) n) in
    braces-append k (suc k) k t4 (text "},\n") a6 refl

match_arm-Sound :
    {P : Type 0} {n k : ℕ} (a : MatchArm Use)
    → ArmSound P n k a
    → Sound (using P) n k (match_arm a) n k
unfolding match_arm get push pop
match_arm-Sound {n} {k} a h = record {
  run = λ s.
      let x = h.body.run s in
      record {
        emitted =
            spaces n
            ++ a.pattern_text
            ++ text " => "
            ++ returns_text a.returns
            ++ text "{\n"
            ++ x.emitted
            ++ spaces n
            ++ text "},\n";
        after = x.after;
        succeeds = ground (arith, x.succeeds);
        keeps = x.keeps;
        counts = λ p.
            arm_braces n k a.pattern_text (returns_text a.returns) x.emitted (h.pattern p)
              h.no_return (x.counts p);
      };
}

match_arms-Sound :
    {P : Type 0} {n k : ℕ} (arms : List (MatchArm Use))
    → All (ArmSound P n k) arms
    → Sound (using P) n k (match_arms arms) n k
unfolding match_arms
match_arms-Sound {n} {k} [] h = record {
  run = λ s. record {
    emitted = [];
    after = s;
    succeeds = refl;
    keeps = Extends-refl s;
    counts = λ p. braces-empty k;
  };
}
match_arms-Sound {n} {k} (a ∷ rest) h = record {
  run = λ s.
      let x = (match_arm-Sound a h.0).run s in
      let y = (match_arms-Sound rest h.1).run x.after in
      record {
        emitted = x.emitted ++ y.emitted;
        after = y.after;
        succeeds = ground (arith, x.succeeds, y.succeeds);
        keeps = Extends-trans x.keeps y.keeps;
        counts = λ p. braces-append k k k x.emitted y.emitted (x.counts p) (y.counts p);
      };
}

pub build_match-Sound :
    {P : Type 0} {n k : ℕ} (expr : Text) (arms : List (MatchArm Use))
    → (P → BraceFree expr)
    → All (ArmSound P (suc n) (suc k)) arms
    → Sound (using P) n k (build_match expr arms) n k
unfolding build_match get push pop braces
build_match-Sound {n} {k} expr arms f h = record {
  run = λ s.
      let x = (match_arms-Sound arms h).run s in
      record {
        emitted = text "match " ++ expr ++ text " {\n" ++ x.emitted ++ spaces n ++ text "}";
        after = x.after;
        succeeds = ground (arith, x.succeeds);
        keeps = x.keeps;
        counts = λ p.
            let a1 =
              braces-append k k k (text "match ") expr refl (BraceFree-braces k expr (f p)) in
            let a2 = braces-append k k (suc k) (text "match " ++ expr) (text " {\n") a1 refl in
            let t = text "match " ++ expr ++ text " {\n" in
            let a3 = braces-append k (suc k) (suc k) t x.emitted a2 (x.counts p) in
            let a4 =
              braces-append k (suc k) (suc k) (t ++ x.emitted) (spaces n) a3
                (braces-spaces (suc k) n) in
            braces-append k (suc k) k (t ++ x.emitted ++ spaces n) (text "}") a4 refl;
      };
}

pub get-Sound : {P : Type 0} {n k : ℕ} → Sound (using P) n k get n k
unfolding get
get-Sound {n} {k} = record {
  run = λ s. record {
    emitted = spaces n;
    after = s;
    succeeds = refl;
    keeps = Extends-refl s;
    counts = λ p. braces-spaces k n;
  };
}
