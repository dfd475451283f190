-- ===== src/Codegen/Emission/Ifs.antt =====
-- codegen/helpers.ts, `buildIfBlock`: an if block around a sound body is sound.
use typespec_rust.Prelude.{ℕ, suc, Text, text, none, [], ◌++◌, refl, arith}
use typespec_rust.Codegen.Use.{Use}
use typespec_rust.Codegen.Indentation.{Emit, get, push, pop, spaces}
use typespec_rust.Codegen.Blocks.{build_if_block, else_text}
use typespec_rust.Codegen.Emission.{Sound}
use typespec_rust.Codegen.Emission.Braces.{braces, BraceFree, braces-append, braces-spaces, using}
use typespec_rust.Codegen.Emission.Matches.{BraceFree-braces}

-- An if block without an else.
pub build_if_block-Sound :
    {P : Type 0} {n k : ℕ} (c : Text) (body : Emit Use Text)
    → BraceFree c
    → Sound (using P) (suc n) (suc k) body (suc n) (suc k)
    → Sound (using P) n k (build_if_block (record { condition = c; body = body }) none) n k
unfolding build_if_block else_text get push pop braces
build_if_block-Sound {P} {n} {k} c body f h = record {
  run = λ s.
      let x = h.run s in
      let t = text "if " ++ c ++ text " {\n" in
      record {
        emitted = t ++ x.emitted ++ spaces n ++ text "}" ++ [];
        after = x.after;
        succeeds = ground (arith, x.succeeds);
        keeps = x.keeps;
        counts = λ p.
            let a1 = braces-append k k k (text "if ") c refl (BraceFree-braces k c f) in
            let a2 = braces-append k k (suc k) (text "if " ++ c) (text " {\n") a1 refl in
            let a3 = braces-append k (suc k) (suc k) t x.emitted a2 (x.counts p) in
            let a4 =
              braces-append k (suc k) (suc k) (t ++ x.emitted) (spaces n) a3
                (braces-spaces (suc k) n) in
            let a5 = braces-append k (suc k) k (t ++ x.emitted ++ spaces n) (text "}") a4 refl in
            braces-append k k k (t ++ x.emitted ++ spaces n ++ text "}") [] a5 refl;
      };
}
