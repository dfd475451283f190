-- ===== src/Codegen/Emission.antt =====
-- Emitting code step by step: that it succeeds, where it leaves the indentation, what it keeps of the
-- object in scope, and what its text does to a count, as of open braces.
pub mod Braces
pub mod Matches
pub mod Ifs
use typespec_rust.Prelude.{
  ℕ, zero, suc, Text, text, Bool, true, false, Option, none, some, List, [], ◌∷◌, ◌++◌, All, ◌≡◌,
  refl, arith, eqb, if◌then◌else◌,
}
use typespec_rust.Prelude.Result.{Result, ok, err}
use typespec_rust.Codegen.Indentation.{
  Emit, Indentation, ◌>>=◌, ◌>>◌, pure, get, push, pop, ◌+>◌, line, silently, each, calling, spaces,
  freshly, new_indentation,
}

-- What is said of the object before and after a step, and of the text.
pub record Account (S : Type 0) : Type 1 where
  pub Kept : S → S → Type 0
  pub kept_refl : (s : S) → Kept s s
  pub kept_trans : (a b c : S) → Kept a b → Kept b c → Kept a c
  pub Counts : ℕ → Text → ℕ → Type 0
  pub counts_empty : (k : ℕ) → Counts k [] k
  pub counts_append : (a b c : ℕ) (t u : Text) → Counts a t b → Counts b u c → Counts a (t ++ u) c
  pub counts_spaces : (k n : ℕ) → Counts k (spaces n) k

-- A run that ends at this level and with this count.
pub record Run {S : Type 0} (A : Account S) (s : S) (k level l : ℕ)
    (r : Result (Text × S × Indentation)) : Type 0 where
  pub emitted : Text
  pub after : S
  pub succeeds : r ≡ ok (emitted, after, record { level = level })
  pub keeps : A.Kept s after
  pub counts : A.Counts k emitted l

-- From the level `n` and the count `k` to the level `m` and the count `l`, for every object.
pub record Sound {S : Type 0} (A : Account S) (n k : ℕ) (e : Emit S Text) (m l : ℕ) : Type 0 where
  pub run : (s : S) → Run A s k m l (e s (record { level = n }))

module _ {S : Type 0} (A : Account S) where
  pub pure-Sound : {n k l : ℕ} (t : Text) → A.Counts k t l → Sound A n k (pure t) n l
  pure-Sound t c = record {
    run =
        λ s. record { emitted = t; after = s; succeeds = refl; keeps = A.kept_refl s; counts = c };
  }

  pub seq-Sound :
      {n m p k l q : ℕ} {e f : Emit S Text}
      → Sound A n k e m l
      → Sound A m l f p q
      → Sound A n k (e +> f) p q
  unfolding ◌+>◌
  seq-Sound a b = record {
    run = λ s.
        let x = a.run s in
        let y = b.run x.after in
        record {
          emitted = x.emitted ++ y.emitted;
          after = y.after;
          succeeds = ground (arith, x.succeeds, y.succeeds);
          keeps = A.kept_trans s x.after y.after x.keeps y.keeps;
          counts = A.counts_append _ _ _ x.emitted y.emitted x.counts y.counts;
        };
  }

  pub line-Sound : {n k l : ℕ} (t : Text) → A.Counts k t l → Sound A n k (line t) n l
  unfolding line get
  line-Sound {n} {k} {l} t c = record {
    run = λ s. record {
      emitted = spaces n ++ t;
      after = s;
      succeeds = refl;
      keeps = A.kept_refl s;
      counts = A.counts_append k k l (spaces n) t (A.counts_spaces k n) c;
    };
  }

  -- A step with no text, at the end of which the level is this.
  moving :
      {n m k : ℕ} (e : Emit S Text)
      → ((s : S) → e s (record { level = n }) ≡ ok ([], s, record { level = m }))
      → Sound A n k e m k
  moving {n} {m} {k} e h = record {
    run = λ s. record {
      emitted = [];
      after = s;
      succeeds = h s;
      keeps = A.kept_refl s;
      counts = A.counts_empty k;
    };
  }

  pub push-Sound : {n k : ℕ} → Sound A n k (silently push) (suc n) k
  unfolding push silently
  push-Sound = moving (silently push) (λ s. refl)

  pub pop-Sound : {n k : ℕ} → Sound A (suc n) k (silently pop) n k
  unfolding pop silently
  pop-Sound = moving (silently pop) (λ s. refl)

  pub each-Sound :
      {X : Type 0} {n k : ℕ} (f : X → Emit S Text) (xs : List X)
      → All (λ x. Sound A n k (f x) n k) xs
      → Sound A n k (each f xs) n k
  unfolding each
  each-Sound {k = k} f [] a = pure-Sound [] (A.counts_empty k)
  each-Sound f (x ∷ xs) a = seq-Sound a.0 (each-Sound f xs a.1)

  pub calling-Sound :
      {n k : ℕ} (f : S → Result S)
      → ((s : S) → (t : S) × (f s ≡ ok t) × A.Kept s t)
      → Sound A n k (calling f) n k
  unfolding calling
  calling-Sound {n} {k} f h = record {
    run = λ s.
        let (t, e, r) = h s in
        record {
          emitted = [];
          after = t;
          succeeds = rw (calling, e) refl;
          keeps = r;
          counts = A.counts_empty k;
        };
  }

  pub freshly-Sound :
      {n m k l : ℕ} (e : Emit S Text) → Sound A 1 k e m l → Sound A n k (freshly e) n l
  unfolding freshly new_indentation
  freshly-Sound e a = record {
    run = λ s.
        let x = a.run s in
        record {
          emitted = x.emitted;
          after = x.after;
          succeeds = rw (freshly, x.succeeds) refl;
          keeps = x.keeps;
          counts = x.counts;
        };
  }
