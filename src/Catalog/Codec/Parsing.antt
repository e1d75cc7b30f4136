-- ===== src/Catalog/Codec/Parsing.antt =====
-- Runs of readers (crates/catalog/src/codec.rs) by the bytes that they take from the front.
use mathlib.Core.List.{append_assoc}
use chili_db.Prelude.{◌≡◌, refl, sym, ap, ◌∙◌, [], ◌++◌, ok, err, panic, All, Yields}
use chili_db.Prelude.Methods.{Ensures, resume-Ensures, pure, inspect, lift, ◌>>=◌}
use chili_db.Bytes.{Bytes, IsByte}
use chili_db.Catalog.Codec.{R}
use chili_db.Catalog.Codec.Decode.{Reader}

-- What a reader has answered, the bytes that it took, and those that are left.
abbrev pub Outcome : Type 0 → Type 1
Outcome A = A → Bytes → Bytes → Type 0

-- The reader does not panic, and an answer comes with the bytes taken from the front.
abbrev pub Parses : {A : Type 0} → Reader A → Bytes → Outcome A → Type 0
Parses {A} reader bytes Q =
    Ensures (λ a rest. (used : Bytes) × (bytes ≡ used ++ rest) × All IsByte rest × Q a used rest)
      (λ rest. Unit {0}) (reader bytes)

-- The bytes taken are those of the answer, which has a property.
abbrev pub Exact : {A : Type 0} → (A → Bytes) → (A → Type 0) → Outcome A
Exact f P a used rest = (used ≡ f a) × P a

module _ {A B : Type 0} where
  pub bind-Parses :
      (Q : Outcome A) (T : Outcome B) (first : Reader A) (next : A → Reader B) (bytes : Bytes)
      → Parses first bytes Q
      → ((a : A) (used rest : Bytes)
          → All IsByte rest
          → Q a used rest
          → Parses (next a) rest (λ b more rest'. T b (used ++ more) rest'))
      → Parses (first >>= next) bytes T
  bind-Parses Q T first next bytes h k =
      resume-Ensures
        (λ a rest. (used : Bytes) × (bytes ≡ used ++ rest) × All IsByte rest × Q a used rest)
        (λ rest. Unit {0})
        (λ b rest. (used : Bytes) × (bytes ≡ used ++ rest) × All IsByte rest × T b used rest)
        (λ rest. Unit {0}) next (first bytes) h
        (λ a rest got. after a rest got (next a rest) (k a got.0 rest got.2 got.3)) (λ s e. e)
    where
      after :
          (a : A) (rest : Bytes)
          (got : (used : Bytes) × (bytes ≡ used ++ rest) × All IsByte rest × Q a used rest)
          (r : Bytes × R B)
          → Ensures
              (λ b rest'.
                (more : Bytes) × (rest ≡ more ++ rest')
                × All IsByte rest'
                × T b (got.0 ++ more) rest')
              (λ s. Unit {0})
              r
          → Ensures
              (λ b rest'.
                (used : Bytes) × (bytes ≡ used ++ rest') × All IsByte rest' × T b used rest')
              (λ s. Unit {0})
              r
      after a rest got (rest', ok b) h = (
        got.0 ++ h.0,
        got.1 ∙ ap (λ x. got.0 ++ x) h.1 ∙ sym (append_assoc got.0 h.0 rest'),
        h.2,
        h.3,
      )
      after a rest got (rest', err e) h = tt
      after a rest got (rest', panic) h = h

module _ {A : Type 0} where
  pub inspect-Parses :
      (Q : Outcome A) (look : Bytes → R A) (bytes : Bytes)
      → All IsByte bytes
      → Yields (λ a. Q a [] bytes) (look bytes)
      → Parses (inspect look) bytes Q
  inspect-Parses Q look bytes whole h = of (look bytes) h
    where
      of :
          (r : R A)
          → Yields (λ a. Q a [] bytes) r
          → Ensures
              (λ a rest. (used : Bytes) × (bytes ≡ used ++ rest) × All IsByte rest × Q a used rest)
              (λ s. Unit {0})
              (bytes, r)
      of (ok a) h = ([], refl, whole, h)
      of (err e) h = tt
      of panic h = h

  pub lift-Parses :
      (Q : Outcome A) (r : R A) (bytes : Bytes)
      → All IsByte bytes
      → Yields (λ a. Q a [] bytes) r
      → Parses (lift r) bytes Q
  lift-Parses Q r bytes whole h = inspect-Parses Q (λ b. r) bytes whole h

  pub pure-Parses :
      (Q : Outcome A) (a : A) (bytes : Bytes)
      → All IsByte bytes
      → Q a [] bytes
      → Parses (pure a) bytes Q
  pure-Parses Q a bytes whole h = ([], refl, whole, h)
