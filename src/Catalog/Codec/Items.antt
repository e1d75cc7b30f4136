-- ===== src/Catalog/Codec/Items.antt =====
-- The items of a record of crates/catalog/src/codec.rs, by the bytes that they were read from.
use mathlib.Core.List.{append-nil}
use chili_db.Prelude.{
  ℕ, zero, suc, ◌<◌, ◌≡◌, ◌≢◌, refl, sym, ap, ap₂, ◌∙◌, inl, inr, Bool, false, none, some, List, [],
  ◌∷◌, ◌++◌, ◌==◌, if◌then◌else◌, length, ok, err, All, arith, Bool-cases, Yields,
}
use chili_db.Prelude.Methods.{pure, lift, ◌>>=◌}
use chili_db.Bytes.{Bytes, IsByte, u32_bytes}
use chili_db.Binder.Types.{
  LogicalType, null, boolean, int32, int64, uint32, float32, float64, text, varchar, ColumnSchema,
  TableConstraint,
}
use chili_db.Catalog.Codec.{zero_varchar, flag}
use chili_db.Catalog.Codec.Written.{
  all_bytes, string_bytes, tag_bytes, column_bytes, constraint_bytes, IsCount, ColumnFits,
  ConstraintFits,
}
use chili_db.Catalog.Codec.RoundTrip.{IsType, IsColumn}
use chili_db.Catalog.Codec.Decode.{
  byte, number, count, string, nullable_of, bounded, type_of, logical_type, column, repeat,
  constraint_of, constraint,
}
use chili_db.Catalog.Codec.Parsing.{Outcome, Parses, Exact, bind-Parses, lift-Parses, pure-Parses}
use chili_db.Catalog.Codec.Readers.{
  IsText, byte-Parses, number-Parses, string-Parses, counted-Parses,
}

abbrev IsKnown : LogicalType → Type 0
IsKnown t = IsType t × (t ≢ null)

-- What is read after the tag of a type, which `used` ends with.
abbrev Typed : Bytes → Outcome LogicalType
Typed used t more rest = Exact tag_bytes IsKnown t (used ++ more) rest

module _ (used rest : Bytes) (left : All IsByte rest) where
  known-Parses :
      (t : LogicalType) (tag : ℕ)
      → used ≡ tag ∷ []
      → tag_bytes t ≡ tag ∷ []
      → IsKnown t
      → Parses (pure t) rest (Typed used)
  known-Parses t tag is named known =
      pure-Parses (Typed used) t rest left (append-nil used ∙ is ∙ sym named, known)

  bounded-Parses : used ≡ 9 ∷ [] → Parses bounded rest (Typed used)
  unfolding bounded
  bounded-Parses is =
      bind-Parses (Exact u32_bytes IsCount) (Typed used) number
        (λ n. lift (if n == 0 then err zero_varchar else ok (varchar (some n)))) rest
        (number-Parses rest left)
        (λ n used' rest' left' h.
          lift-Parses (λ t more rest''. Typed used t (used' ++ more) rest'') _ rest' left'
            (positive n used' h))
    where
      positive :
          (n : ℕ) (used' : Bytes)
          → (used' ≡ u32_bytes n) × IsCount n
          → Yields
              (λ t. (used ++ (used' ++ []) ≡ tag_bytes t) × IsKnown t)
              (if n == 0 then err zero_varchar else ok (varchar (some n)))
      positive n used' h = elim (Bool-cases (n == 0)) [
        | inl none_left ↦ rw none_left tt
        | inr other ↦
            rw other
              (ap₂ (λ a b. a ++ b) is (append-nil used' ∙ h.0), ((ground arith, h.1), λ e. cc))
      ]

  type_of-Parses : (tag : ℕ) → used ≡ tag ∷ [] → Parses (type_of tag) rest (Typed used)
  type_of-Parses zero is = tt
  type_of-Parses (suc zero) is = known-Parses boolean 1 is refl (tt, λ e. cc)
  type_of-Parses (suc (suc zero)) is = known-Parses int32 2 is refl (tt, λ e. cc)
  type_of-Parses (suc (suc (suc zero))) is = known-Parses int64 3 is refl (tt, λ e. cc)
  type_of-Parses (suc (suc (suc (suc zero)))) is = known-Parses uint32 4 is refl (tt, λ e. cc)
  type_of-Parses (suc (suc (suc (suc (suc zero))))) is =
      known-Parses float32 5 is refl (tt, λ e. cc)
  type_of-Parses (suc (suc (suc (suc (suc (suc zero)))))) is =
      known-Parses float64 6 is refl (tt, λ e. cc)
  type_of-Parses (suc (suc (suc (suc (suc (suc (suc zero))))))) is =
      known-Parses text 7 is refl (tt, λ e. cc)
  type_of-Parses (suc (suc (suc (suc (suc (suc (suc (suc zero)))))))) is =
      known-Parses (varchar none) 8 is refl (tt, λ e. cc)
  type_of-Parses (suc (suc (suc (suc (suc (suc (suc (suc (suc zero))))))))) is = bounded-Parses is
  type_of-Parses (suc (suc (suc (suc (suc (suc (suc (suc (suc (suc n)))))))))) is =
      let tag : ℕ = suc (suc (suc (suc (suc (suc (suc (suc (suc (suc n))))))))) in
      let other : (k : ℕ) → k < 10 → (tag == k) ≡ false = λ k h. ground arith in
      rw
        (
          other 1 (omega arith),
          other 2 (omega arith),
          other 3 (omega arith),
          other 4 (omega arith),
          other 5 (omega arith),
          other 6 (omega arith),
          other 7 (omega arith),
          other 8 (omega arith),
          other 9 (omega arith),
        )
        tt

logical_type-Parses :
    (bytes : Bytes) → All IsByte bytes → Parses logical_type bytes (Exact tag_bytes IsKnown)
unfolding logical_type
logical_type-Parses bytes whole =
    bind-Parses (Exact (λ b. b ∷ []) IsByte) (Exact tag_bytes IsKnown) byte type_of bytes
      (byte-Parses bytes whole) (λ tag used rest left h. type_of-Parses used rest left tag h.0)

-- A tag that is the flag of the answer, once it is taken.
abbrev Flagged : ℕ → Outcome Bool
Flagged tag b used rest = (used ≡ []) × (tag ≡ flag b)

nullable_of-Flagged :
    (tag : ℕ) (rest : Bytes) → Yields (λ b. Flagged tag b [] rest) (nullable_of tag)
nullable_of-Flagged zero rest = (refl, refl)
nullable_of-Flagged (suc zero) rest = (refl, refl)
nullable_of-Flagged (suc (suc n)) rest =
    let not_zero : (suc (suc n) == 0) ≡ false = ground arith in
    let not_one : (suc (suc n) == 1) ≡ false = ground arith in rw (not_zero, not_one) tt

pub column-Parses :
    (bytes : Bytes)
    → All IsByte bytes
    → Parses column bytes (Exact column_bytes (λ c. IsColumn c × ColumnFits c))
unfolding column
column-Parses bytes whole =
    let Q : Outcome ColumnSchema = Exact column_bytes (λ c. IsColumn c × ColumnFits c) in
    bind-Parses (Exact string_bytes IsText) Q string
      (λ name.
        byte >>= λ tag. lift (nullable_of tag) >>= λ b. logical_type >>= λ t. pure (made name b t))
      bytes (string-Parses bytes whole)
      (λ name u₁ r₁ w₁ h₁.
        bind-Parses (Exact (λ b. b ∷ []) IsByte) (λ c more r. Q c (u₁ ++ more) r) byte
          (λ tag. lift (nullable_of tag) >>= λ b. logical_type >>= λ t. pure (made name b t)) r₁
          (byte-Parses r₁ w₁)
          (λ tag u₂ r₂ w₂ h₂.
            bind-Parses (Flagged tag) (λ c more r. Q c (u₁ ++ (u₂ ++ more)) r)
              (lift (nullable_of tag)) (λ b. logical_type >>= λ t. pure (made name b t)) r₂
              (lift-Parses (Flagged tag) (nullable_of tag) r₂ w₂ (nullable_of-Flagged tag r₂))
              (λ b u₃ r₃ w₃ h₃.
                bind-Parses (Exact tag_bytes IsKnown)
                  (λ c more r. Q c (u₁ ++ (u₂ ++ (u₃ ++ more))) r) logical_type
                  (λ t. pure (made name b t)) r₃ (logical_type-Parses r₃ w₃)
                  (λ t u₄ r₄ w₄ h₄.
                    pure-Parses (λ c more r. Q c (u₁ ++ (u₂ ++ (u₃ ++ (u₄ ++ more)))) r)
                      (made name b t) r₄ w₄
                      (
                        rw (h₁.0, h₂.0, h₃.0, h₃.1, h₄.0, append-nil (tag_bytes t)) refl,
                        ((h₁.1.1, h₄.1.0), (h₁.1.0, h₄.1.1)),
                      )))))
  where
    made : Bytes → Bool → LogicalType → ColumnSchema
    made name b t = record { name = name; data_type = t; nullable = b }

-- The bytes of a constraint after its tag.
abbrev keys_bytes : List ℕ → Bytes
keys_bytes is = u32_bytes (length is) ++ all_bytes u32_bytes is

tagged_keys :
    (tag : ℕ) (used : Bytes) (is : List ℕ)
    → used ≡ tag ∷ keys_bytes is
    → IsCount (length is) × All IsCount is
    → Yields (λ c. (used ≡ constraint_bytes c) × ConstraintFits c) (constraint_of tag is)
tagged_keys tag used is e fits = elim (Bool-cases (tag == 1)) [
  | inl primary ↦ rw primary (rw e (ap (λ k. k ∷ keys_bytes is) (ground arith)), fits)
  | inr other ↦ elim (Bool-cases (tag == 2)) [
    | inl two ↦ rw (other, two) (rw e (ap (λ k. k ∷ keys_bytes is) (ground arith)), fits)
    | inr unknown ↦ rw (other, unknown) tt
  ]
]

pub constraint-Parses :
    (bytes : Bytes)
    → All IsByte bytes
    → Parses constraint bytes (Exact constraint_bytes ConstraintFits)
unfolding constraint
constraint-Parses bytes whole =
    let Q : Outcome TableConstraint = Exact constraint_bytes ConstraintFits in
    bind-Parses (Exact (λ b. b ∷ []) IsByte) Q byte
      (λ tag. count >>= λ n. repeat n number >>= λ is. lift (constraint_of tag is)) bytes
      (byte-Parses bytes whole)
      (λ tag u₁ r₁ w₁ h₁.
        counted-Parses u32_bytes IsCount number number-Parses (λ c more r. Q c (u₁ ++ more) r)
          (λ is. lift (constraint_of tag is)) r₁ w₁
          (λ is u₂ u₃ r₃ w₃ h₂ h₃.
            lift-Parses (λ c more r. Q c (u₁ ++ (u₂ ++ (u₃ ++ more))) r) (constraint_of tag is) r₃
              w₃
              (tagged_keys tag (u₁ ++ (u₂ ++ (u₃ ++ []))) is
                (rw (h₁.0, h₂.0, h₃.0, append-nil (all_bytes u32_bytes is)) refl) (h₂.1, h₃.1))))
