-- ===== src/Catalog/Codec/Readers.antt =====
-- The readers of crates/catalog/src/codec.rs, by the bytes that they take.
use mathlib.Core.List.{append-nil}
use chili_db.Prelude.{
  List, ℕ, zero, suc, ◌≤◌, ◌≡◌, refl, sym, ap, ap₂, ◌∙◌, subst, inl, inr, true, [], ◌∷◌, ◌++◌, ltb,
  if◌then◌else◌, length, take, drop, ok, err, guard, All, arith, Bool-cases, Yields,
}
use chili_db.Prelude.Methods.{pure, ◌>>=◌}
use chili_db.Bytes.{Bytes, IsByte, bytes_eq, u32_bytes}
use chili_db.Bytes.Words.{u32_bytes-of, u32_of-lt}
use chili_db.Catalog.Codec.{invalid_count, invalid_utf8, unknown_record, table_tag}
use chili_db.Catalog.Utf8.{is_utf8}
use chili_db.Catalog.Codec.Written.{all_bytes, string_bytes, IsCount}
use chili_db.Catalog.Codec.RoundTrip.{IsString}
use chili_db.Catalog.Codec.Decode.{
  Reader, read, first_byte, four_bytes, byte, number, count, string, repeat, record_tag,
}
use chili_db.Catalog.Codec.Parsing.{
  Outcome, Parses, Exact, bind-Parses, inspect-Parses, lift-Parses, pure-Parses,
}

take-append-drop : (n : ℕ) (bs : Bytes) → bs ≡ take n bs ++ drop n bs
take-append-drop zero bs = refl
take-append-drop (suc n) [] = refl
take-append-drop (suc n) (b ∷ bs) = ap (◌∷◌ b) (take-append-drop n bs)

length-take : (n : ℕ) (bs : Bytes) → n ≤ length bs → length (take n bs) ≡ n
length-take zero bs h = refl
length-take (suc n) [] h = absurd (omega arith)
length-take (suc n) (b ∷ bs) h = ap suc (length-take n bs (omega arith))

All-take : (n : ℕ) (bs : Bytes) → All IsByte bs → All IsByte (take n bs)
All-take zero bs h = tt
All-take (suc n) [] h = tt
All-take (suc n) (b ∷ bs) h = (h.0, All-take n bs h.1)

All-drop : (n : ℕ) (bs : Bytes) → All IsByte bs → All IsByte (drop n bs)
All-drop zero bs h = h
All-drop (suc n) [] h = tt
All-drop (suc n) (b ∷ bs) h = All-drop n bs h.1

abbrev pub IsSlice : ℕ → Bytes → Type 0
IsSlice n bs = (length bs ≡ n) × All IsByte bs

pub read-Parses :
    (n : ℕ) (bytes : Bytes)
    → All IsByte bytes
    → Parses (read n) bytes (Exact (λ bs. bs) (IsSlice n))
unfolding read
read-Parses n bytes whole = elim (Bool-cases (ltb (length bytes) n)) [
  | inl short ↦ rw short tt
  | inr enough ↦ rw enough (
    take n bytes,
    take-append-drop n bytes,
    All-drop n bytes whole,
    (refl, (length-take n bytes (ground arith), All-take n bytes whole)),
  )
]

pub byte-Parses :
    (bytes : Bytes) → All IsByte bytes → Parses byte bytes (Exact (λ b. b ∷ []) IsByte)
unfolding byte
byte-Parses bytes whole =
    bind-Parses (Exact (λ bs. bs) (IsSlice 1)) (Exact (λ b. b ∷ []) IsByte) (read 1) _ bytes
      (read-Parses 1 bytes whole)
      (λ bs used rest left h.
        lift-Parses (λ b more rest'. Exact (λ c. c ∷ []) IsByte b (used ++ more) rest')
          (first_byte bs) rest left (first bs used h))
  where
    first :
        (bs used : Bytes)
        → (used ≡ bs) × IsSlice 1 bs
        → Yields (λ b. (used ++ [] ≡ b ∷ []) × IsByte b) (first_byte bs)
    first (b ∷ []) used h = (append-nil used ∙ h.0, h.1.1.0)
    first [] used h = absurd (omega (arith, h.1.0))
    first (b ∷ c ∷ bs) used h = absurd (omega (arith, h.1.0))

pub number-Parses :
    (bytes : Bytes) → All IsByte bytes → Parses number bytes (Exact u32_bytes IsCount)
unfolding number
number-Parses bytes whole =
    bind-Parses (Exact (λ bs. bs) (IsSlice 4)) (Exact u32_bytes IsCount) (read 4) _ bytes
      (read-Parses 4 bytes whole)
      (λ bs used rest left h.
        lift-Parses (λ n more rest'. Exact u32_bytes IsCount n (used ++ more) rest') (four_bytes bs)
          rest left (four bs used h))
  where
    four :
        (bs used : Bytes)
        → (used ≡ bs) × IsSlice 4 bs
        → Yields (λ n. (used ++ [] ≡ u32_bytes n) × IsCount n) (four_bytes bs)
    four (a ∷ b ∷ c ∷ d ∷ []) used (is, (n, (ha, (hb, (hc, (hd, e)))))) = (
      append-nil used ∙ is ∙ sym (u32_bytes-of a b c d ha hb hc hd),
      u32_of-lt a b c d ha hb hc hd,
    )
    four [] used h = absurd (omega (arith, h.1.0))
    four (a ∷ []) used h = absurd (omega (arith, h.1.0))
    four (a ∷ b ∷ []) used h = absurd (omega (arith, h.1.0))
    four (a ∷ b ∷ c ∷ []) used h = absurd (omega (arith, h.1.0))
    four (a ∷ b ∷ c ∷ d ∷ e ∷ bs) used h = absurd (omega (arith, h.1.0))

pub count-Parses : (bytes : Bytes) → All IsByte bytes → Parses count bytes (Exact u32_bytes IsCount)
unfolding count
count-Parses bytes whole =
    bind-Parses (Exact u32_bytes IsCount) (Exact u32_bytes IsCount) number _ bytes
      (number-Parses bytes whole)
      (λ n used rest left h.
        inspect-Parses (λ m more rest'. Exact u32_bytes IsCount m (used ++ more) rest')
          (λ r. if ltb (length r) n then err invalid_count else ok n) rest left
          (room n used rest h))
  where
    room :
        (n : ℕ) (used rest : Bytes)
        → (used ≡ u32_bytes n) × IsCount n
        → Yields
            (λ m. (used ++ [] ≡ u32_bytes m) × IsCount m)
            (if ltb (length rest) n then err invalid_count else ok n)
    room n used rest h = elim (Bool-cases (ltb (length rest) n)) [
      | inl short ↦ rw short tt
      | inr enough ↦ rw enough (append-nil used ∙ h.0, h.1)
    ]

abbrev pub IsText : Bytes → Type 0
IsText s = IsCount (length s) × IsString s

pub string-Parses :
    (bytes : Bytes) → All IsByte bytes → Parses string bytes (Exact string_bytes IsText)
unfolding string
string-Parses bytes whole =
    bind-Parses (Exact u32_bytes IsCount) (Exact string_bytes IsText) count _ bytes
      (count-Parses bytes whole)
      (λ n used rest left h.
        bind-Parses (Exact (λ bs. bs) (IsSlice n))
          (λ s more rest'. Exact string_bytes IsText s (used ++ more) rest') (read n) _ rest
          (read-Parses n rest left)
          (λ bs used' rest' left' h'.
            lift-Parses
              (λ s more rest''. Exact string_bytes IsText s (used ++ (used' ++ more)) rest'') _
              rest' left' (text n bs used used' h h')))
  where
    text :
        (n : ℕ) (bs used used' : Bytes)
        → (used ≡ u32_bytes n) × IsCount n
        → (used' ≡ bs) × IsSlice n bs
        → Yields
            (λ s. (used ++ (used' ++ []) ≡ string_bytes s) × IsText s)
            (if is_utf8 bs then ok bs else err invalid_utf8)
    text n bs used used' h h' = elim (Bool-cases (is_utf8 bs)) [
      | inl valid ↦ rw valid (
        ap (λ x. used ++ x) (append-nil used' ∙ h'.0)
            ∙ ap (λ x. x ++ bs) (h.0 ∙ ap u32_bytes (sym h'.1.0)),
        (subst IsCount (sym h'.1.0) h.1, valid),
      )
      | inr invalid ↦ rw invalid tt
    ]

bytes_eq-eq : (xs ys : Bytes) → bytes_eq xs ys ≡ true → xs ≡ ys
bytes_eq-eq [] [] h = refl
bytes_eq-eq (x ∷ xs) [] h = cc
bytes_eq-eq [] (y ∷ ys) h = cc
bytes_eq-eq (x ∷ xs) (y ∷ ys) h =
    let first : x ≡ y = ground arith in
    let others : bytes_eq xs ys ≡ true = ground arith in ap₂ (◌∷◌) first (bytes_eq-eq xs ys others)

pub record_tag-Parses :
    (bytes : Bytes)
    → All IsByte bytes
    → Parses record_tag bytes (Exact (λ u. table_tag) (λ u. Unit))
unfolding record_tag
record_tag-Parses bytes whole =
    bind-Parses (Exact (λ bs. bs) (IsSlice (length table_tag))) (Exact (λ u. table_tag) (λ u. Unit))
      (read (length table_tag)) _ bytes (read-Parses (length table_tag) bytes whole)
      (λ bs used rest left h.
        lift-Parses (λ u more rest'. Exact (λ u. table_tag) (λ u. Unit) u (used ++ more) rest') _
          rest left (tagged bs used h.0))
  where
    tagged :
        (bs used : Bytes)
        → used ≡ bs
        → Yields
            (λ u. (used ++ [] ≡ table_tag) × Unit {0})
            (guard (bytes_eq bs table_tag) unknown_record)
    tagged bs used is = elim (Bool-cases (bytes_eq bs table_tag)) [
      | inl same ↦ rw same (append-nil used ∙ is ∙ bytes_eq-eq bs table_tag same, tt)
      | inr other ↦ rw other tt
    ]

-- `n` items, each of exact bytes.
pub repeat-Parses :
    {A : Type 0} (f : A → Bytes) (P : A → Type 0) (item : Reader A)
    → ((bytes : Bytes) → All IsByte bytes → Parses item bytes (Exact f P))
    → (n : ℕ) (bytes : Bytes) → All IsByte bytes
    → Parses (repeat n item) bytes (Exact (all_bytes f) (λ xs. (length xs ≡ n) × All P xs))
unfolding repeat
repeat-Parses f P item each zero bytes whole = ([], refl, whole, (refl, (refl, tt)))
repeat-Parses f P item each (suc n) bytes whole =
    bind-Parses (Exact f P) (Exact (all_bytes f) (λ xs. (length xs ≡ suc n) × All P xs)) item
      (λ x. repeat n item >>= λ xs. pure (x ∷ xs)) bytes (each bytes whole)
      (λ x used rest left h.
        bind-Parses (Exact (all_bytes f) (λ xs. (length xs ≡ n) × All P xs))
          (λ xs more rest'.
            Exact (all_bytes f) (λ xs. (length xs ≡ suc n) × All P xs) xs (used ++ more) rest')
          (repeat n item) (λ xs. pure (x ∷ xs)) rest (repeat-Parses f P item each n rest left)
          (λ xs used' rest' left' h'.
            pure-Parses
              (λ ys more rest''.
                Exact (all_bytes f) (λ xs. (length xs ≡ suc n) × All P xs) ys
                  (used ++ (used' ++ more)) rest'')
              (x ∷ xs) rest' left'
              (
                ap (λ b. used ++ b) (append-nil used' ∙ h'.0) ∙ ap (λ b. b ++ all_bytes f xs) h.0,
                (ap suc h'.1.0, (h.1, h'.1.1)),
              )))

-- A count, and as many items.
pub counted-Parses :
    {A B : Type 0} (f : A → Bytes) (P : A → Type 0) (item : Reader A)
    → ((bytes : Bytes) → All IsByte bytes → Parses item bytes (Exact f P))
    → (T : Outcome B) (next : List A → Reader B) (bytes : Bytes) → All IsByte bytes
    → ((xs : List A) (u₁ u₂ rest : Bytes)
        → All IsByte rest
        → Exact (λ ys. u32_bytes (length ys)) (λ ys. IsCount (length ys)) xs u₁ rest
        → Exact (all_bytes f) (All P) xs u₂ rest
        → Parses (next xs) rest (λ b more r. T b (u₁ ++ (u₂ ++ more)) r))
    → Parses (count >>= λ n. repeat n item >>= next) bytes T
counted-Parses f P item each T next bytes whole k =
    bind-Parses (Exact u32_bytes IsCount) T count (λ n. repeat n item >>= next) bytes
      (count-Parses bytes whole)
      (λ n u₁ r₁ w₁ h₁.
        bind-Parses (Exact (all_bytes f) (λ xs. (length xs ≡ n) × All P xs))
          (λ b more r. T b (u₁ ++ more) r) (repeat n item) next r₁
          (repeat-Parses f P item each n r₁ w₁)
          (λ xs u₂ r₂ w₂ h₂.
            k xs u₁ u₂ r₂ w₂ (h₁.0 ∙ ap u32_bytes (sym h₂.1.0), subst IsCount (sym h₂.1.0) h₁.1)
              (h₂.0, h₂.1.1)))
