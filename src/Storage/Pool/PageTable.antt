-- ===== src/Storage/Pool/PageTable.antt =====
-- The `HashMap<PageId, usize>` of crates/storage/src/buffer.rs, as an association list.
use chili_db.Prelude.{
  ℕ, suc, ◌≡◌, ◌≢◌, refl, ap, false, List, [], ◌∷◌, Option, none, some, ◌==◌, if◌then◌else◌, length,
  Bool-cases, inl, inr, arith, leb, eq→==,
}

abbrev pub Table : Type 0
Table = List (ℕ × ℕ)

unfoldable pub lookup : ℕ → Table → Option ℕ
lookup k [] = none
lookup k ((k', v) ∷ m) = let rest = lookup k m in if k == k' then some v else rest

unfoldable pub remove : ℕ → Table → Table
remove k [] = []
remove k ((k', v) ∷ m) = let rest = remove k m in if k == k' then m else (k', v) ∷ rest

unfoldable pub insert : ℕ → ℕ → Table → Table
insert k v m = (k, v) ∷ remove k m

abbrev pub keys : Table → List ℕ
keys [] = []
keys ((k, v) ∷ m) = k ∷ keys m

-- `sort_unstable` on distinct ids.
unfoldable pub place : ℕ → List ℕ → List ℕ
place k [] = k ∷ []
place k (x ∷ xs) = let rest = place k xs in if leb k x then k ∷ x ∷ xs else x ∷ rest

unfoldable pub sorted : List ℕ → List ℕ
sorted [] = []
sorted (x ∷ xs) = place x (sorted xs)

abbrev pub Unique : Table → Type 0
Unique [] = Unit
Unique ((k, v) ∷ m) = (lookup k m ≡ none) × Unique m

neq→== : (a b : ℕ) → a ≢ b → (a == b) ≡ false
neq→== a b h = ground arith

pub lookup-remove_ne : (j k : ℕ) (m : Table) → j ≢ k → lookup j (remove k m) ≡ lookup j m
unfolding lookup remove
lookup-remove_ne j k [] h = refl
lookup-remove_ne j k ((k', v) ∷ m) h = elim (Bool-cases (k == k')) [
  | inl e ↦ rw (e, neq→== j k' (ground arith)) refl
  | inr e ↦ rw e (ap (λ r. if j == k' then some v else r) (lookup-remove_ne j k m h))
]

pub lookup-remove-none : (j k : ℕ) (m : Table) → lookup j m ≡ none → lookup j (remove k m) ≡ none
unfolding lookup remove
lookup-remove-none j k [] h = refl
lookup-remove-none j k ((k', v) ∷ m) h = elim (Bool-cases (j == k')) [
  | inl e ↦ let no : some v ≡ none = rw e at h in absurd (cc)
  | inr e ↦
      let none_left : lookup j m ≡ none = rw e at h in
      elim (Bool-cases (k == k')) [
        | inl e' ↦ rw e' none_left
        | inr e' ↦ rw (e', e) (lookup-remove-none j k m none_left)
      ]
]

pub Unique-remove : (k : ℕ) (m : Table) → Unique m → Unique (remove k m)
unfolding remove
Unique-remove k [] u = tt
Unique-remove k ((k', v) ∷ m) (h, u) = elim (Bool-cases (k == k')) [
  | inl e ↦ rw e u
  | inr e ↦ rw e (lookup-remove-none k' k m h, Unique-remove k m u)
]

pub lookup-remove_self : (k : ℕ) (m : Table) → Unique m → lookup k (remove k m) ≡ none
unfolding lookup remove
lookup-remove_self k [] u = refl
lookup-remove_self k ((k', v) ∷ m) (h, u) = elim (Bool-cases (k == k')) [
  | inl e ↦ let at : k ≡ k' = ground arith in rw (e, at) h
  | inr e ↦ rw (e, e) (lookup-remove_self k m u)
]

pub length-remove :
    (k : ℕ) (m : Table) {v : ℕ} → lookup k m ≡ some v → suc (length (remove k m)) ≡ length m
unfolding lookup remove
length-remove k [] h = cc
length-remove k ((k', v) ∷ m) h = elim (Bool-cases (k == k')) [
  | inl e ↦ rw e refl
  | inr e ↦ rw e (ap suc (length-remove k m (rw e at h)))
]

pub remove-absent : (k : ℕ) (m : Table) → lookup k m ≡ none → remove k m ≡ m
unfolding lookup remove
remove-absent k [] h = refl
remove-absent k ((k', v) ∷ m) h = elim (Bool-cases (k == k')) [
  | inl e ↦ let no : some v ≡ none = rw e at h in absurd (cc)
  | inr e ↦ rw e (ap (◌∷◌ (k', v)) (remove-absent k m (rw e at h)))
]

pub lookup-insert_self : (k v : ℕ) (m : Table) → lookup k (insert k v m) ≡ some v
unfolding lookup insert
lookup-insert_self k v m = rw (eq→== k k refl) refl

pub lookup-insert_ne : (j k v : ℕ) (m : Table) → j ≢ k → lookup j (insert k v m) ≡ lookup j m
unfolding lookup insert
lookup-insert_ne j k v m h = rw (neq→== j k h) (lookup-remove_ne j k m h)

pub Unique-insert : (k v : ℕ) (m : Table) → Unique m → Unique (insert k v m)
unfolding insert
Unique-insert k v m u = (lookup-remove_self k m u, Unique-remove k m u)

pub length-insert :
    (k v : ℕ) (m : Table) → lookup k m ≡ none → length (insert k v m) ≡ suc (length m)
unfolding insert
length-insert k v m h = rw (remove-absent k m h) refl
