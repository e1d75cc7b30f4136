-- ===== src/HeapAm/Page/Linking.antt =====
-- `set_next` and the five bytes of the link that it writes in place.
use chili_db.Prelude.{
  ℕ, ◌+◌, ◌^◌, ◌≤◌, ◌<◌, ◌≡◌, refl, ◌∙◌, ap, fun_ext, ◌⊎◌, inl, inr, true, Option, none, some, [],
  ◌∷◌, ok, leb, ◌==◌, if◌then◌else◌, arith, Bool-cases, Option-cases,
}
use chili_db.Bytes.{Page, overwrite, write_slice, u32_bytes}
use chili_db.Bytes.Slices.{overwrite_out, bytes_at_ext}
use chili_db.Bytes.Words.{u32_of-bytes}
use chili_db.HeapAm.Page.{
  Header, slot_at, slot, validate_slot, validate, next_bytes, next_flag, header_at, has_magic,
  u16_at, u32_at,
}
use chili_db.HeapAm.Page.Directory.{offset_at, len_at, content}
use chili_db.HeapAm.Page.Validity.{validate-Passed, Passed-validate, validate-IsValid}
use chili_db.HeapAm.Page.View
use chili_db.HeapAm.Page.View.{View, header_of, total}
use chili_db.HeapAm.Page.Holds.{Holds}
use chili_db.HeapAm.Page.Ops.{set_next}

linked : Page → Option ℕ → Page
linked p next = overwrite (overwrite p 12 (next_bytes next)) 16 (next_flag next ∷ [])

linked_other : (p : Page) (next : Option ℕ) (k : ℕ) → (k < 12) ⊎ (17 ≤ k) → linked p next k ≡ p k
unfolding linked
linked_other p none k h =
    overwrite_out _ 16 (0 ∷ []) k (omega arith)
    ∙ overwrite_out p 12 (next_bytes none) k (omega arith)
linked_other p (some n) k h =
    overwrite_out _ 16 (1 ∷ []) k (omega arith) ∙ overwrite_out p 12 (u32_bytes n) k (omega arith)

-- The link reads back.
linked_next :
    (p : Page) (next : Option ℕ)
    → ((n : ℕ) → next ≡ some n → n < 2 ^ 32)
    → (if linked p next 16 == 1 then some (u32_at (linked p next) 12) else none) ≡ next
unfolding linked overwrite
linked_next p none hn = refl
linked_next p (some n) hn = ap some (u32_of-bytes n (hn n refl))

set_next_run :
    (p : Page) (v : View) (next : Option ℕ) → Holds p v → set_next next p ≡ (linked p next, ok tt)
unfolding set_next linked write_slice
set_next_run p v none h = rw h.valid refl
set_next_run p v (some n) h = rw h.valid refl

module _ (p : Page) (next : Option ℕ) where
  q : Page
  q = linked p next

  same : (k : ℕ) → (k < 12) ⊎ (17 ≤ k) → q k ≡ p k
  unfolding q
  same = linked_other p next

  same_u16 : (at : ℕ) → 17 ≤ at → u16_at q at ≡ u16_at p at
  same_u16 at h = omega (arith, same at (inr h), same (at + 1) (omega arith))

  same_magic : has_magic q ≡ has_magic p
  same_magic =
      rw
        (
          same 0 (omega arith),
          same 1 (omega arith),
          same 2 (omega arith),
          same 3 (omega arith),
          same 4 (omega arith),
          same 5 (omega arith),
          same 6 (omega arith),
          same 7 (omega arith),
        )
        refl

  good_flag : leb (q 16) 1 ≡ true
  unfolding q linked overwrite
  good_flag = elim (Option-cases next) [ inl e ↦ rw e refl | inr (n, e) ↦ rw e refl ]

  same_slot : (i : ℕ) → slot q i ≡ slot p i
  unfolding slot
  same_slot i = rw (same_u16 (slot_at i) (omega arith), same_u16 (slot_at i + 2) (omega arith)) refl

  same_round : validate_slot q ≡ validate_slot p
  unfolding validate_slot
  same_round = fun_ext λ upper. fun_ext λ i. fun_ext λ s. rw (same_slot i) refl

  module _ (h : Header) (used : ℕ) (e : validate p ≡ ok (h, used))
      (hn : (n : ℕ) → next ≡ some n → n < 2 ^ 32) where
    new_header : header_at q ≡ record (header_at p) { next = next }
    unfolding q
    new_header = ground (arith, linked_next p next hn, owner_bytes, same_u16 20 (omega arith))
      where
        owner_bytes : u32_at q 8 ≡ u32_at p 8
        owner_bytes =
            rw
              (
                same 8 (omega arith),
                same 9 (omega arith),
                same 10 (omega arith),
                same 11 (omega arith),
              )
              refl

    linked-valid : validate q ≡ ok (record h { next = next }, used)
    linked-valid =
        let c = validate-Passed p h used e in
        Passed-validate q (record h { next = next }) used
          (record {
            magic_ok = same_magic ∙ c.magic_ok;
            flags_ok =
                rw (good_flag, same 17 (omega arith), same 18 (omega arith), same 19 (omega arith))
                  (ground (arith, c.flags_ok));
            bounds = rw (same_u16 20 (omega arith), same_u16 22 (omega arith)) c.bounds;
            state = c.state;
            looped = rw (same_round, same_u16 20 (omega arith), same_u16 22 (omega arith)) c.looped;
            same_header = new_header ∙ ap (λ (x : Header). record x { next = next }) c.same_header;
            same_used = c.same_used;
          })

    linked-content : (i : ℕ) → i < h.slots → content q i ≡ content p i
    unfolding content
    linked-content i hi =
        let len : len_at q i ≡ len_at p i = same_u16 (slot_at i + 2) (omega arith) in
        let offset : offset_at q i ≡ offset_at p i = same_u16 (slot_at i) (omega arith) in
        let v = validate-IsValid p h used e in
        elim (Bool-cases (len_at p i == 0)) [
          | inl dead ↦ rw (len, dead) refl
          | inr live ↦
              let above : 17 ≤ offset_at p i = ground (arith, v.slots i hi, v.lower) in
              rw (len, offset, live)
                (ap some (
                  bytes_at_ext q p (offset_at p i) (len_at p i)
                    (λ k a b. same k (inr (omega arith)))))
        ]

-- On a page that holds a view `set_next` links or unlinks the successor and changes nothing else.
pub set_next_refines :
    (p : Page) (v : View) (next : Option ℕ)
    → ((n : ℕ) → next ≡ some n → n < 2 ^ 32)
    → Holds p v
    → ((set_next next p).1 ≡ (View.set_next next v).1)
      × Holds (set_next next p).0 (View.set_next next v).0
unfolding q
set_next_refines p v next hn h = rw (set_next_run p v next h) (
  refl,
  record {
    valid = linked-valid p next (header_of v) _ h.valid hn;
    slots = λ i hi. linked-content p next (header_of v) _ h.valid hn i hi ∙ h.slots i hi;
    owner = h.owner;
    next = hn;
  },
)
