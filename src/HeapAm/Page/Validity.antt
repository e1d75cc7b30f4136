-- ===== src/HeapAm/Page/Validity.antt =====
-- What `validate` establishes before any index of the page is used.
use chili_db.Prelude.{
  ℕ, suc, ◌+◌, ◌-◌, ◌≤◌, ◌<◌, ◌≡◌, refl, ap₂, ◌⊎◌, inl, inr, true, false, not, ◌&&◌, ◌||◌, ok, ltb,
  ◌==◌, arith, Bool-cases, >>=-eq-ok, guard-eq-ok, leb, below_suc,
}
use chili_db.Prelude.Loops.{for_range, for_range-ok}
use chili_db.Bytes.{Page, page_size}
use chili_db.HeapAm.Page.{
  Header, header_at, has_magic, good_flags, Occupied, occupy, slot, slot_at, claim, validate_slot,
  validate, u16_at,
}
use chili_db.HeapAm.Page.Directory.{offset_at, len_at, upper_at, sum_to, SlotOk, IsValid}
use chili_db.HeapAm.Page.Occupancy.{count, count-le, count_none, count-occupy}

-- After `i` rounds: the slots passed are good, and as many bytes are marked as they hold.
record Checked (p : Page) (i : ℕ) (s : Occupied × ℕ) : Type 0 where
  good : (j : ℕ) → j < i → SlotOk p j
  total : s.1 ≡ sum_to (len_at p) i
  marked : count s.0 (page_size - upper_at p) (upper_at p) ≡ s.1

slot-eq-ok :
    (p : Page) (i : ℕ) {o l : ℕ} → slot p i ≡ ok (o, l) → (o ≡ offset_at p i) × (l ≡ len_at p i)
unfolding slot
slot-eq-ok p i h = ground arith

-- What a successful round has found out about a slot's numbers.
claim-eq-ok :
    (upper offset len : ℕ) (occupied : Occupied) (used : ℕ) (s' : Occupied × ℕ)
    → upper ≤ page_size
    → claim upper offset len (occupied, used) ≡ ok s'
    → (((offset ≡ 0) × (len ≡ 0)) ⊎ ((0 < len) × (upper ≤ offset) × (offset + len ≤ page_size)))
      × (s'.1 ≡ used + len)
      × (count s'.0 (page_size - upper) upper ≡ count occupied (page_size - upper) upper + len)
unfolding claim
claim-eq-ok upper offset len occupied used s' hu h = elim (Bool-cases (offset == 0 && len == 0)) [
  | inl dead ↦
      let e : (occupied, used) ≡ s' = cc (h, dead) in
      rw (← e) (inl (ground arith), ground arith, ground arith)
  | inr live ↦
      elim (Bool-cases (not (len == 0 || ltb offset upper || ltb page_size (offset + len)))) [
        | inr bad ↦ absurd (cc (h, live, bad))
        | inl good ↦
            let (o, marked, rest) =
              >>=-eq-ok (occupy len offset occupied) (λ o. ok (o, used + len))
                (rw (live, good) at h) in
            let e : (o, used + len) ≡ s' = cc rest in
            let within : (0 < len) × (upper ≤ offset) × (offset + len ≤ page_size) = ground arith in
            rw (← e) (
              inr within,
              refl,
              count-occupy len offset occupied o (page_size - upper) upper marked within.1
                  (omega arith),
            )
      ]
]

slot_inside :
    (p : Page) (i : ℕ) (s s' : Occupied × ℕ)
    → validate_slot p (upper_at p) i s ≡ ok s'
    → claim (upper_at p) (offset_at p i) (len_at p i) s ≡ ok s'
unfolding validate_slot slot
slot_inside p i s s' h = elim (Bool-cases (leb (slot_at i + 4) page_size)) [
  | inl inside ↦ rw inside at h
  | inr out ↦ absurd (cc (h, out))
]

validate_slot-Checked :
    (p : Page) (i : ℕ) (s s' : Occupied × ℕ)
    → upper_at p ≤ page_size
    → Checked p i s
    → validate_slot p (upper_at p) i s ≡ ok s'
    → Checked p (suc i) s'
validate_slot-Checked p i (occupied, used) s' hu c h =
    let (good, total, marked) =
      claim-eq-ok (upper_at p) _ _ occupied used s' hu (slot_inside p i (occupied, used) s' h) in
    record {
      good = below_suc (SlotOk p) i c.good good;
      total = omega (arith, c.total, total);
      marked = omega (arith, c.marked, total, marked);
    }

nothing-Checked : (p : Page) → Checked p 0 ((λ _. false), 0)
nothing-Checked p = record {
  good = λ j h. absurd (omega arith);
  total = refl;
  marked = count_none (page_size - upper_at p) (upper_at p);
}

-- What `validate` has tested, and how its loop ended.
pub record Passed (p : Page) (h : Header) (used : ℕ) : Type 0 where
  pub magic_ok : has_magic p ≡ true
  pub flags_ok : good_flags p ≡ true
  pub bounds : (leb (slot_at (u16_at p 20)) (upper_at p) && leb (upper_at p) page_size) ≡ true
  pub state : Occupied × ℕ
  pub looped : for_range (validate_slot p (upper_at p)) (u16_at p 20) 0 ((λ _. false), 0) ≡ ok state
  pub same_header : header_at p ≡ h
  pub same_used : state.1 ≡ used

pub validate-Passed :
    (p : Page) (h : Header) (used : ℕ) → validate p ≡ ok (h, used) → Passed p h used
unfolding validate
validate-Passed p h used e =
    let (m, e₁) = guard-eq-ok (has_magic p) _ _ e in
    let (f, e₂) = guard-eq-ok (good_flags p) _ _ e₁ in
    let (b, e₃) =
      guard-eq-ok (leb (slot_at (u16_at p 20)) (upper_at p) && leb (upper_at p) page_size) _ _ e₂ in
    let (s, looped, e₄) =
      >>=-eq-ok (for_range (validate_slot p (upper_at p)) (u16_at p 20) 0 ((λ _. false), 0))
        (λ s. ok (header_at p, s.1)) e₃ in
    record {
      magic_ok = m;
      flags_ok = f;
      bounds = b;
      state = s;
      looped = looped;
      same_header = cc e₄;
      same_used = cc e₄;
    }

pub Passed-validate :
    (p : Page) (h : Header) (used : ℕ) → Passed p h used → validate p ≡ ok (h, used)
unfolding validate
Passed-validate p h used c =
    rw (c.magic_ok, c.flags_ok, c.bounds, c.looped)
      (ap₂ (λ (x : Header) (n : ℕ). ok (x, n)) c.same_header c.same_used)

-- A page that `validate` accepts satisfies `IsValid` with the header and the byte count returned.
pub validate-IsValid :
    (p : Page) (h : Header) (used : ℕ) → validate p ≡ ok (h, used) → IsValid p h used
validate-IsValid p h used e =
    let passed = validate-Passed p h used e in
    let s = passed.state in
    let hu : upper_at p ≤ page_size = ground (arith, passed.bounds) in
    let c : Checked p (u16_at p 20) s =
      for_range-ok (validate_slot p (upper_at p)) (Checked p)
        (λ i t t' c r. validate_slot-Checked p i t t' hu c r) (u16_at p 20) 0 (u16_at p 20) _ s
        (omega arith) (nothing-Checked p) passed.looped in
    rw (← passed.same_header, ← passed.same_used)
      (record {
        header = refl;
        lower = ground (arith, passed.bounds);
        upper = hu;
        slots = c.good;
        total = c.total;
        fits = omega (arith, c.marked, count-le s.0 (page_size - upper_at p) (upper_at p));
      })
