-- ===== src/HeapAm/Page/Deciding.antt =====
-- `HeapPage::validate` of crates/heapam/src/page.rs as a decision on the layout of a page.
use chili_db.Prelude.{
  ℕ, suc, ◌+◌, ◌*◌, ◌≤◌, ◌<◌, ◌≡◌, refl, ap, true, false, ◌&&◌, ok, leb, arith, ◌>>=◌, ◌>>◌, guard,
  Decides, bind-Decides, guard-Decides, subst,
}
use chili_db.Prelude.Loops.{for_range, for_range-Decides}
use chili_db.Bytes.{Page, page_size}
use chili_db.HeapAm.Errors.{corrupt, page_magic, flags_or_reserved, free_space_bounds}
use chili_db.HeapAm.Page.{
  Header, Occupied, R, slot_at, claim, validate_slot, validate, header_at, has_magic, good_flags,
  u16_at,
}
use chili_db.HeapAm.Page.Directory.{len_at}
use chili_db.HeapAm.Page.Accepting.{slot_lem}
use chili_db.HeapAm.Page.Layout.{
  first, extent, free_end, IsDirectory, HasMagic, HasFlags, IsLayout, Refused,
}
use chili_db.HeapAm.Page.Scanning.{Scanned, nothing-Scanned, claim-Decides}

extent_lem : (p : Page) (i : ℕ) → extent p i ≡ len_at p i
extent_lem p i = ap (λ k. p (24 + i * 4 + 2) + 256 * p k) (omega arith)

validate_slot-Decides :
    (p : Page) (n i : ℕ) (s : Occupied × ℕ)
    → slot_at n ≤ page_size
    → i < n
    → Scanned p i s
    → Decides (Scanned p (suc i)) (¬ IsDirectory p n) (validate_slot p (free_end p) i s)
unfolding validate_slot
validate_slot-Decides p n i (old, used) room h c = rw (slot_lem p i (omega arith)) (
    subst
      (λ l.
        Decides (Scanned p (suc i)) (¬ IsDirectory p n)
          (claim (free_end p) (first p i) l (old, used)))
      (extent_lem p i) (claim-Decides p n i old used h c))

-- The pages that `validate` accepts with a header and a byte count, and those that it refuses.
abbrev pub Decided : Page → R (Header × ℕ) → Type 0
Decided p r = Decides (λ (h, used). IsLayout p h used) (Refused p) r

has_magic-HasMagic : (p : Page) → has_magic p ≡ true → HasMagic p
has_magic-HasMagic p e = ground arith

good_flags-HasFlags : (p : Page) → good_flags p ≡ true → HasFlags p
good_flags-HasFlags p e = ground arith

no_magic-Refused : (p : Page) → has_magic p ≡ false → Refused p
no_magic-Refused p e h used l = ground (arith, l.magic)

bad_flags-Refused : (p : Page) → good_flags p ≡ false → Refused p
bad_flags-Refused p e h used l = ground (arith, l.flags)

module _ (p : Page) where
  bad_bounds-Refused :
      (leb (slot_at (u16_at p 20)) (u16_at p 22) && leb (u16_at p 22) page_size) ≡ false → Refused p
  bad_bounds-Refused e h used l = ground (arith, l.slots, l.lower, l.upper)

  bad_directory-Refused : ¬ IsDirectory p (u16_at p 20) → Refused p
  bad_directory-Refused bad h used l = bad (subst (IsDirectory p) l.slots l.directory)

  passed-IsLayout :
      (s : Occupied × ℕ)
      → has_magic p ≡ true
      → good_flags p ≡ true
      → (leb (slot_at (u16_at p 20)) (u16_at p 22) && leb (u16_at p 22) page_size) ≡ true
      → Scanned p (u16_at p 20) s
      → IsLayout p (header_at p) s.1
  passed-IsLayout s m f b c = record {
    magic = has_magic-HasMagic p m;
    flags = good_flags-HasFlags p f;
    owner = refl;
    linked = λ e. rw e refl;
    unlinked = λ e. rw e refl;
    slots = refl;
    lower = ground arith;
    upper = ground arith;
    directory = c.directory;
    total = c.total;
  }

-- `validate` accepts a page, with a header and a byte count, only if the page starts with the magic
-- bytes, its flag byte is 0 or 1 with three zeros after it, the owner and the number of slots are
-- those written little-endian in the header, the next page is so too when the flag is 1 and is none
-- when it is 0, the directory ends at or below the end of the free space, which is in the page,
-- every slot is zero or has a positive number of bytes between there and the end of the page, no
-- byte is in two slots, and the count is the sum of the lengths. Where `validate` answers an error,
-- this holds of no header and no count. It never panics.
pub validate-Decided : (p : Page) → Decided p (validate p)
unfolding validate
validate-Decided p =
    let Q : Header × ℕ → Type 0 = λ (h, used). IsLayout p h used in
    let slots = u16_at p 20 in
    let upper = u16_at p 22 in
    let loop = for_range (validate_slot p upper) slots 0 ((λ _. false), 0) in
    let bounds = leb (slot_at slots) upper && leb upper page_size in
    let answer : Occupied × ℕ → R (Header × ℕ) = λ s. ok (header_at p, s.1) in
    guard-Decides Q (Refused p) (has_magic p) (corrupt page_magic)
      (guard (good_flags p) (corrupt flags_or_reserved)
        >> (guard bounds (corrupt free_space_bounds) >> (loop >>= answer)))
      (no_magic-Refused p)
      (λ m.
        guard-Decides Q (Refused p) (good_flags p) (corrupt flags_or_reserved)
          (guard bounds (corrupt free_space_bounds) >> (loop >>= answer)) (bad_flags-Refused p)
          (λ f.
            guard-Decides Q (Refused p) bounds (corrupt free_space_bounds) (loop >>= answer)
              (bad_bounds-Refused p)
              (λ b.
                bind-Decides Q (Refused p) (Scanned p slots) (¬ IsDirectory p slots) loop answer
                  (for_range-Decides (validate_slot p upper) (Scanned p) (¬ IsDirectory p slots)
                    slots (λ i s h c. validate_slot-Decides p slots i s (ground arith) h c) slots 0
                    ((λ _. false), 0) (omega arith) (nothing-Scanned p))
                  (bad_directory-Refused p) (λ s c. passed-IsLayout p s m f b c))))
