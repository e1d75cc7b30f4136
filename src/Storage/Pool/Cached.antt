-- ===== src/Storage/Pool/Cached.antt =====
-- The buffer pool as a cache: its invariant, and the pages a client sees through it.
use chili_db.Prelude.{
  ℕ, ◌^◌, ◌≤◌, ◌<◌, ◌≡◌, ◌≢◌, refl, sym, ◌∙◌, subst, Bool, true, false, List, Option, none, some,
  ◌==◌, if◌then◌else◌, length, get_elem?, arith, inl, inr, Option-cases, Bool-cases, Result,
}
use chili_db.Prelude.Methods.{Ensures}
use chili_db.Bytes.{Page}
use chili_db.Storage.Store.{Same}
use chili_db.Storage.Pool.{Frame, VictimStrategy, Pool}
use chili_db.Storage.Pool.PageTable.{lookup, Unique}

-- What `VictimStrategy` promises for a pool of `capacity` frames: no callback panics, and `victim`
-- answers an eligible frame, or none only if there is none.
module _ {K : Type 0} (policy : VictimStrategy K) (IsStrategy : ℕ → K → Type 0) where
  abbrev pub Chosen : (ℕ → Bool) → ℕ → Option ℕ → Type 0
  Chosen can_evict capacity none = (i : ℕ) → i < capacity → can_evict i ≡ false
  Chosen can_evict capacity (some i) = (can_evict i ≡ true) × (i < capacity)

  abbrev pub Kept : ℕ → K × Result ⊥ (Unit {0}) → Type 0
  Kept capacity r = Ensures (λ u k. IsStrategy capacity k) (λ k. ⊥) r

  pub record Policy : Type 0 where
    pub accesses :
        (capacity i : ℕ) (k : K)
        → IsStrategy capacity k
        → i < capacity
        → Kept capacity (policy.access i k)
    pub loads :
        (capacity i : ℕ) (k : K)
        → IsStrategy capacity k
        → i < capacity
        → Kept capacity (policy.load i k)
    pub chooses :
        (can_evict : ℕ → Bool) (capacity : ℕ) (k : K)
        → IsStrategy capacity k
        → Ensures
            (λ choice k'. IsStrategy capacity k' × Chosen can_evict capacity choice)
            (λ k'. ⊥)
            (policy.victim can_evict k)

abbrev pub update {ℓ} : {A : Type ℓ} → (ℕ → A) → ℕ → A → ℕ → A
update g i a j = if j == i then a else g j

pub update-same {ℓ} :
    {A : Type ℓ} (g h : ℕ → A) (i : ℕ) (a b : A)
    → ((j : ℕ) → g j ≡ h j)
    → a ≡ b
    → (j : ℕ) → update g i a j ≡ update h i b j
update-same g h i a b same e j = elim (Bool-cases (j == i)) [
  | inl eq ↦ rw eq e
  | inr ne ↦ rw ne (same j)
]

pub update-old {ℓ} :
    {A : Type ℓ} (g : ℕ → A) (i : ℕ) (a : A) → a ≡ g i → (j : ℕ) → update g i a j ≡ g j
update-old g i a e j = elim (Bool-cases (j == i)) [
  | inl eq ↦ let same : j ≡ i = ground arith in rw (eq, same) e
  | inr ne ↦ rw ne refl
]

pub update-positive : (g : ℕ → ℕ) (i n : ℕ) → 0 < n → (j : ℕ) → 0 < g j → 0 < update g i n j
update-positive g i n h j k = elim (Bool-cases (j == i)) [ inl eq ↦ rw eq h | inr ne ↦ rw ne k ]

abbrev pub pins_at : Option Frame → ℕ
pins_at none = 0
pins_at (some f) = f.pins

abbrev pub bytes_at : Option Frame → Option Page
bytes_at none = none
bytes_at (some f) = some f.bytes

abbrev pub pins_of : {S K : Type 0} → Pool S K → ℕ → ℕ
pins_of p i = pins_at (get_elem? p.frames i)

module _ {S : Type 0} (contents : S → ℕ → Option Page) where
  -- A resident page is the bytes of its frame, another page what the store holds.
  abbrev pub shown : S → List Frame → ℕ → Option ℕ → Option Page
  shown s frames id none = contents s id
  shown s frames id (some i) = bytes_at (get_elem? frames i)

  abbrev pub view : {K : Type 0} → Pool S K → ℕ → Option Page
  view p id = shown p.store p.frames id (lookup id p.pages)

  -- A clean frame agrees with the store.
  abbrev pub Clean : S → ℕ → Frame → Type 0
  Clean s id f = (f.dirty ≡ false → contents s id ≡ some f.bytes) × (contents s id ≢ none)

module _ {S K : Type 0} (contents : S → ℕ → Option Page) (IsStrategy : ℕ → K → Type 0) where
  pub record IsPool (p : Pool S K) : Type 0 where
    pub unique : Unique p.pages
    pub mapped :
        (id i : ℕ)
        → lookup id p.pages ≡ some i
        → (f : Frame) × (get_elem? p.frames i ≡ some f)
          × (f.tag ≡ some id)
          × Clean contents p.store id f
    pub tagged :
        (i id : ℕ) (f : Frame)
        → get_elem? p.frames i ≡ some f
        → f.tag ≡ some id
        → (lookup id p.pages ≡ some i) × (i < length p.pages)
    pub untagged :
        (i : ℕ) (f : Frame)
        → get_elem? p.frames i ≡ some f
        → f.tag ≡ none
        → (f.pins ≡ 0) × (length p.pages ≤ i)
    pub counts : (i : ℕ) (f : Frame) → get_elem? p.frames i ≡ some f → f.pins < 2 ^ 32
    pub fits : length p.pages ≤ length p.frames
    pub indexed : length p.frames ≤ 2 ^ 32
    pub strategy : IsStrategy (length p.frames) p.strategy

  -- From `p` to `p'`: the pages and the pin counts of `p'`, and no pinned page has moved.
  pub record Moves (pages : ℕ → Option Page) (pins : ℕ → ℕ) (p p' : Pool S K) : Type 0 where
    pub valid : IsPool p'
    pub seen : (id : ℕ) → view contents p' id ≡ pages id
    pub pinned : (i : ℕ) → pins_of p' i ≡ pins i
    pub stays :
        (id i : ℕ) → lookup id p.pages ≡ some i → 0 < pins_of p i → lookup id p'.pages ≡ some i

  -- Nothing a client sees has changed.
  abbrev pub Still : Pool S K → Pool S K → Type 0
  Still p p' = Moves (view contents p) (pins_of p) p p'

  pub Still-refl : (p : Pool S K) → IsPool p → Still p p
  Still-refl p v = record {
    valid = v;
    seen = λ id. refl;
    pinned = λ i. refl;
    stays = λ id i e h. e;
  }

  pub Still-trans :
      (pages : ℕ → Option Page) (pins : ℕ → ℕ) (p p' p'' : Pool S K)
      → Still p p'
      → Moves pages pins p' p''
      → Moves pages pins p p''
  Still-trans pages pins p p' p'' m n = record {
    valid = n.valid;
    seen = n.seen;
    pinned = n.pinned;
    stays = λ id i e h. n.stays id i (m.stays id i e h) (subst (λ k. 0 < k) (sym (m.pinned i)) h);
  }

  pub Moves-trans :
      (pages pages' : ℕ → Option Page) (pins pins' : ℕ → ℕ) (p p' p'' : Pool S K)
      → ((i : ℕ) → 0 < pins_of p i → 0 < pins i)
      → Moves pages pins p p'
      → Moves pages' pins' p' p''
      → Moves pages' pins' p p''
  Moves-trans pages pages' pins pins' p p' p'' more m n = record {
    valid = n.valid;
    seen = n.seen;
    pinned = n.pinned;
    stays = λ id i e h.
        n.stays id i (m.stays id i e h) (subst (λ k. 0 < k) (sym (m.pinned i)) (more i h));
  }

  pub Moves-Still :
      (pages : ℕ → Option Page) (pins : ℕ → ℕ) (p p' p'' : Pool S K)
      → ((i : ℕ) → 0 < pins_of p i → 0 < pins i)
      → Moves pages pins p p'
      → Still p' p''
      → Moves pages pins p p''
  Moves-Still pages pins p p' p'' more m n = record {
    valid = n.valid;
    seen = λ id. n.seen id ∙ m.seen id;
    pinned = λ i. n.pinned i ∙ m.pinned i;
    stays = λ id i e h.
        n.stays id i (m.stays id i e h) (subst (λ k. 0 < k) (sym (m.pinned i)) (more i h));
  }

  pub Moves-same :
      (pages pages' : ℕ → Option Page) (pins pins' : ℕ → ℕ) (p p' : Pool S K)
      → ((id : ℕ) → pages id ≡ pages' id)
      → ((i : ℕ) → pins i ≡ pins' i)
      → Moves pages pins p p'
      → Moves pages' pins' p p'
  Moves-same pages pages' pins pins' p p' h k m = record {
    valid = m.valid;
    seen = λ id. m.seen id ∙ h id;
    pinned = λ i. m.pinned i ∙ k i;
    stays = m.stays;
  }

  -- The strategy and the store may change behind the frames.
  pub strategy-Still :
      (p : Pool S K) (k : K)
      → IsPool p
      → IsStrategy (length p.frames) k
      → Still p (record p { strategy = k })
  strategy-Still p k v h = record {
    valid = record {
      unique = v.unique;
      mapped = v.mapped;
      tagged = v.tagged;
      untagged = v.untagged;
      counts = v.counts;
      fits = v.fits;
      indexed = v.indexed;
      strategy = h;
    };
    seen = λ id. refl;
    pinned = λ i. refl;
    stays = λ id i e h. e;
  }

  module _ (p : Pool S K) (s : S) (v : IsPool p) where
    pub store-IsPool :
        ((id i : ℕ) (f : Frame)
          → lookup id p.pages ≡ some i
          → get_elem? p.frames i ≡ some f
          → Clean contents s id f)
        → IsPool (record p { store = s })
    store-IsPool clean = record {
      unique = v.unique;
      mapped = λ id i e. let (f, at, tag, old) = v.mapped id i e in (f, at, tag, clean id i f e at);
      tagged = v.tagged;
      untagged = v.untagged;
      counts = v.counts;
      fits = v.fits;
      indexed = v.indexed;
      strategy = v.strategy;
    }

    pub store-Still :
        ((id i : ℕ) (f : Frame)
          → lookup id p.pages ≡ some i
          → get_elem? p.frames i ≡ some f
          → Clean contents s id f)
        → ((id : ℕ) → lookup id p.pages ≡ none → contents s id ≡ contents p.store id)
        → Still p (record p { store = s })
    store-Still clean same = record {
      valid = store-IsPool clean;
      seen = seen;
      pinned = λ i. refl;
      stays = λ id i e h. e;
    }
      where
        seen : (id : ℕ) → view contents (record p { store = s }) id ≡ view contents p id
        seen id = elim (Option-cases (lookup id p.pages)) [
          | inl h ↦ rw h (same id h)
          | inr (i, h) ↦ rw h refl
        ]

    pub same-Still : Same contents p.store s → Still p (record p { store = s })
    same-Still same =
        store-Still
          (λ id i f e at.
            let (f', at', tag, (clean, stored)) = v.mapped id i e in
            let eq : f' ≡ f = cc in
            (
              (λ d.
                  same id
                  ∙ subst (λ g. g.dirty ≡ false → contents p.store id ≡ some g.bytes) eq clean d),
              (λ none_left. stored (sym (same id) ∙ none_left)),
            ))
          (λ id h. same id)
