-- ===== src/Storage/Pool/Flushing.antt =====
-- A dirty page is written to the store.
use chili_db.Prelude.{
  ℕ, ◌≡◌, ◌≢◌, refl, sym, ap, ◌∙◌, subst, Bool, true, false, Option, none, some, ◌==◌, get_elem?,
  arith, inl, inr, Bool-cases, Result, ok, err, panic,
}
use chili_db.Prelude.Methods.{Ensures}
use chili_db.Bytes.{Page}
use chili_db.Storage.Store.{IoError, PageStore, Contract, Written, SameBut}
use chili_db.Storage.Pool.{Frame, VictimStrategy, Pool}
use chili_db.Storage.Pool.PageTable.{lookup}
use chili_db.Storage.Pool.Ops.{as_io, written_if, flush_victim}
use chili_db.Storage.Pool.Cached.{Clean, IsPool, Still, Still-refl, store-Still}
use chili_db.Storage.Pool.Installing.{IsVictim}

module _ {S K : Type 0} (contents : S → ℕ → Option Page) (IsStrategy : ℕ → K → Type 0)
    (p : Pool S K) (i id : ℕ) (f : Frame) (v : IsPool contents IsStrategy p)
    (here : lookup id p.pages ≡ some i) (at : get_elem? p.frames i ≡ some f) where
  -- The store has changed behind one resident page.
  pub resident-Still :
      (s : S)
      → SameBut contents id p.store s
      → Clean contents s id f
      → Still contents IsStrategy p (record p { store = s })
  resident-Still s same clean = store-Still contents IsStrategy p s v each absent
    where
      each :
          (q j : ℕ) (g : Frame)
          → lookup q p.pages ≡ some j
          → get_elem? p.frames j ≡ some g
          → Clean contents s q g
      each q j g e at' = elim (Bool-cases (q == id)) [
        | inl eq ↦
            let page : q ≡ id = ground arith in
            let twice : some j ≡ some i = sym e ∙ ap (λ k. lookup k p.pages) page ∙ here in
            let index : j ≡ i = cc in
            let two : some g ≡ some f = sym at' ∙ ap (get_elem? p.frames) index ∙ at in
            let frame : f ≡ g = cc in
            subst (λ h. Clean contents s q h) frame
              (subst (λ k. Clean contents s k f) (sym page) clean)
        | inr ne ↦
            let other : q ≢ id = ground arith in
            let (h, at'', tag', (tidy, stored)) = v.mapped q j e in
            let two : some h ≡ some g = sym at'' ∙ at' in
            let frame : h ≡ g = cc in
            (
              subst (λ k. k.dirty ≡ false → contents s q ≡ some k.bytes) frame
                  (λ d. same q other ∙ tidy d),
              (λ no. stored (sym (same q other) ∙ no)),
            )
      ]

      absent : (q : ℕ) → lookup q p.pages ≡ none → contents s q ≡ contents p.store q
      absent q e = same q (λ page.
          let no : none ≡ some i = sym e ∙ ap (λ k. lookup k p.pages) page ∙ here in absurd (cc))

  pub wrote-Still :
      f.dirty ≡ true
      → (r : S × Result IoError (Unit {0})) → Written contents id f.bytes p.store r
      → Ensures
          (λ u p'.
            Still contents IsStrategy p p'
            × (contents p'.store id ≡ some f.bytes)
            × (p' ≡ record p { store = p'.store }))
          (Still contents IsStrategy p)
          (record p { store = r.0 }, as_io r.1)
  wrote-Still d (s, ok u) (saved, old, same) =
      (resident-Still s same ((λ e. saved), (λ no. cc)), saved, refl)
  wrote-Still d (s, err e) (kept, same) =
      let (g, at', tag', (tidy, stored)) = v.mapped id i here in
      resident-Still s same ((λ e. absurd (cc)), (λ no. stored (kept no)))
  wrote-Still d (s, panic) h = absurd h

module _ {S K : Type 0} (contents : S → ℕ → Option Page) (IsStrategy : ℕ → K → Type 0)
    (store : PageStore S) (policy : VictimStrategy K) (law : Contract contents store) (p : Pool S K)
    (i : ℕ) (f : Frame) (v : IsPool contents IsStrategy p)
    (is_victim : IsVictim contents IsStrategy p i f) where
  -- Only the store has changed, and it holds the page of the victim.
  pub record Flushed (p' : Pool S K) : Type 0 where
    pub still : Still contents IsStrategy p p'
    pub same : p' ≡ record p { store = p'.store }
    pub saved : (old : ℕ) → f.tag ≡ some old → contents p'.store old ≡ some f.bytes

  written_if-Flushed :
      (tag : Option ℕ) (d : Bool)
      → f.tag ≡ tag
      → f.dirty ≡ d
      → Ensures
          (λ u. Flushed)
          (Still contents IsStrategy p)
          (written_if store policy tag d f.bytes p)
  written_if-Flushed none d t e = record {
    still = Still-refl contents IsStrategy p v;
    same = refl;
    saved = λ old t'. absurd (cc);
  }
  written_if-Flushed (some old) false t e =
      let (here, lt) = v.tagged i old f is_victim.at t in
      let (g, at, tag, (clean, stored)) = v.mapped old i here in
      let two : some g ≡ some f = sym at ∙ is_victim.at in
      let frame : g ≡ f = cc in
      record {
        still = Still-refl contents IsStrategy p v;
        same = refl;
        saved = λ q t'.
            let page : old ≡ q = cc in
            subst (λ k. contents p.store k ≡ some f.bytes) page
              (subst (λ h. h.dirty ≡ false → contents p.store old ≡ some h.bytes) frame clean e);
      }
  written_if-Flushed (some old) true t e =
      let (here, lt) = v.tagged i old f is_victim.at t in
      finished old t (store.write_page old f.bytes p.store) (
        wrote-Still contents IsStrategy p i old f v here is_victim.at e
          (store.write_page old f.bytes p.store) (law.writes old f.bytes p.store))
    where
      finished :
          (old : ℕ)
          → f.tag ≡ some old
          → (r : S × Result IoError (Unit {0}))
          → Ensures
              (λ u p'.
                Still contents IsStrategy p p'
                × (contents p'.store old ≡ some f.bytes)
                × (p' ≡ record p { store = p'.store }))
              (Still contents IsStrategy p)
              (record p { store = r.0 }, as_io r.1)
          → Ensures
              (λ u. Flushed)
              (Still contents IsStrategy p)
              (record p { store = r.0 }, as_io r.1)
      finished old t (s, ok u) (still, saved, same) = record {
        still = still;
        same = same;
        saved =
            λ q t'. let page : old ≡ q = cc in subst (λ k. contents s k ≡ some f.bytes) page saved;
      }
      finished old t (s, err e) h = h
      finished old t (s, panic) h = h

  pub flush_victim-Flushed :
      Ensures (λ u. Flushed) (Still contents IsStrategy p) (flush_victim store policy f p)
  unfolding flush_victim
  flush_victim-Flushed = written_if-Flushed f.tag f.dirty refl refl
