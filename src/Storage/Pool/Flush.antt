-- ===== src/Storage/Pool/Flush.antt =====
-- `BufferPool::flush_page`: what it writes to the store.
use chili_db.Prelude.{
  ℕ, ◌≡◌, refl, sym, ap, ◌∙◌, Bool, true, false, Option, some, ◌==◌, get_elem?, arith, inl, inr,
  Bool-cases, Result, ok, err, panic,
}
use chili_db.Prelude.Methods.{Ensures, resume}
use chili_db.Bytes.{Page}
use chili_db.Storage.Store.{IoError, PageStore, Contract, Written}
use chili_db.Storage.Pool.{Frame, VictimStrategy, Pool, Pin}
use chili_db.Storage.Pool.PageTable.{lookup}
use chili_db.Storage.Pool.Ops.{as_io, put, clean_frame, write_back}
use chili_db.Storage.Pool.Cached.{
  pins_of, pins_at, view, Clean, IsPool, Still, Still-refl, update-same, update-old, Still-trans,
  Moves-same,
}
use chili_db.Storage.Pool.Frames.{set-Moves}
use chili_db.Storage.Pool.Flushing.{wrote-Still, resident-Still}
use chili_db.Storage.Pool.Holding.{
  its_frame, its_frame-at, its_tag, its-Clean, view-its_bytes, latched,
}

module _ {S K : Type 0} (contents : S → ℕ → Option Page) (IsStrategy : ℕ → K → Type 0) where
  -- The store has the page as it is seen, and what else it had as it is seen it has still.
  pub record Saves (p : Pool S K) (q : ℕ) (p' : Pool S K) : Type 0 where
    pub still : Still contents IsStrategy p p'
    pub saved : contents p'.store q ≡ view contents p q
    pub keeps :
        (r : ℕ) → contents p.store r ≡ view contents p r → contents p'.store r ≡ view contents p r

  module _ (store : PageStore S) (policy : VictimStrategy K) (law : Contract contents store)
      (p : Pool S K) (v : IsPool contents IsStrategy p) (held : Pin)
      (here : lookup held.page p.pages ≡ some held.index) where
    abbrev f : Frame
    f = its_frame contents IsStrategy store policy p v held here

    f-at : get_elem? p.frames held.index ≡ some f
    f-at = its_frame-at contents IsStrategy store policy p v held here

    cleaned :
        f.dirty ≡ true
        → (r : S × Result IoError (Unit {0})) → Written contents held.page f.bytes p.store r
        → Ensures
            (λ u. Saves p held.page)
            (Still contents IsStrategy p)
            (resume
              (λ u. put held.index (record f { dirty = false }))
              (record p { store = r.0 }, as_io r.1))
    cleaned d (s, ok u) (now, old, same) =
        let after : Pool S K = record p { store = s } in
        let clean : Clean contents s held.page (record f { dirty = false }) =
          ((λ e. now), (λ e. cc)) in
        let seen = view-its_bytes contents IsStrategy store policy p v held here in
        let still : Still contents IsStrategy p after =
          resident-Still contents IsStrategy p held.index held.page f v here f-at s same
            ((λ e. now), (λ e. cc)) in
        let m =
          set-Moves contents IsStrategy after held.index held.page f (record f { dirty = false })
            still.valid here f-at (its_tag contents IsStrategy store policy p v held here) clean
            (v.counts held.index f f-at) in
        record {
          still = Still-trans contents IsStrategy (view contents p) (pins_of p) p after _ still (
              Moves-same contents IsStrategy _ (view contents p) _ (pins_of p) after _
                (λ id.
                  update-same (view contents after) (view contents p) held.page (some f.bytes)
                    (some f.bytes) still.seen refl id
                  ∙ update-old (view contents p) held.page (some f.bytes) (sym seen) id)
                (update-old (pins_of p) held.index f.pins (sym (ap pins_at f-at))) m);
          saved = now ∙ sym seen;
          keeps = λ r e. elim (Bool-cases (r == held.page)) [
            | inl eq ↦
                let page : r ≡ held.page = ground arith in
                ap (contents s) page ∙ now ∙ sym seen ∙ ap (view contents p) (sym page)
            | inr ne ↦ same r (ground arith) ∙ e
          ];
        }
    cleaned d (s, err e) h =
        wrote-Still contents IsStrategy p held.index held.page f v here f-at d (s, err e) h
    cleaned d (s, panic) h = absurd h

    clean_frame-Saves :
        (d : Bool)
        → f.dirty ≡ d
        → Ensures
            (λ u. Saves p held.page)
            (Still contents IsStrategy p)
            (clean_frame store policy held f d p)
    clean_frame-Saves false e =
        let tidy = its-Clean contents IsStrategy store policy p v held here in
        record {
          still = Still-refl contents IsStrategy p v;
          saved = tidy.0 e ∙ sym (view-its_bytes contents IsStrategy store policy p v held here);
          keeps = λ r h. h;
        }
    clean_frame-Saves true e =
        cleaned e (store.write_page held.page f.bytes p.store)
          (law.writes held.page f.bytes p.store)

    pub write_back-Saves :
        Ensures
          (λ u. Saves p held.page)
          (Still contents IsStrategy p)
          (write_back store policy held p)
    unfolding write_back
    write_back-Saves =
        latched contents IsStrategy store policy p v held here (λ u. Saves p held.page)
          (Still contents IsStrategy p) (λ g. clean_frame store policy held g g.dirty)
          (Still-refl contents IsStrategy p v) (clean_frame-Saves f.dirty refl)
