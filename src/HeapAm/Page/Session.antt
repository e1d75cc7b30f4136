-- ===== src/HeapAm/Page/Session.antt =====
-- Sequences of calls on one page, against the view.
use chili_db.Prelude.{ℕ, ◌^◌, ◌<◌, ◌≡◌, refl, Bool, Option, some, List, [], ◌∷◌, Result, ap, ap₂}
use chili_db.Bytes.{Bytes, Page}
use chili_db.HeapAm.Errors.{HeapError}
use chili_db.HeapAm.Page.View
use chili_db.HeapAm.Page.View.{View}
use chili_db.HeapAm.Page.Holds.{Holds}
use chili_db.HeapAm.Page.Inserting.{insert_refines}
use chili_db.HeapAm.Page.Changing.{delete_refines, replace_refines}
use chili_db.HeapAm.Page.Reading.{get_refines, records_refines}
use chili_db.HeapAm.Page.Linking.{set_next_refines}
use chili_db.HeapAm.Page.Ops

pub data Call : Type 0 where
  inserts : Bytes → Call
  gets deletes scans : ℕ → Call
  replaces : ℕ → Bytes → Call
  links : Option ℕ → Call

pub data Reply : Type 0 where
  inserted : Result HeapError (Option ℕ) → Reply
  got : Result HeapError (Option Bytes) → Reply
  changed : Result HeapError Bool → Reply
  scanned : Result HeapError (List (ℕ × Bytes)) → Reply
  linked : Result HeapError (Unit {0}) → Reply

-- Slot ids are nonzero, and page ids are 32 bits wide.
abbrev pub IsCall : Call → Type 0
IsCall (inserts t) = Unit {0}
IsCall (gets id) = 0 < id
IsCall (deletes id) = 0 < id
IsCall (scans limit) = Unit {0}
IsCall (replaces id t) = 0 < id
IsCall (links next) = (n : ℕ) → next ≡ some n → n < 2 ^ 32

abbrev with_reply : {S A : Type 0} → (A → Reply) → S × A → S × Reply
with_reply f (s, a) = (s, f a)

pub call : Call → Page → Page × Reply
call (inserts t) p = with_reply inserted (Ops.insert t p)
call (gets id) p = with_reply got (Ops.get id p)
call (deletes id) p = with_reply changed (Ops.delete id p)
call (scans limit) p = with_reply scanned (Ops.records limit p)
call (replaces id t) p = with_reply changed (Ops.replace id t p)
call (links next) p = with_reply linked (Ops.set_next next p)

pub view_call : Call → View → View × Reply
view_call (inserts t) v = with_reply inserted (View.insert t v)
view_call (gets id) v = with_reply got (View.get id v)
view_call (deletes id) v = with_reply changed (View.delete id v)
view_call (scans limit) v = with_reply scanned (View.records limit v)
view_call (replaces id t) v = with_reply changed (View.replace id t v)
view_call (links next) v = with_reply linked (View.set_next next v)

pub run : List Call → Page → List Reply
run [] p = []
run (c ∷ cs) p = let (p', r) = call c p in r ∷ run cs p'

pub view_run : List Call → View → List Reply
view_run [] v = []
view_run (c ∷ cs) v = let (v', r) = view_call c v in r ∷ view_run cs v'

abbrev pub AllCalls : List Call → Type 0
AllCalls [] = Unit {0}
AllCalls (c ∷ cs) = IsCall c × AllCalls cs

call_refines :
    (c : Call) (p : Page) (v : View)
    → IsCall c
    → Holds p v
    → ((call c p).1 ≡ (view_call c v).1) × Holds (call c p).0 (view_call c v).0
unfolding call view_call
call_refines (inserts t) p v good h = let (e, h') = insert_refines p v t h in (ap inserted e, h')
call_refines (gets id) p v good h = rw (get_refines p v id good h) (refl, h)
call_refines (deletes id) p v good h =
    let (e, h') = delete_refines p v id good h in (ap changed e, h')
call_refines (scans limit) p v good h = rw (records_refines p v limit h) (refl, h)
call_refines (replaces id t) p v good h =
    let (e, h') = replace_refines p v id t good h in (ap changed e, h')
call_refines (links next) p v good h =
    let (e, h') = set_next_refines p v next good h in (ap linked e, h')

-- No sequence of calls tells a page that holds a view from the view: every reply is the view's.
pub run_refines :
    (cs : List Call) (p : Page) (v : View) → AllCalls cs → Holds p v → run cs p ≡ view_run cs v
unfolding run view_run
run_refines [] p v good h = refl
run_refines (c ∷ cs) p v good h =
    let (e, h') = call_refines c p v good.0 h in ap₂ ◌∷◌ e (run_refines cs _ _ good.1 h')
