-- ===== src/Storage/BufferModel/Reach.antt =====
-- The states that the model reaches: from the initial one, by the actions that are offered.
use chili_db.Prelude.{ℕ, ◌≡◌, sym, refl, subst, List, some}
use chili_db.Storage.BufferModel.{BufferModel, IsModel, State, Action, init}
use chili_db.Storage.BufferModel.Actions.{actions}
use chili_db.Storage.BufferModel.Step.{Next, panicked, ignored, to, next_state}
use chili_db.Storage.BufferModel.Invariant.{init-Inv}
use chili_db.Storage.BufferModel.Enabled.{Sound, Taken}
use chili_db.Storage.BufferModel.Keeps.{next_state-Taken}
use chili_db.Storage.BufferModel.Offered.{In, Within, actions-Enabled}
use chili_db.Storage.BufferModel.Listing.{actions_total}

pub data Reach (m : BufferModel) : State → Type 0 where
  start : {s : State} → IsModel m → s ≡ init m → Reach m s
  step :
      {s t : State} (a : Action)
      → Reach m s
      → Within a (actions m s)
      → next_state s a ≡ to t
      → Reach m t

-- A step that is taken leads somewhere.
Taken-to : (n : ℕ) (r : Next) → Taken n r → (t : State) × (r ≡ to t) × Sound n t
Taken-to n panicked h = absurd h
Taken-to n ignored h = absurd h
Taken-to n (to t) h = (t, refl, h)

pub Reach-Sound : {m : BufferModel} {s : State} → Reach m s → Sound m.page_count s
Reach-Sound {m} {s} (start h e) =
    subst (Sound m.page_count) (sym e) (record { inv = init-Inv m h; reported = tt })
Reach-Sound {m} {s} (step {s = old} a r offered e) =
    subst (Taken m.page_count) e
      (next_state-Taken m.page_count old a (Reach-Sound r).inv (actions-Enabled m old a offered))

-- In every state that the model reaches, for any numbers of frames, pages and backends, the list
-- of actions can be made, and `next_state` takes each action on it to a state that is again
-- reached: it neither panics on an index or on a pin count below 0, nor ignores the action.
pub actions-next_state :
    (m : BufferModel) {s : State}
    → Reach m s
    → (out : List Action) × (actions m s ≡ some out)
      × ((a : Action) → In a out → (t : State) × (next_state s a ≡ to t) × Reach m t)
actions-next_state m {s} r =
    let (out, h) = actions_total m s (Reach-Sound r).inv in
    (
      out,
      h,
      (λ a listed.
          let within : Within a (actions m s) = subst (Within a) (sym h) listed in
          let (t, e, sound) = Taken-to m.page_count (next_state s a) (
            next_state-Taken m.page_count s a (Reach-Sound r).inv (actions-Enabled m s a within)) in
          (t, e, step a r within e)),
    )
