-- ===== src/Storage/BufferModel/Traces.antt =====
-- Runs of the model through offered actions: the conditions that are to hold `sometimes` do.
use chili_db.Prelude.{
  ℕ, ◌≡◌, refl, arith, sym, ◌∙◌, subst, inl, inr, Bool, true, false, List, [], ◌∷◌, Option, none,
  some,
}
use mathlib.Core.Bool.{Bool-discrete}
use native.Mathlib.Decide.{ℕ_discrete}
use mathlib.Core.Logic.{ite, if_neg}
use chili_db.Storage.BufferModel.{
  Frame, Backend, free, loading, ready, waiting, writing, BufferModel, IsModel, State, Action, init,
  no_event, race_released,
}
use chili_db.Storage.BufferModel.Actions.{actions}
use chili_db.Storage.BufferModel.Step.{Next, panicked, ignored, to, next_state, joined, retry_event}
use chili_db.Storage.BufferModel.Offered.{In, Within}
use chili_db.Storage.BufferModel.Reach.{Reach, start, step, actions-next_state}
use chili_db.Storage.BufferModel.Safe.{
  pins-Reach, mapping-Reach, ownership-Reach, writer_exclusivity-Reach, event-Reach,
}
use chili_db.Storage.BufferModel.Progress.{progress-Reach}
use chili_db.Storage.BufferModel.Checks.{
  access_ready, pin_accounting, unique_published, mapping_bijection, ownership, writer_exclusivity,
  failed_load_reusable, failed_writeback_retains, loser_releases, load_retried, waiters_cancelled,
  writeback_failed, waiters_joined, race_lost,
}

pub Action-discrete : Discrete Action
Action-discrete = hlevel (ℕ_discrete, Bool-discrete)

is_on : Action → List Action → Bool
unfolding Action-discrete ℕ_discrete
is_on a [] = false
is_on a (x ∷ xs) = ite (Action-discrete a x) true (is_on a xs)

is_offered : Action → Option (List Action) → Bool
is_offered a none = false
is_offered a (some xs) = is_on a xs

-- `none` is a step that is not offered, or not taken.
taken : Bool → Next → Option State
taken true (to t) = some t
taken true panicked = none
taken true ignored = none
taken false n = none

advance : BufferModel → Option State → Action → Option State
advance m none a = none
advance m (some s) a = taken (is_offered a (actions m s)) (next_state s a)

run : BufferModel → Option State → List Action → Option State
run m o [] = o
run m o (a ∷ rest) = run m (advance m o a) rest

abbrev Reaches : BufferModel → Option State → Type 0
Reaches m none = Unit
Reaches m (some s) = Reach m s

is_on-In : (a : Action) (xs : List Action) → is_on a xs ≡ true → In a xs
unfolding is_on
is_on-In a [] h = cc
is_on-In a (x ∷ xs) h = elim (Action-discrete a x) [
  | yes e ↦ inl e
  | no ne ↦ inr (is_on-In a xs (sym (if_neg (Action-discrete a x) ne true (is_on a xs)) ∙ h))
]

is_offered-Within : (a : Action) (xs : Option (List Action)) → is_offered a xs ≡ true → Within a xs
unfolding is_offered
is_offered-Within a none h = cc
is_offered-Within a (some xs) h = is_on-In a xs h

taken-Reaches :
    (m : BufferModel) (s : State) (a : Action) (t : Bool) (n : Next)
    → Reach m s
    → is_offered a (actions m s) ≡ t
    → next_state s a ≡ n
    → Reaches m (taken t n)
unfolding taken
taken-Reaches m s a true (to t) r on e = step a r (is_offered-Within a (actions m s) on) e
taken-Reaches m s a true panicked r on e = tt
taken-Reaches m s a true ignored r on e = tt
taken-Reaches m s a false n r on e = tt

advance-Reaches :
    (m : BufferModel) (o : Option State) (a : Action) → Reaches m o → Reaches m (advance m o a)
unfolding advance
advance-Reaches m none a r = tt
advance-Reaches m (some s) a r =
    taken-Reaches m s a (is_offered a (actions m s)) (next_state s a) r refl refl

run-Reaches :
    (m : BufferModel) (o : Option State) (path : List Action)
    → Reaches m o
    → Reaches m (run m o path)
unfolding run
run-Reaches m o [] r = r
run-Reaches m o (a ∷ rest) r = run-Reaches m (advance m o a) rest (advance-Reaches m o a r)

-- What a run of offered actions ends in is reached.
reached :
    (m : BufferModel) (path : List Action) {s : State}
    → IsModel m
    → run m (some (init m)) path ≡ some s
    → Reach m s
reached m path h e = subst (Reaches m) e (run-Reaches m (some (init m)) path (start h refl))

abbrev model : ℕ → ℕ → ℕ → BufferModel
model f p b = record { frame_count = f; page_count = p; backend_count = b }

abbrev two : BufferModel
two = model 2 2 2

-- Backend 0 loads page 0 into frame 0.
abbrev load_first : List Action → List Action
load_first rest =
    Action.request 0 0
    ∷ Action.lookup 0
    ∷ Action.reserve 0 0
    ∷ Action.publish 0
    ∷ Action.submit 0
    ∷ rest

-- Backend 0 writes at frame 0, and backend 1 has reserved frame 1.
abbrev busy : State
busy = record {
  frames = ready 0 1 true ∷ Frame.reserved 1 1 ∷ [];
  backends = writing 0 0 ∷ Backend.reserved 1 1 false ∷ [];
  page_table = some 0 ∷ none ∷ [];
  event = no_event;
}

-- Backend 1 has lost the race for page 0.
abbrev raced : State
raced = record {
  frames = loading 0 false ∷ free ∷ [];
  backends = waiting 0 0 false ∷ waiting 0 0 false ∷ [];
  page_table = some 0 ∷ none ∷ [];
  event = race_released 1;
}

abbrev busy_path : List Action
busy_path = load_first (
    Action.load_done 0 true
    ∷ Action.write 0
    ∷ Action.request 1 1
    ∷ Action.lookup 1
    ∷ Action.reserve 1 1
    ∷ [])

abbrev raced_path : List Action
raced_path =
    Action.request 0 0
    ∷ Action.request 1 0
    ∷ Action.lookup 0
    ∷ Action.lookup 1
    ∷ Action.reserve 0 0
    ∷ Action.reserve 1 1
    ∷ Action.publish 0
    ∷ Action.publish 1
    ∷ []

run-busy : run two (some (init two)) busy_path ≡ some busy
unfolding run advance taken is_offered is_on actions next_state joined retry_event
run-busy = refl

run-raced : run two (some (init two)) raced_path ≡ some raced
unfolding run advance taken is_offered is_on actions next_state joined retry_event
run-raced = refl

two-IsModel : IsModel two
two-IsModel = record {
  some_frame = omega arith;
  some_page = omega arith;
  some_backend = omega arith;
}

busy-Reach : Reach two busy
busy-Reach = reached two busy_path two-IsModel run-busy

raced-Reach : Reach two raced
raced-Reach = reached two raced_path two-IsModel run-raced

-- The end of a run, by one of the conditions.
ends : (State → Bool) → Option State → Bool
ends test none = false
ends test (some s) = test s

load_retried-run :
    ends load_retried (
      run (model 1 1 1) (some (init (model 1 1 1))) (
        load_first (
          Action.load_done 0 false
          ∷ Action.lookup 0
          ∷ Action.reserve 0 0
          ∷ Action.publish 0
          ∷ Action.submit 0
          ∷ Action.load_done 0 true
          ∷ [])))
    ≡ true
unfolding ends load_retried run advance taken is_offered is_on actions next_state joined retry_event
load_retried-run = refl

waiters_cancelled-run :
    ends waiters_cancelled
      (run (model 1 1 1) (some (init (model 1 1 1))) (load_first (Action.cancel 0 ∷ [])))
    ≡ true
unfolding ends waiters_cancelled run advance taken is_offered is_on actions next_state joined
    retry_event
waiters_cancelled-run = refl

writeback_failed-run :
    ends writeback_failed (
      run (model 1 2 1) (some (init (model 1 2 1))) (
        load_first (
          Action.load_done 0 true
          ∷ Action.write 0
          ∷ Action.end_access 0
          ∷ Action.unpin 0
          ∷ Action.request 0 1
          ∷ Action.lookup 0
          ∷ Action.reserve 0 0
          ∷ Action.flush_done 0 false
          ∷ [])))
    ≡ true
unfolding ends writeback_failed run advance taken is_offered is_on actions next_state joined
    retry_event
writeback_failed-run = refl

waiters_joined-run :
    ends waiters_joined (
      run
        (model 1 1 2)
        (some (init (model 1 1 2)))
        (load_first (Action.request 1 0 ∷ Action.lookup 1 ∷ [])))
    ≡ true
unfolding ends waiters_joined run advance taken is_offered is_on actions next_state joined
    retry_event
waiters_joined-run = refl

race_lost-run : ends race_lost (run two (some (init two)) raced_path) ≡ true
unfolding ends race_lost run advance taken is_offered is_on actions next_state joined retry_event
race_lost-run = refl

pins-Reach_example : (access_ready busy ≡ true) × (pin_accounting busy ≡ true)
pins-Reach_example = pins-Reach two busy-Reach

mapping-Reach_example : (unique_published busy ≡ true) × (mapping_bijection busy ≡ true)
mapping-Reach_example = mapping-Reach two busy-Reach

ownership-Reach_example : ownership busy ≡ true
ownership-Reach_example = ownership-Reach two busy-Reach

writer_exclusivity-Reach_example : writer_exclusivity busy ≡ true
writer_exclusivity-Reach_example = writer_exclusivity-Reach two busy-Reach

event-Reach_example :
    (failed_load_reusable raced ≡ true)
    × (failed_writeback_retains raced ≡ true)
    × (loser_releases raced ≡ true)
event-Reach_example = event-Reach two raced-Reach

actions-next_state_example :
    (out : List Action) × (actions two busy ≡ some out)
    × ((a : Action) → In a out → (t : State) × (next_state busy a ≡ to t) × Reach two t)
actions-next_state_example = actions-next_state two busy-Reach

progress-Reach_example :
    (a : Action) × (t : State) × Within a (actions two raced)
    × (next_state raced a ≡ to t)
    × Reach two t
progress-Reach_example = progress-Reach two raced-Reach
