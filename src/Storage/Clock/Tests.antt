-- ===== src/Storage/Clock/Tests.antt =====
-- Runs of the clock.
use chili_db.Prelude.{◌≡◌, refl, true, false, [], ◌∷◌, some, none, ok, ◌==◌, not, arith}
use chili_db.Storage.Clock.{Clock, sweep, victim}
use chili_db.Storage.Clock.Victim.{VictimOk, victim_lem}

abbrev three : Clock
three = record { referenced = true ∷ false ∷ true ∷ []; hand = 0 }

-- Frame 1 is pinned: the bits of 0 and 2 are cleared, and frame 0 goes.
all_referenced :
    victim (λ i. not (i == 1)) three
    ≡ (record { referenced = false ∷ false ∷ false ∷ []; hand = 1 }, ok (some 0))
unfolding victim sweep
all_referenced = refl

unreferenced_first : (victim (λ i. true) three).1 ≡ ok (some 1)
unfolding victim sweep
unreferenced_first = refl

empty_clock_has_no_victim : (victim (λ i. true) (record { referenced = []; hand = 0 })).1 ≡ ok none
unfolding victim sweep
empty_clock_has_no_victim = refl

victim_lem_example : VictimOk (λ i. not (i == 1)) three (victim (λ i. not (i == 1)) three)
victim_lem_example = victim_lem (λ i. not (i == 1)) three (omega arith)
