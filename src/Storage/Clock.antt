-- ===== src/Storage/Clock.antt =====
-- crates/storage/src/replacement.rs: second-chance replacement. A buffer id is a frame index.
pub mod Sweep
pub mod Victim
mod Tests
use chili_db.Prelude.{
  ℕ, zero, suc, ◌+◌, ◌-◌, ◌%◌, ◌^◌, Bool, true, false, not, List, [], ◌∷◌, Option, none, some,
  Result, ok, err, panic, leb, ◌==◌, if◌then◌else◌, length, get_elem?, set,
}

pub record Clock : Type 0 where
  pub referenced : List Bool
  pub hand : ℕ

-- A call on `&mut self` that cannot fail but by a panic.
abbrev pub Step : Type 0 → Type 0
Step A = Clock × Result ⊥ A

abbrev pub all_false : ℕ → List Bool
all_false zero = []
all_false (suc n) = false ∷ all_false n

-- The capacity must fit the ids; one that does not is a panic.
unfoldable pub new : ℕ → Result ⊥ Clock
new capacity =
    if leb capacity (2 ^ 32)
    then ok (record { referenced = all_false capacity; hand = 0 })
    else panic

abbrev pub accessed : ℕ → Clock → Option Bool → Step (Unit {0})
accessed buffer c none = (c, panic)
accessed buffer c (some _) = (record c { referenced = set c.referenced buffer true }, ok tt)

unfoldable pub access : ℕ → Clock → Step (Unit {0})
access buffer c = accessed buffer c (get_elem? c.referenced buffer)

-- `load` is the trait's default.
unfoldable pub load : ℕ → Clock → Step (Unit {0})
load = access

-- `self.hand = (self.hand + 1) % len`, and then `self.referenced[index] = false`.
abbrev pub moved : Clock → Clock
moved c = record c { hand = (c.hand + 1) % length c.referenced }

abbrev pub spared : Clock → Clock
spared c = record {
  referenced = set c.referenced c.hand false;
  hand = (c.hand + 1) % length c.referenced;
}

module _ (can_evict : ℕ → Bool) where
  -- The inner loop; the number counts the rounds left, and `some` is an early return.
  unfoldable pub sweep : ℕ → Clock → Step (Option ℕ)
  sweep zero c = (c, ok none)
  sweep (suc n) c =
      let buffer = c.hand % 2 ^ 32 in
      let passed = sweep n (moved c) in
      let second_chance = sweep n (spared c) in
      if not (can_evict buffer) then passed else elim (get_elem? c.referenced c.hand) [
        | none ↦ (moved c, panic)
        | some false ↦ (moved c, ok (some buffer))
        | some true ↦ second_chance
      ]

  abbrev pub or_again : Step (Option ℕ) → Step (Option ℕ)
  or_again (c, ok none) = sweep (length c.referenced) c
  or_again (c, ok (some buffer)) = (c, ok (some buffer))
  or_again (c, panic) = (c, panic)
  or_again (c, err e) = (c, err e)

  unfoldable pub victim : Clock → Step (Option ℕ)
  victim c = or_again (sweep (length c.referenced) c)
