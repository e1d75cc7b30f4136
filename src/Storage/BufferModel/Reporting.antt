-- ===== src/Storage/BufferModel/Reporting.antt =====
-- The checks on the last step's event follow from what the event reports.
use chili_db.Prelude.{
  ℕ, ◌==◌, ◌≡◌, ◌≢◌, inl, inr, refl, ap, ap₂, ◌∙◌, Bool, true, false, not, ◌&&◌, Option, none, some,
  arith, Bool-cases,
}
use chili_db.Storage.BufferModel.{
  ready, Backend, idle, miss, waiting, pinned, reading, writing, Event, no_event, race_released,
  load_failed, retry_succeeded, flush_failed, State,
}
use chili_db.Storage.BufferModel.Enabled.{Reported}
use chili_db.Storage.BufferModel.Checks.{
  is_page, is_entry, is_free_frame, is_vacant, is_waiting, load_failure, is_dirty_page,
  flush_failure, race_loss,
}
use chili_db.Storage.BufferModel.Walks.{any-none}

-- The backend waits at no such frame, and the entry names no such frame.
waiting_ok :
    (f : ℕ) (k : Backend) → ((q : ℕ) (r : Bool) → k ≢ waiting f q r) → is_waiting f k ≡ false
waiting_ok f (waiting g p r) h = elim (Bool-cases (g == f)) [
  | inl eq ↦ let same : g ≡ f = ground arith in absurd (h p r (ap (λ i. waiting i p r) same))
  | inr ne ↦ ne
]
waiting_ok f idle h = refl
waiting_ok f (Backend.request p r) h = refl
waiting_ok f (miss p r) h = refl
waiting_ok f (Backend.reserved g p r) h = refl
waiting_ok f (pinned g p) h = refl
waiting_ok f (reading g p) h = refl
waiting_ok f (writing g p) h = refl

entry_free : (f : ℕ) (slot : Option ℕ) → slot ≢ some f → is_page f slot ≡ false
entry_free f none h = refl
entry_free f (some g) h = elim (Bool-cases (g == f)) [
  | inl eq ↦ let same : g ≡ f = ground arith in absurd (h (ap (λ i. some i) same))
  | inr ne ↦ ne
]

module _ (s : State) where
  pub load_failure_ok : (e : Event) → Reported e s → load_failure s e ≡ true
  load_failure_ok (load_failed f p) (here, vacant, none_waits) =
      ap₂ (◌&&◌) (ap₂ (◌&&◌) (ap is_free_frame here) (ap is_vacant vacant)) (
        ap not (
          any-none (is_waiting f) s.backends
            (λ b k at. waiting_ok f k (λ q r e. none_waits b q r (at ∙ ap (λ i. some i) e)))))
  load_failure_ok no_event h = refl
  load_failure_ok (race_released f) h = refl
  load_failure_ok retry_succeeded h = refl
  load_failure_ok (flush_failed f p) h = refl

  dirty_ok :
      (f p : ℕ) → is_dirty_page p (some (ready p 0 true)) && is_entry f (some (some f)) ≡ true
  dirty_ok f p = ground arith

  pub flush_failure_ok : (e : Event) → Reported e s → flush_failure s e ≡ true
  flush_failure_ok (flush_failed f p) (here, lists) =
      ap₂ (◌&&◌) (ap (is_dirty_page p) here) (ap (is_entry f) lists) ∙ dirty_ok f p
  flush_failure_ok no_event h = refl
  flush_failure_ok (race_released f) h = refl
  flush_failure_ok (load_failed f p) h = refl
  flush_failure_ok retry_succeeded h = refl

  pub race_loss_ok : (e : Event) → Reported e s → race_loss s e ≡ true
  race_loss_ok (race_released f) (here, unlisted) = ap₂ (◌&&◌) (ap is_free_frame here) (
      ap not (
        any-none (is_page f) s.page_table
          (λ p slot at. entry_free f slot (λ e. unlisted p (at ∙ ap (λ i. some i) e)))))
  race_loss_ok no_event h = refl
  race_loss_ok (load_failed f p) h = refl
  race_loss_ok retry_succeeded h = refl
  race_loss_ok (flush_failed f p) h = refl
