-- ===== src/Storage/BufferModel/Safe.antt =====
-- The conditions that are checked `always`, in every state that the model reaches.
use chili_db.Prelude.{◌≡◌, true}
use chili_db.Storage.BufferModel.{BufferModel, State}
use chili_db.Storage.BufferModel.Invariant.{Inv}
use chili_db.Storage.BufferModel.Enabled.{Reported}
use chili_db.Storage.BufferModel.Reach.{Reach, Reach-Sound}
use chili_db.Storage.BufferModel.Checks.{
  access_ready, unique_published, mapping_bijection, pin_accounting, ownership, writer_exclusivity,
  failed_load_reusable, failed_writeback_retains, loser_releases,
}
use chili_db.Storage.BufferModel.Pins.{access_ready-Inv, pin_accounting-Inv}
use chili_db.Storage.BufferModel.Mapping.{unique_published-Inv, mapping_bijection-Inv}
use chili_db.Storage.BufferModel.Owning.{ownership-Inv, writer_exclusivity-Inv}
use chili_db.Storage.BufferModel.Reporting.{load_failure_ok, flush_failure_ok, race_loss_ok}

module _ (m : BufferModel) {s : State} (r : Reach m s) where
  inv : Inv m.page_count s
  inv = (Reach-Sound r).inv

  -- In every reached state, whoever pins, reads or writes has a ready frame with its page and a
  -- positive pin count, and the pin count of each frame is the number of backends that pin it, 0
  -- for a frame that is not ready: no pinned page is evicted.
  pub pins-Reach : (access_ready s ≡ true) × (pin_accounting s ≡ true)
  pins-Reach = (access_ready-Inv m.page_count s inv, pin_accounting-Inv m.page_count s inv)

  -- In every reached state, no two frames publish one page, and the page table lists exactly the
  -- frames that publish a page, each under its page.
  pub mapping-Reach : (unique_published s ≡ true) × (mapping_bijection s ≡ true)
  mapping-Reach =
      (unique_published-Inv m.page_count s inv, mapping_bijection-Inv m.page_count s inv)

  -- In every reached state, a reservation is of a frame that is reserved or flushing for this very
  -- backend and page, a waiter's frame loads its page, and a reserved or flushing frame has its
  -- owner.
  pub ownership-Reach : ownership s ≡ true
  ownership-Reach = ownership-Inv m.page_count s inv

  -- In every reached state, while a backend writes at a frame no other reads or writes there.
  pub writer_exclusivity-Reach : writer_exclusivity s ≡ true
  writer_exclusivity-Reach = writer_exclusivity-Inv m.page_count s inv

  -- In every reached state: after a failed load the frame is free, its page is out of the table and
  -- nobody waits there; after a failed write-back the frame still has the old page, dirty, unpinned
  -- and listed; after a lost race the loser's frame is free and not in the table.
  pub event-Reach :
      (failed_load_reusable s ≡ true)
      × (failed_writeback_retains s ≡ true)
      × (loser_releases s ≡ true)
  unfolding failed_load_reusable failed_writeback_retains loser_releases
  event-Reach =
      let report : Reported s.event s = (Reach-Sound r).reported in
      (
        load_failure_ok s s.event report,
        flush_failure_ok s s.event report,
        race_loss_ok s s.event report,
      )
