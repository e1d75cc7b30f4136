-- ===== src/Lib.antt =====
-- ChiliDB: the storage engine, the catalog and the binder of an embedded SQL database in Rust.
--
-- Parts and files:
--   crates/common/src/lib.rs: Ctid. A tuple address (page and nonzero slot) and its six bytes.
--   crates/storage/src/lib.rs: Bytes (pages, little-endian numbers) and the errors in Storage/Pool.
--   crates/storage/src/replacement.rs: Storage/Clock. `sweep` is the inner loop of `victim` and
--     `or_again` its second round; Sweep and Victim are about the choice.
--   crates/storage/src/store.rs: Storage/Store. The record PageStore is the trait, Contract what it
--     promises, Store/Memory the in-memory store, and Store/Files the file-backed store over the
--     calls of a file (FileOps), whose laws are FileLaws.
--   crates/storage/src/buffer.rs: Storage/Pool. The pool is a value over any store and any strategy;
--     Pool/PageTable is its hash map, Pool/Ops its methods under their Rust names, a `PinnedBuffer`
--     the record Pin. Cached states the invariant and what a client sees: a resident page is the
--     bytes of its frame, another page what the store holds. Frames and Installing are about a change
--     of one frame, Victims, Flushing and Replacing the eviction, Pinning and Loading `pin`,
--     Creating `new_page`, Holding the methods of a pin, Flush, FlushAll and Syncing the flushes,
--     Opening the constructors and the clock as a strategy.
--   crates/storage/src/models/buffer_pool.rs: Storage/BufferModel, the state machine of a proposed
--     asynchronous pool. Step is `next_state` (an index out of range or a count below 0 is
--     `panicked`), Actions what is offered, Checks the conditions of `properties`; Invariant is the
--     inductive invariant, Entries, Patch, Turn, Settle and Landing changes of a state, Moves,
--     Reserving, Accessing, Seeking, Publishing, Finishing and Keeps the actions, Enabled, Offered
--     and Listing the list of actions, Reach the reached states, Walks, Pins, Mapping, Owning,
--     Reporting and Safe the conditions, Progress deadlock, and Traces runs.
--   crates/heapam/src/page.rs: HeapAm/Page (the format, `validate`, `compact`) and Page/Ops (insert,
--     get, records, delete, replace, set_next). Page/View is the specification, a page as a list of
--     slots; Directory, Occupancy and Validity are about what `validate` accepts, Placing, Building,
--     Compaction and Accepting about what `compact` builds, Layout, Scanning and Deciding about
--     `validate` as a decision on a layout told byte by byte, and Holds, Inserting, Changing,
--     Reading, Linking and Session about the operations and those of the view.
--   crates/heapam/src/heap.rs: HeapAm/Heap (create, insert, get, delete, replace; a callback of a
--     pin is a method on the page), Heap/Checks and Heap/Scan (scan and the iterator).
--   crates/heapam/src/lib.rs: HeapAm/Errors.
--   crates/catalog/src/codec.rs: Catalog/Codec (validate, encode), Codec/Decode (the Reader and
--     decode), Catalog/Utf8 (what `String::from_utf8` accepts); Written and RoundTrip relate them in
--     one direction, Parsing, Readers, Items, Writes, Checking and Canonical in the other.
--   crates/parser/src/ast.rs: Parser/Ast, the expressions and declarations that the binder reads.
--   crates/binder/src/{lib,catalog,ast}.rs: Binder/Types (logical types and table metadata) and
--     Binder/Ast (bound expressions, scalars and errors).
--   crates/binder/src/context.rs: Binder/Context (`resolve_column`, one function per loop) and
--     Context/Resolution, its specification.
--   crates/binder/src/expression.rs: Binder/Number (`valid_number`, `number`), Binder/Coercion (`cast`,
--     `boolean`, `assignment`, the common types), Binder/Operator (the operators) and
--     Binder/Expression (`bind_expr_inner`).
--   crates/binder/src/aggregate.rs: Binder/Frame (`frame`, `order`) and Binder/Call (`bind_call`).
--     Expression/Typing says when a bound expression is well typed; Parts, Operands, Frames,
--     Signatures, Calls and Typed are about coercions, operators, frames, signatures, calls, and all
--     of `bind_expr_inner`.
--     Binder/Grouping has `contains_aggregate` and `validate_grouped`, over Binder/Equality (the
--     derived `PartialEq`); Grouping/Evaluation says what an expression is worth, and Grouped is about
--     groups.
--   crates/binder/src/ddl.rs: Binder/CreateTable over the catalog of Binder/Statement; CreateTable/Declaring
--     is about one column, and Stored relates the table to the check of the catalog's codec.
--   crates/binder/src/dml.rs: Binder/Modify. Modify/Targets is about the target columns, Assigning
--     about values, filters and UPDATE, Filling, Rows and Inserting about INSERT.
--
-- A page is a function from an index to a byte, and each slice is checked against the page size; a
-- string is its bytes. An outcome is `Result`: a value, an error, or `panic` for an index out of
-- range, an underflow or a failed assertion. A method on `&mut self` returns its state on every
-- path (Prelude/Methods). Numbers are natural numbers; where Rust wraps (the pin count, a frame
-- index as `u32`) or checks (page ids, slot ids, counts) the width is written out.
--
-- Loops run on the number of rounds that Rust gives them: the slots of a page, the frames of a
-- clock, the counts of a record, so no fuel can run out.
--
-- Not modelled: threads inside one method (each call is one step, and the latches only decide
-- whether a poisoned one is met), unsafe access to frames, opening a file or a heap table, the
-- catalog's directory, the parser but the expressions and declarations of its syntax tree, SELECT in
-- the binder, the planner, optimizer and executor. A page store and a replacement
-- strategy are parameters of the pool, which their promises (Contract, Policy) stand for. A panic of
-- theirs would end the run; the promises exclude it. The binder takes `f64` (Floats) and the catalog
-- as parameters.
mod Prelude
pub mod Bytes
pub mod Ctid
pub mod Storage
pub mod Parser
pub mod Binder
pub mod Catalog
pub mod HeapAm
