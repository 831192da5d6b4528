-- ===== src/Lib.antt =====
-- xrelease watches sources of software releases and notifies teams of new ones. A poll finds the new
-- releases of a source and enqueues a notification for each in an outbox in PostgreSQL; a delivery
-- attempt sends a row of the outbox to the sinks that its routing tag selects, and keeps, in a ledger
-- with a line for each sink, which of them have it. A background task claims the rows that are due
-- under a lease, in waves, and joins deferred rows of one moment in a digest. A circuit breaker for
-- each sink skips calls that would fail.
--
-- The parts, and the files that model them (paths from the repository's root):
--   * Breaker models src/breaker.rs: Breaker, allows, record (here record_outcome). An instant and a
--     duration are natural numbers; the count of failures saturates at 2 ^ 32 - 1.
--   * Notify models src/notify/mod.rs and src/notify/routing.rs: which sinks take an event, and the
--     fan-out notify_partial with the breakers. A backend is a function of the environment.
--   * Store models the statements of src/store/postgres/outbox.rs on the tables of
--     src/store/postgres_schema.sql. Tables has the rows, Rows the updates of one row, Enqueue,
--     Claim, Ledger and Parent the operations. Each statement or transaction is one step that takes
--     effect whole, or fails and changes nothing.
--   * World is what a task reads and writes, and the environment: whether a statement fails, how much
--     time passes, what a backend answers, what the advisory lookup adds to an event. All of these
--     are arbitrary functions of the number of the interaction. An action returns a value or an
--     error, and what it wrote before an error stays written. World/Relates, World/Over and
--     World/Ensures have the rules that the proofs about actions use.
--   * Engine models emit_ops_alert of src/engine.rs.
--   * Pipeline models src/pipeline/outbox.rs: Delivery is deliver_to_pending_sinks and
--     attempt_notification_delivery, Digest is partition_for_digest and build_digest_event, Group is
--     the delivery of a digest, Flush is flush_notification_outbox.
--   * Scheduler models the dead-letter sweep, the recovery at startup and the pause after a failed
--     poll of src/scheduler.rs.
--   * Model models src/model.rs: releases, their order, and the fingerprint of their content.
--     Semantic versions with their order and the hash are arbitrary, since they are other crates'
--     code. Model/Parse models Release::new and parse_version on the parser of the `semver` crate.
--   * Store/Catalogue, with write_seen_row in Store/Parent, models the statements of
--     src/store/postgres/mod.rs on the seen releases and the state of a source; Poll models
--     select_for_delivery of src/pipeline/poll.rs, Poll/Deliver its build_event and
--     deliver_new_releases, Poll/Once its poll_once_inner with the refresh of dates and the latest
--     tag, Filter models src/pipeline/filter.rs. A compiled regular expression, the moments of a
--     schedule and the printing of versions and dates are functions.
--   * Role models src/api/role.rs: the ladder of roles and their resolution from claims.
--   * ReleaseUrls models src/sources/release_urls.rs on the UTF-8 bytes of texts: the encoding of a
--     tag in the address of its page and the way back, with a decoder of UTF-8 that replaces what is
--     malformed.
--   * Sources models what a provider says of itself: Registry the registries of
--     src/sources/package.rs and src/sources/docker.rs, Provider the sources of src/sources/mod.rs
--     and their constructors.
--   * Config models the desired state: Presets src/config/sources/preset.rs, Source and Watches the
--     entries of src/config/sources/mod.rs and their way to watches with src/config/mod.rs,
--     Organizations src/config/organizations.rs and the preparation of an organization's sources in
--     src/config/sources/mod.rs, Diff src/config_apply/diff.rs, Redact the tokens of sources in
--     src/config_apply/redact.rs, Routing the check of routing tags in src/validate.rs. The
--     compilation of regular expressions and schedules, the secrets of the process and the serializer
--     of an entry are functions.
--   * WatchLookup models src/watch_lookup.rs: the index of watches by id, repository and image.
--   * Advisory models src/advisory/mod.rs: severities and package coordinates, Render the block of a
--     notification's body, Lookup the lookup with its cache and breaker and the settings of
--     src/config/advisories.rs. A delivery takes the advisories from the environment, not from
--     Lookup.
--   * Text has what these parts use of Rust's strings, Base the shared names and lemmas.
--   * Scenarios applies the theorems to a small installation.
--
-- Bounds and fuel. The loop of a flush runs on fuel, one wave for each row of its limit; every wave
-- but the last claims a row, so this is enough. Attempts are natural numbers; they stay near the cap
-- of 50, far below the bound of their column. The printing of a number runs on fuel, one more than
-- the number.
--
-- Time. The program's clock and the database's are one clock, in seconds, that moves only with
-- interactions.
--
-- Order. The calls of one fan-out, and the units of one wave, are concurrent in the program; here
-- they are made one after the other, in their order. Two tasks that run at once are not interleaved.
--
-- Upstream. What a fetch of a provider brings is an arbitrary function of the number of the
-- interaction and of the ETag that is sent.
--
-- Not modelled: the HTTP clients of sources and the parsers of their answers, the backends' own
-- protocols, the queries to the advisory database, the reading of configuration documents, the merge of
-- the organizations' documents and the other checks of them, the redaction of notifiers' secrets and
-- the protocol of an application, the HTTP API but for its roles, the command line, logging, and the
-- web front end.
pub mod Base
pub mod Text
pub mod Breaker
pub mod Notify
pub mod Store
pub mod World
pub mod Engine
pub mod Pipeline
pub mod Role
pub mod ReleaseUrls
pub mod Config
pub mod WatchLookup
pub mod Sources
pub mod Scheduler
pub mod Model
pub mod Filter
pub mod Poll
mod Scenarios
pub mod Advisory
