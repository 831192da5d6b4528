-- ===== src/Poll/Deliver.antt =====
-- `build_event` and `deliver_new_releases` of src/pipeline/poll.rs.
pub mod Keys
use Prim.Native.Nat.{Ordering}
use Prim.Native.String.{◌++◌}
use mathlib.Core.Option
use xrelease.Base.{
  ℕ, ◌+◌, String, Bool, true, false, not, Option, none, some, List, [], ◌∷◌, map, select, ltb,
  str_eq, if◌then◌else◌,
}
use xrelease.Text.{cut_after}
use xrelease.World.{Action, pure, ask, note, when, ◌>>=◌, ◌>>◌}
use xrelease.Notify.Event.{Event}
use xrelease.Store.Tables.{OutboxMeta, EnqueueOutcome}
use xrelease.Store.Rows.{outbox_lease_secs}
use xrelease.Store.Enqueue.{try_enqueue_notification}
use xrelease.Store.Claim.{claim_outbox_row}
use xrelease.Store.Catalogue.{Metadata, record_seen, enrich_seen_metadata}
use xrelease.Model.{Release, content_fingerprint, pick_latest}
use xrelease.Filter.{Filter, accepts}
use xrelease.Pipeline.Delivery.{attempt_notification_delivery}
use xrelease.Pipeline.Flush.{record_notifications}
use xrelease.Poll.{display_tag_of, seen_upsert, store_latest, select_for_delivery}

-- What a provider says of itself, and the parts of a watch that a delivery reads. The `cron` crate
-- gives the next moment of a schedule.
pub record Watch : Type 0 where
  pub source_id : String
  pub display_name : String
  pub kind_label : String
  pub filter : Filter
  pub routing_tag : Option String
  pub next_after : ℕ → Option ℕ

published_line : Option String → String
published_line none = ""
published_line (some date) = "- Published: " ++ (date ++ "\n")

abbrev max_body_chars : ℕ
max_body_chars = 3000

notes_text : String → Option String → String
notes_text notes none = notes
notes_text notes (some start) = start ++ "\n\n*…changelog truncated…*"

notes_section : Option String → String
unfolding notes_text
notes_section none = ""
notes_section (some notes) = "\n---\n\n" ++ notes_text notes (cut_after max_body_chars notes)

or_tag : String → Option String → String
or_tag tag none = tag
or_tag tag (some version) = version

abbrev pub metadata_of : {V : Type 0} → Release V → Metadata
metadata_of release = record {
  identity = release.id;
  published_at = release.published_at;
  url = release.url;
  display_tag = display_tag_of release;
}

-- How the `semver` and `chrono` crates print a version and a date, and what they compare and hash.
module _ {V : Type 0} (hash : String → String → String) (version_cmp : V → V → Ordering)
    (version_text : V → String) (date_text : ℕ → String) where
  unfoldable pub build_event : Watch → Release V → Event
  unfolding published_line notes_section or_tag
  build_event watch release =
      let version = or_tag release.raw_tag (Option.map version_text release.version) in
      let date = Option.map date_text release.published_at in
      record {
        source_id = watch.source_id;
        source_kind = watch.kind_label;
        title = watch.display_name ++ (": new release " ++ release.raw_tag);
        body =
            "**"
            ++ (watch.display_name
                ++ ("** published **"
                    ++ (release.raw_tag
                        ++ ("**.\n\n"
                            ++ ("- Source: "
                                ++ (watch.kind_label
                                    ++ ("\n"
                                        ++ ("- Version: "
                                            ++ (version
                                                ++ ("\n"
                                                    ++ (published_line date
                                                        ++ notes_section release.body)))))))))));
        url = release.url;
        routing_tag = none;
      }

  abbrev event_for : Watch → Release V → Event
  event_for watch release = record (build_event watch release) { routing_tag = watch.routing_tag }

  abbrev meta_for : Watch → Release V → ℕ → OutboxMeta
  meta_for watch release now = record {
    content_digest = some (content_fingerprint hash release);
    display_tag = display_tag_of release;
    published_at = release.published_at;
    deliver_after = watch.next_after now;
  }

  unfoldable pub note_enqueued : Bool → Action (Unit {0})
  note_enqueued created =
      when created (note (λ m. record m { outbox_enqueued = m.outbox_enqueued + 1 }))

  -- The row is leased for this attempt, or another worker has it.
  unfoldable pub deliver_claimed : Watch → Release V → ℕ → Bool → Action Bool
  deliver_claimed watch release id false = pure false
  deliver_claimed watch release id true =
      attempt_notification_delivery id 0 (event_for watch release) watch.source_id
        (seen_upsert hash version_cmp release)

  unfoldable pub deliver_enqueued : Watch → Release V → Option EnqueueOutcome → Action Bool
  unfolding note_enqueued
  deliver_enqueued watch release none = pure false
  deliver_enqueued watch release (some enqueued) = do
    note_enqueued enqueued.created
    record_seen watch.source_id (seen_upsert hash version_cmp release)
    (if enqueued.deliver_now
        then (do
          claimed ← claim_outbox_row enqueued.id outbox_lease_secs
          deliver_claimed watch release enqueued.id claimed)
        else pure false)

  -- One turn of the loop: whether the release was sent.
  unfoldable pub deliver_release : Watch → Release V → Action Bool
  deliver_release watch release = do
    now ← ask (λ w. w.now)
    enqueued ←
        try_enqueue_notification (event_for watch release) release.id (meta_for watch release now)
    deliver_enqueued watch release enqueued

  unfoldable pub deliver_each : Watch → ℕ → List (Release V) → Action ℕ
  deliver_each watch sent [] = pure sent
  deliver_each watch sent (release ∷ releases) = do
    delivered ← deliver_release watch release
    deliver_each watch (if delivered then sent + 1 else sent) releases

  unfoldable pub note_sent : String → ℕ → Action (Unit {0})
  note_sent source_id sent = when (ltb 0 sent) (record_notifications source_id sent)

  unfoldable pub deliver_new_releases : Watch → List (Release V) → Action ℕ
  unfolding note_sent
  deliver_new_releases watch releases = do
    let filtered = select (accepts watch.filter) releases
    store_latest hash version_cmp watch.source_id (pick_latest version_cmp filtered)
    enrich_seen_metadata watch.source_id (map metadata_of filtered)
    deliverable ←
        select_for_delivery hash version_cmp watch.source_id filtered watch.filter.exclude_updated
    sent ← deliver_each watch 0 deliverable
    note_sent watch.source_id sent
    pure sent
