-- ===== src/Scenarios/Upstream.antt =====
-- Polls of a source of the installation whose upstream answers in three ways, by
-- src/pipeline/poll.rs.
use Prim.Native.Nat.{compare}
use xrelease.Base.{ℕ, String, Bool, true, false, Option, none, some, [], refl, ◌≡◌}
use xrelease.Text.{decimal}
use xrelease.Store.Enqueue.Keys.{IsKeyed}
use xrelease.Poll.Once.{FetchOutcome, poll_once_inner}
use xrelease.Poll.Once.Aside.{SameOutbox}
use xrelease.Poll.Once.Polls.{poll_once_inner-IsKeyed}
use xrelease.Poll.Once.Answers.{poll_once_inner-unmodified}
use xrelease.Poll.Once.Failure.{is_err, SameStanding, poll_once_inner-SameStanding}
use xrelease.Scenarios.Installation.{world}
use xrelease.Scenarios.Polling.{watch, watched, watched-IsKeyed, releases, body_hash}

abbrev fetch_fresh : ℕ → Option String → Option (FetchOutcome ℕ)
fetch_fresh i etag = some (record { releases = releases; etag = some "w1"; is_unmodified = false })

abbrev fetch_unmodified : ℕ → Option String → Option (FetchOutcome ℕ)
fetch_unmodified i etag = some (record { releases = []; etag = none; is_unmodified = true })

abbrev fetch_nothing : ℕ → Option String → Option (FetchOutcome ℕ)
fetch_nothing i etag = none

-- No text is a semantic version, and no version a pre-release.
abbrev no_version : String → Option ℕ
no_version text = none

abbrev is_stable : ℕ → Bool
is_stable version = false

IsKeyed-once_example :
    IsKeyed
      (poll_once_inner body_hash compare decimal decimal no_version is_stable fetch_fresh watch
        false
        (world watched)).1.tables
IsKeyed-once_example =
    poll_once_inner-IsKeyed body_hash compare decimal decimal no_version is_stable fetch_fresh watch
      false (world watched) watched-IsKeyed

unmodified_example :
    SameOutbox watched
      (poll_once_inner body_hash compare decimal decimal no_version is_stable fetch_unmodified watch
        false
        (world watched)).1.tables
unmodified_example =
    poll_once_inner-unmodified body_hash compare decimal decimal no_version is_stable
      fetch_unmodified watch false (world watched) (λ i. refl)

SameStanding-example :
    let (result, v) =
      poll_once_inner body_hash compare decimal decimal no_version is_stable fetch_nothing watch
        false
        (world watched) in
    (is_err result ≡ true) × SameStanding watched v.tables
SameStanding-example =
    poll_once_inner-SameStanding body_hash compare decimal decimal no_version is_stable
      fetch_nothing watch false (world watched) (λ i. refl)
