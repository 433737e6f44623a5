-- ===== src/Api/EmoteSets/Run/Tests.antt =====
-- The theorem on errors, at a set that is gone when it is renamed.
use tv.Prelude.{ℕ, ◌≡◌, refl, ◌≢◌, ap, true, Option, ◌==◌, if◌then◌else◌, none, some, List, [], ◌∷◌}
use tv.Prelude.Bits.{bit_not}
use tv.Prelude.Text.{bytes}
use tv.Prelude.Results.{err}
use tv.Permissions.Crate.{crate}
use tv.Permissions.AllowDeny as Pair
use tv.Permissions.AllowDeny.{permission}
use tv.Permissions.Record.{default}
use tv.Permissions.Checks as Checks
use tv.Api.Transactions.{Attempt, Commit, held, transaction, run, retry_commit}
use tv.Api.EmoteSets.{EmoteSet, InternalEvent}
use tv.Api.EmoteSets.Authority.{check_perms}
use tv.Api.EmoteSets.Edit.{name, touched}
use tv.Api.EmoteSets.Run.{Answer, Doubted, perform, failed, perform-unpublished}
use tv.Api.Errors.{ApiError, internal_server_error}
use tv.Api.Errors.Codes.{ApiErrorCode}
use tv.Api.EmoteSets.Example.{Database, failures}
use tv.Api.EmoteSets.World.{session, set, world, database}

abbrev renamed : EmoteSet
renamed = touched world (record set { name = bytes "mine" })

abbrev later : Database
later = record database { sets = λ k. if 10 == k then some renamed else database.sets k }

abbrev attempt : Database → List (Commit failures) → Attempt failures Database
attempt db commits = record {
  reset = none;
  db = db;
  commits = commits;
  encode = none;
  publish = none;
  abort_transaction = none;
}

abbrev refusal : ℕ → Commit failures
refusal e = record { insert_many = none; commit_transaction = some e; applied = true }

-- A first pass takes effect, although its commit is of unknown result and the next one meets a
-- transient error; the set is gone when the second pass runs.
abbrev attempts : List (Attempt failures Database)
attempts =
    attempt database (refusal 1 ∷ refusal 2 ∷ [])
    ∷ attempt (record database { sets = λ k. none }) []
    ∷ []

abbrev stored_event : List (InternalEvent ℕ) → Option (Database → Database)
stored_event events = none

abbrev gone : ApiError
gone = internal_server_error ApiErrorCode.load_error (bytes "failed to load emote set")

abbrev refused : Answer world stored_event EmoteSet
refused = record { result = err gone; stored = later ∷ []; published = [] }

gone_apart : gone ≢ failed
gone_apart h =
    let code : ApiErrorCode.load_error ≡ ApiErrorCode.transaction_error =
      ap (λ e. e.error_code) h in
    cc

perform-unpublished_example :
    (refused.published ≡ [])
    × Doubted world stored_event attempts (name world set session (bytes "mine")) refused.stored
unfolding perform name check_perms Checks.has Checks.has_emote_set Checks.is_admin default
    Pair.default permission bit_not transaction run retry_commit
perform-unpublished_example =
    perform-unpublished world stored_event held none attempts
      (name world set session (bytes "mine")) refused gone refl refl gone_apart
