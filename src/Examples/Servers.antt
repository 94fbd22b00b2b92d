-- ===== src/Examples/Servers.antt =====
-- The server at concrete tables, keys and requests.

use pgjobq.Base.{
  ◌+◌, ℕ, ◌≡◌, refl, inl, ◌⊎◌, String, true, false, none, some, List, [], ◌∷◌, not, ◌==◌, arith,
  any, where_, In, order_by, insert_by,
}
use pgjobq.Base.Text.{starts_with, slice_from, trim, trim_start, trim_end, is_space}
use pgjobq.Types.{Job}
use pgjobq.Client.Build.{default_settings}
use pgjobq.Client.Enqueue.Dedup.{alone}
use pgjobq.Client.Admin.{Audit, of_queue, set_paused}
use pgjobq.Client.Admin.Cancel.{undisturbed}
use pgjobq.Sql.Listing.{ListJobsParams, listed}
use pgjobq.Server.Auth.{
  Scope, scope_eq, ApiKeyRow, ApiKeyRecord, KeyTable, find_key, admit, record_of, scopes_of,
  scope_of, authenticate, authorizes, revoke,
}
use pgjobq.Server.Auth.Keys.{KeyOp, run_keys, revoked_for_good}
use pgjobq.Server.Access.{require_auth, require_scope}
use pgjobq.Client.Names.{valid_name, name_chars, is_name_char}
use pgjobq.Server.Reply.{domain, database, error_handler, class_reply, status_by_code, class_code}
use pgjobq.Server.Reply.Hiding.{error_handler_hides}
use pgjobq.Server.Calls.{Call, scope_for, queue_from, valid_call}
use pgjobq.Server.Routes.{Surroundings, Site, Request, serve, route, actor_of, validate, handle}
use pgjobq.Server.Routes.Guarding.{Presents, serve_audited}
use pgjobq.Server.Routes.ById.{by_id_ignores_queues}
use pgjobq.Server.Routes.Paging.{walk, whole, walk-whole}
use pgjobq.Server.Schedules.{Planner}
use pgjobq.Server.Events.{Written, start}
use pgjobq.Server.Events.Capped.{StreamEvent, run_stream, IsCapped, run_stream-IsCapped}
use pgjobq.Examples.{waiting, finished}

-- A hash that anyone can invert.
abbrev hash : String → String
hash key = key

abbrev operator_row : ApiKeyRow
operator_row = record {
  id = 1;
  name = "ops";
  key_hash = "pgjq_abc";
  key_prefix = "pgjq_a";
  scopes = "admin" ∷ [];
  queues = none;
  expires_at = none;
  revoked_at = none;
  last_used_at = none;
}

abbrev operator : ApiKeyRecord
operator = record { id = 1; name = "ops"; scopes = Scope.admin ∷ []; queues = none }

abbrev one_key : KeyTable
one_key = record { rows = operator_row ∷ []; next_id = 2 }

revoked_for_good_example :
    authenticate hash 90 "pgjq_abc"
      (run_keys hash
        (KeyOp.bootstraps "pgjq_abc" ∷ KeyOp.touches 80 1 ∷ [])
        (revoke 50 1 one_key).0).rows
    ≡ none
unfolding authenticate find_key admit record_of scopes_of scope_of starts_with
revoked_for_good_example =
    revoked_for_good hash one_key "pgjq_abc" operator 10 50 90
      (KeyOp.bootstraps "pgjq_abc" ∷ KeyOp.touches 80 1 ∷ []) refl

error_handler_hides_example :
    error_handler (domain (record { class = database; message = "at 10.0.0.7"; details = none }))
    ≡ error_handler (domain (record { class = database; message = ""; details = some "host" }))
unfolding error_handler class_reply status_by_code class_code
error_handler_hides_example =
    error_handler_hides
      (domain (record { class = database; message = "at 10.0.0.7"; details = none }))
      (domain (record { class = database; message = ""; details = some "host" })) refl (omega arith)

abbrev planner : Planner
planner = record {
  present = true;
  next_occurrence = λ cron timezone from. some (from + 60000);
  before = λ a b. true;
  process_now = 5;
  now = 5;
  message = "refused";
}

abbrev around : Surroundings
around = record {
  elsewhere = undisturbed 5;
  others = alone;
  locked = λ n id. false;
  tables = λ n. [];
  planner = planner;
  now = 5;
  client_now = 5;
  defaults = default_settings;
  message = λ e. "refused";
  details = λ e. none;
  problems = λ c. "[]";
  lacks = λ s q. "lacks the scope";
  within_rate = λ id. true;
}

abbrev site : Site
site = record {
  store = record { rows = waiting ∷ []; audits = [] };
  next_id = 2;
  configs = [];
  cache = [];
  schedules = record { rows = []; next_id = 1 };
}

abbrev cancels_one : Request
cancels_one = record { authorization = some "Bearer pgjq_abc"; call = Call.cancels 1 }

abbrev pauses_mail : Request
pauses_mail = record { authorization = some "Bearer pgjq_abc"; call = Call.pauses "mail" }

abbrev pause_entry : Audit
pause_entry = record { actor = "key:ops"; action = "queue.pause"; target = of_queue "mail" }

serve_audited_example :
    In pause_entry site.store.audits
    ⊎ ((k : ApiKeyRecord) × Presents hash one_key.rows around pauses_mail k
        × (any (λ x. scope_eq x Scope.admin) k.scopes ≡ true)
        × (pause_entry.actor ≡ actor_of k))
unfolding serve authenticate find_key admit record_of scopes_of scope_of starts_with trim trim_start
    trim_end slice_from is_space any require_auth route require_scope authorizes scope_for
    queue_from validate valid_call valid_name name_chars is_name_char handle set_paused
serve_audited_example =
    serve_audited hash one_key.rows around pauses_mail site pause_entry (inl refl)

by_id_ignores_queues_example :
    route around (Call.cancels 1) site (record operator { queues = some ("other" ∷ []) })
    ≡ route around (Call.cancels 1) site operator
by_id_ignores_queues_example =
    by_id_ignores_queues around (Call.cancels 1) site operator (some ("other" ∷ [])) refl

-- Pages of one job each.
abbrev one_by_one : ListJobsParams
one_by_one = record {
  queue = some "mail";
  state = none;
  type = none;
  from = none;
  to = none;
  before_id = none;
  limit = 1;
}

abbrev two_jobs : List Job
two_jobs = waiting ∷ record finished { id = 2 } ∷ []

walk-whole_example : walk 3 one_by_one two_jobs ≡ whole one_by_one two_jobs
unfolding where_ listed order_by insert_by
walk-whole_example =
    walk-whole 3 one_by_one two_jobs (λ k m e. ground (arith, m), (λ k m. absurd m, tt))
      (omega arith) (omega arith) (omega arith)

-- Two clients come to a stream for two, a third is turned away, and the first reads too slowly.
abbrev slow_first : ℕ → Written
slow_first id = record { taken = not (id == 1); waiting = 2000000 }

abbrev visits : List StreamEvent
visits =
    StreamEvent.subscribes
    ∷ StreamEvent.subscribes
    ∷ StreamEvent.subscribes
    ∷ StreamEvent.publishes slow_first
    ∷ StreamEvent.beats
    ∷ []

start-IsCapped : IsCapped (start 2)
unfolding start
start-IsCapped = record {
  capped = omega arith;
  apart = tt;
  fresh = λ i m. absurd m;
  kept_alive = inl refl;
}

run_stream-IsCapped_example : IsCapped (run_stream visits (start 2))
run_stream-IsCapped_example = run_stream-IsCapped visits (start 2) start-IsCapped
