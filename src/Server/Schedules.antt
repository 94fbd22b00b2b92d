-- ===== src/Server/Schedules.antt =====
-- packages/server/src/routes.ts: the handlers of the schedule routes.
pub mod Audited
use pgjobq.Base.{ℕ, String, Bool, true, false, Option, none, some, List, [], ◌∷◌, if◌then◌else◌}
use pgjobq.Types.{Job}
use pgjobq.Sql.Schedule.{Schedule}
use pgjobq.Engine.Scheduler.Management.{
  ScheduleTable, NewSchedule, Managed, invalid_cron, name_taken, managed, create, get_schedule,
  list_schedules, set_enabled, delete,
}
use pgjobq.Client.Admin.{Store, Target, audit}
use pgjobq.Server.Reply.{
  ErrorClass, ErrorReply, Raised, domain, unknown_error, error_handler, schedule_not_found,
}
use pgjobq.Server.Access.{Gate, denies, passes}

-- The table of schedules, and the jobs with the log.
pub record Board : Type 0 where
  pub schedules : ScheduleTable
  pub store : Store

pub data ScheduleBody : Type 0 where
  listed : List Schedule → ScheduleBody
  created shown : Schedule → ScheduleBody
  deleted : ScheduleBody

pub data ScheduleCall : Type 0 where
  lists : ScheduleCall
  creates : NewSchedule → ScheduleCall
  shows deletes pauses resumes : ℕ → ScheduleCall

-- The scheduler's settings, the clocks, and the texts of errors.
pub record Planner : Type 0 where
  pub present : Bool
  pub next_occurrence : String → String → ℕ → Option ℕ
  pub before : String → String → Bool
  pub process_now : ℕ
  pub now : ℕ
  pub message : String

-- `requireScheduler` throws a ConflictError.
abbrev pub scheduler_absent : Planner → ErrorReply
unfolding error_handler
scheduler_absent w =
    error_handler
      (domain (record { class = ErrorClass.conflicting; message = w.message; details = none }))

abbrev pub cron_refused : Planner → ErrorReply
unfolding error_handler
cron_refused w =
    error_handler
      (domain (record { class = ErrorClass.validation; message = w.message; details = none }))

-- The violation of the unique name reaches the error handler as the driver's own error.
abbrev pub name_refused : Planner → ErrorReply
unfolding error_handler
name_refused w = error_handler (unknown_error w.message)

abbrev pub missing : Planner → ErrorReply
missing w = record { status = 404; code = schedule_not_found; message = w.message; details = none }

abbrev pub audited : String → String → ℕ → Board → Board
audited actor action id b = record b { store = audit actor action (Target.of_schedule id) b.store }

abbrev pub after_create :
    Planner → String → Board → Managed Schedule × ScheduleTable → Gate ScheduleBody × Board
unfolding error_handler
after_create w actor b (invalid_cron, t) = (denies (cron_refused w), record b { schedules = t })
after_create w actor b (name_taken, t) = (denies (name_refused w), record b { schedules = t })
after_create w actor b (managed s, t) =
    (passes (created s), audited actor "schedule.create" s.id (record b { schedules = t }))

abbrev pub shown_or : Planner → Option Schedule → Gate ScheduleBody
shown_or w none = denies (missing w)
shown_or w (some s) = passes (shown s)

abbrev pub with_rows : Board → List Schedule → Board
with_rows b rows = record b { schedules = record b.schedules { rows = rows } }

abbrev pub with_jobs : Board → List Job → Board
with_jobs b t = record b { store = record b.store { rows = t } }

abbrev pub after_set :
    Planner
    → String
    → String
    → ℕ
    → Board
    → Managed (Option Schedule) × List Schedule
    → Gate ScheduleBody × Board
unfolding error_handler
after_set w actor action id b (invalid_cron, rows) = (denies (cron_refused w), with_rows b rows)
after_set w actor action id b (name_taken, rows) = (denies (name_refused w), with_rows b rows)
after_set w actor action id b (managed none, rows) = (denies (missing w), with_rows b rows)
after_set w actor action id b (managed (some s), rows) =
    (passes (shown s), audited actor action id (with_rows b rows))

abbrev pub after_delete :
    Planner → String → ℕ → Board → Bool × (List Schedule × List Job) → Gate ScheduleBody × Board
after_delete w actor id b (false, (rows, t)) = (denies (missing w), with_jobs (with_rows b rows) t)
after_delete w actor id b (true, (rows, t)) =
    (passes deleted, audited actor "schedule.delete" id (with_jobs (with_rows b rows) t))

-- A handler, where the scheduler is there.
unfoldable pub with_scheduler : Planner → String → ScheduleCall → Board → Gate ScheduleBody × Board
unfolding create get_schedule list_schedules set_enabled delete error_handler
with_scheduler w actor lists b = (passes (listed (list_schedules w.before b.schedules.rows)), b)
with_scheduler w actor (creates p) b =
    after_create w actor b (create w.next_occurrence w.process_now w.now p b.schedules)
with_scheduler w actor (shows id) b = (shown_or w (get_schedule id b.schedules.rows), b)
with_scheduler w actor (pauses id) b =
    after_set w actor "schedule.pause" id b
      (set_enabled w.next_occurrence w.process_now w.now id false b.schedules.rows)
with_scheduler w actor (resumes id) b =
    after_set w actor "schedule.resume" id b
      (set_enabled w.next_occurrence w.process_now w.now id true b.schedules.rows)
with_scheduler w actor (deletes id) b =
    after_delete w actor id b (delete id (b.schedules.rows, b.store.rows))

unfoldable pub handle_schedule : Planner → String → ScheduleCall → Board → Gate ScheduleBody × Board
unfolding with_scheduler error_handler
handle_schedule w actor c b =
    if w.present then with_scheduler w actor c b else (denies (scheduler_absent w), b)
