-- ===== src/Server/Schedules/Audited.antt =====
-- Server.Schedules: the entries that a call adds to the audit log, and the calls that change nothing.
use pgjobq.Base.{
  ℕ, ◌≡◌, refl, inl, inr, String, Bool, true, false, Option, none, some, List, Bool-cases,
}
use pgjobq.Types.{Job}
use pgjobq.Sql.Schedule.{Schedule}
use pgjobq.Engine.Scheduler.Management.{
  ScheduleTable, Managed, invalid_cron, name_taken, managed, create, set_enabled, delete,
}
use pgjobq.Client.Admin.{Target}
use pgjobq.Client.Admin.Audited.{AuditsBy, audit-AuditsBy}
use pgjobq.Server.Schedules.{
  Board, Planner, ScheduleCall, lists, creates, shows, deletes, pauses, resumes, after_create,
  after_set, after_delete, with_scheduler, handle_schedule,
}

after_create-AuditsBy :
    (w : Planner) (actor : String) (b : Board) (out : Managed Schedule × ScheduleTable)
    → AuditsBy actor b.store (after_create w actor b out).1.store
unfolding after_create
after_create-AuditsBy w actor b (invalid_cron, t) = λ a m. inl m
after_create-AuditsBy w actor b (name_taken, t) = λ a m. inl m
after_create-AuditsBy w actor b (managed s, t) =
    audit-AuditsBy actor "schedule.create" (Target.of_schedule s.id) b.store.rows b.store

after_set-AuditsBy :
    (w : Planner) (actor action : String) (id : ℕ) (b : Board)
    (out : Managed (Option Schedule) × List Schedule)
    → AuditsBy actor b.store (after_set w actor action id b out).1.store
unfolding after_set
after_set-AuditsBy w actor action id b (invalid_cron, rows) = λ a m. inl m
after_set-AuditsBy w actor action id b (name_taken, rows) = λ a m. inl m
after_set-AuditsBy w actor action id b (managed none, rows) = λ a m. inl m
after_set-AuditsBy w actor action id b (managed (some s), rows) =
    audit-AuditsBy actor action (Target.of_schedule id) b.store.rows b.store

after_delete-AuditsBy :
    (w : Planner) (actor : String) (id : ℕ) (b : Board) (out : Bool × (List Schedule × List Job))
    → AuditsBy actor b.store (after_delete w actor id b out).1.store
after_delete-AuditsBy w actor id b (false, (rows, t)) = λ a m. inl m
after_delete-AuditsBy w actor id b (true, (rows, t)) =
    audit-AuditsBy actor "schedule.delete" (Target.of_schedule id) t b.store

with_scheduler-AuditsBy :
    (w : Planner) (actor : String) (c : ScheduleCall) (b : Board)
    → AuditsBy actor b.store (with_scheduler w actor c b).1.store
unfolding with_scheduler
with_scheduler-AuditsBy w actor lists b = λ a m. inl m
with_scheduler-AuditsBy w actor (shows id) b = λ a m. inl m
with_scheduler-AuditsBy w actor (creates p) b =
    after_create-AuditsBy w actor b (create w.next_occurrence w.process_now w.now p b.schedules)
with_scheduler-AuditsBy w actor (pauses id) b =
    after_set-AuditsBy w actor "schedule.pause" id b
      (set_enabled w.next_occurrence w.process_now w.now id false b.schedules.rows)
with_scheduler-AuditsBy w actor (resumes id) b =
    after_set-AuditsBy w actor "schedule.resume" id b
      (set_enabled w.next_occurrence w.process_now w.now id true b.schedules.rows)
with_scheduler-AuditsBy w actor (deletes id) b =
    after_delete-AuditsBy w actor id b (delete id (b.schedules.rows, b.store.rows))

pub handle_schedule-AuditsBy :
    (w : Planner) (actor : String) (c : ScheduleCall) (b : Board)
    → AuditsBy actor b.store (handle_schedule w actor c b).1.store
unfolding handle_schedule
handle_schedule-AuditsBy w actor c b = elim (Bool-cases w.present) [
  | inl y ↦ rw y (with_scheduler-AuditsBy w actor c b)
  | inr n ↦ rw n (λ a m. inl m)
]

-- The calls that only read.
abbrev pub only_reads : ScheduleCall → Bool
only_reads lists = true
only_reads (shows id) = true
only_reads _ = false

with_scheduler-reads :
    (w : Planner) (actor : String) (c : ScheduleCall) (b : Board)
    → only_reads c ≡ true
    → (with_scheduler w actor c b).1 ≡ b
unfolding with_scheduler
with_scheduler-reads w actor lists b h = refl
with_scheduler-reads w actor (shows id) b h = refl
with_scheduler-reads w actor _ b h = cc

pub handle_schedule-reads :
    (w : Planner) (actor : String) (c : ScheduleCall) (b : Board)
    → only_reads c ≡ true
    → (handle_schedule w actor c b).1 ≡ b
unfolding handle_schedule
handle_schedule-reads w actor c b h = elim (Bool-cases w.present) [
  | inl y ↦ rw y (with_scheduler-reads w actor c b h)
  | inr n ↦ rw n refl
]
