-- ===== src/Engine/Scheduler/Progress.antt =====
-- Engine.Scheduler: the schedules that are due, through a tick.
use pgjobq.Base.{
  ℕ, ◌+◌, ◌<◌, ◌≡◌, refl, sym, ap, subst, inl, inr, String, Option, none, some, List, arith, In,
  Bool-cases, ◌==◌, ==_iff,
}
use pgjobq.Table.{Result, ok, err}
use pgjobq.Sql.Enqueue.{Jobs, insert_job}
use pgjobq.Sql.Schedule.{Schedule, DueScheduleRow, advanced_to, advance_schedule}
use pgjobq.Sql.Schedule.Rows.{In-set_where}
use pgjobq.Engine.Scheduler.{
  Planned, Tick, should_fire, occurrence_row, process_row, process_at, inserted_then,
}

-- The schedules with the id of the row are past the time.
abbrev pub IsPast : ℕ → ℕ → List Schedule → Type 0
IsPast time id ss = (s : Schedule) → In s ss → s.id ≡ id → time < s.next_run_at

advanced-IsPast :
    (now id next time : ℕ) (last : Option ℕ) (ss : List Schedule)
    → time < next
    → IsPast time id (advance_schedule now id next last ss)
unfolding advance_schedule advanced_to
advanced-IsPast now id next time last ss lt s m e =
    elim (In-set_where (λ x. x.id == id) (advanced_to now next last) ss s m) [
      | inl (_, n) ↦ absurd (cc (n, (==_iff s.id id).1 e))
      | inr (a, _, q) ↦ subst (λ n. time < n) (sym (ap (λ (x : Schedule). x.next_run_at) q)) lt
    ]

inserted-IsPast :
    (now next time : ℕ) (row : DueScheduleRow) (ss : List Schedule) (k k' : Tick) (p' : Planned)
    (q : Result (Jobs × Option ℕ))
    → time < next
    → inserted_then now next row ss k q ≡ ok (p', k')
    → IsPast time row.id p'.schedules
unfolding inserted_then
inserted-IsPast now next time row ss k k' p' (ok (s, id)) lt e =
    subst (IsPast time row.id) (schedules_eq e) (advanced-IsPast now row.id next time id ss lt)
  where
    schedules_eq :
        {a b : Planned} {x y : Tick}
        → Path (Result (Planned × Tick)) (ok (a, x)) (ok (b, y))
        → a.schedules ≡ b.schedules
    schedules_eq e = cc
inserted-IsPast now next time row ss k k' p' (err x) lt e = cc

processed-IsPast :
    (occurrence_key : ℕ → ℕ → String) (client_now now : ℕ) (row : DueScheduleRow) (next : Option ℕ)
    (p p' : Planned) (k k' : Tick)
    → ((n : ℕ) → next ≡ some n → client_now < n)
    → process_at occurrence_key client_now now row next p k ≡ ok (p', k')
    → IsPast client_now row.id p'.schedules
unfolding process_at
processed-IsPast occurrence_key client_now now row none p p' k k' later e =
    subst (IsPast client_now row.id) (schedules_eq e)
      (advanced-IsPast now row.id (client_now + 3600000) client_now none p.schedules (omega arith))
  where
    schedules_eq :
        {a b : Planned} {x y : Tick}
        → Path (Result (Planned × Tick)) (ok (a, x)) (ok (b, y))
        → a.schedules ≡ b.schedules
    schedules_eq e = cc
processed-IsPast occurrence_key client_now now row (some next) p p' k k' later e =
    elim (Bool-cases (should_fire row client_now)) [
      | inl y ↦
          inserted-IsPast now next client_now row p.schedules k k' p'
            (insert_job now (occurrence_row occurrence_key row) p.jobs) (later next refl)
            (rw y at e)
      | inr n ↦
          subst (IsPast client_now row.id) (schedules_eq (rw n at e))
            (advanced-IsPast now row.id next client_now none p.schedules (later next refl))
    ]
  where
    schedules_eq :
        {a b : Planned} {x y : Tick}
        → Path (Result (Planned × Tick)) (ok (a, x)) (ok (b, y))
        → a.schedules ≡ b.schedules
    schedules_eq e = cc

-- If the cron library answers with times that are later than the one it is asked from, then processing a
-- due row leaves its schedule with a next run later than the process's clock, whether the occurrence
-- fired, was skipped as stale, was a duplicate, or the expression has become invalid.
pub process_row_advances :
    (occurrence_key : ℕ → ℕ → String) (next_occurrence : String → String → ℕ → Option ℕ)
    (client_now now : ℕ) (row : DueScheduleRow) (p p' : Planned) (k k' : Tick) (s : Schedule)
    → ((cron timezone : String) (from n : ℕ)
        → next_occurrence cron timezone from ≡ some n
        → from < n)
    → process_row occurrence_key next_occurrence client_now now row p k ≡ ok (p', k')
    → In s p'.schedules
    → s.id ≡ row.id
    → client_now < s.next_run_at
unfolding process_row
process_row_advances occurrence_key next_occurrence client_now now row p p' k k' s later e m i =
    processed-IsPast occurrence_key client_now now row
      (next_occurrence row.cron row.timezone client_now) p p' k k'
      (λ n h. later row.cron row.timezone client_now n h) e s m i
