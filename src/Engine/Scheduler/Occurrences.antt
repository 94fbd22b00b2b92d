-- ===== src/Engine/Scheduler/Occurrences.antt =====
-- Engine.Scheduler: an occurrence, its job and the next run of its schedule.
use pgjobq.Base.{
  ℕ, ◌+◌, ◌≡◌, refl, sym, ◌∙◌, subst, inl, inr, String, Bool, true, ◌&&◌, Option, none, some, List,
  arith, In, In-any, any-In, append-In, Bool-cases, str_eq,
}
use text.Mathlib.TextEquality.{eq_iff}
use pgjobq.Types.{Job}
use pgjobq.Table.{Result, ok, err, check_row, clash, key_eq}
use pgjobq.Sql.Enqueue.{EnqueueRow, Jobs, new_job, insert_job}
use pgjobq.Sql.Enqueue.Insert.{Inserts, refused, kept, added, insert_job-Inserts}
use pgjobq.Sql.Schedule.{Schedule, DueScheduleRow}
use pgjobq.Engine.Scheduler.{
  Planned, Tick, should_fire, occurrence_row, process_row, process_at, inserted_then,
}

module _ (occurrence_key : ℕ → ℕ → String) (row : DueScheduleRow) where
  -- The job of the occurrence.
  abbrev pub is_occurrence : Job → Bool
  is_occurrence j =
      str_eq row.queue j.queue
      && key_eq (some (occurrence_key row.id row.planned_for)) j.idempotency_key

  abbrev the_row : EnqueueRow
  the_row = occurrence_row occurrence_key row

  occurrence-check : (now n : ℕ) → check_row (new_job now n the_row) ≡ true
  unfolding check_row new_job occurrence_row
  occurrence-check now n = refl

  clash-is_occurrence : (now n : ℕ) (j : Job) → clash (new_job now n the_row) j ≡ is_occurrence j
  unfolding clash new_job occurrence_row
  clash-is_occurrence now n j = ground arith

  new_is_occurrence : (now n : ℕ) → is_occurrence (new_job now n the_row) ≡ true
  unfolding new_job occurrence_row
  new_is_occurrence now n = ground (
    arith,
    (eq_iff row.queue row.queue).1 refl,
    (eq_iff (occurrence_key row.id row.planned_for) (occurrence_key row.id row.planned_for)).1 refl,
  )

  -- After the insertion the job is there; if it was there, the rows are as they were.
  occurrence_there :
      (now : ℕ) (s : Jobs) {q : Result (Jobs × Option ℕ)}
      → Inserts now the_row s q
      → (s' : Jobs) (id : Option ℕ) → q ≡ ok (s', id)
      → (j : Job) × In j s'.rows × (is_occurrence j ≡ true)
  occurrence_there now s (refused n) s' id e = cc
  occurrence_there now s (kept _ y) s' id e =
      let (j, m, h) = In-any (clash (new_job now s.next_id the_row)) s.rows y in
      (
        j,
        subst (λ (z : Jobs). In j z.rows) (state_eq e) m,
        sym (clash-is_occurrence now s.next_id j) ∙ h,
      )
    where
      state_eq :
          {a b : Jobs} {x y : Option ℕ}
          → Path (Result (Jobs × Option ℕ)) (ok (a, x)) (ok (b, y))
          → a ≡ b
      state_eq e = cc
  occurrence_there now s (added _ _) s' id e = (
    new_job now s.next_id the_row,
    subst (λ (z : Jobs). In (new_job now s.next_id the_row) z.rows) (state_eq e)
        (append-In s.rows _ _ (inr (inl refl))),
    new_is_occurrence now s.next_id,
  )
    where
      state_eq :
          {a b : Jobs} {x y : Option ℕ}
          → Path (Result (Jobs × Option ℕ)) (ok (a, x)) (ok (b, y))
          → a ≡ b
      state_eq e = cc

  there_rows :
      (now : ℕ) (s : Jobs) (j : Job) {q : Result (Jobs × Option ℕ)}
      → In j s.rows
      → is_occurrence j ≡ true
      → Inserts now the_row s q
      → q ≡ ok (record s { next_id = s.next_id + 1 }, none)
  there_rows now s j m h (refused n) = absurd (cc (occurrence-check now s.next_id, n))
  there_rows now s j m h (kept _ _) = refl
  there_rows now s j m h (added _ f) = absurd (
      cc (
        f,
        any-In (clash (new_job now s.next_id the_row)) s.rows j m
            (clash-is_occurrence now s.next_id j ∙ h),
      ))

  fired :
      (now next : ℕ) (ss : List Schedule) (k k' : Tick) (p' : Planned)
      (q : Result (Jobs × Option ℕ))
      → inserted_then now next row ss k q ≡ ok (p', k')
      → (id : Option ℕ) × (q ≡ ok (p'.jobs, id))
  unfolding inserted_then
  fired now next ss k k' p' (ok (s, id)) e = (id, cc)
  fired now next ss k k' p' (err x) e = cc

  -- With the occurrence's job in the table, the row is processed with no change to the jobs.
  processed_again :
      (client_now now : ℕ) (next : Option ℕ) (q q' : Planned) (k k' : Tick) (j : Job)
      → In j q.jobs.rows
      → is_occurrence j ≡ true
      → process_at occurrence_key client_now now row next q k ≡ ok (q', k')
      → q'.jobs.rows ≡ q.jobs.rows
  unfolding process_at
  processed_again client_now now none q q' k k' j m h e = cc
  processed_again client_now now (some next) q q' k k' j m h e =
      elim (Bool-cases (should_fire row client_now)) [
        | inl y ↦
            let (id, f) =
              fired now next q.schedules k k' q' (insert_job now the_row q.jobs) (rw y at e) in
            let g = there_rows now q.jobs j m h (insert_job-Inserts now the_row q.jobs) in
            rows_eq (sym f ∙ g)
        | inr n ↦ planned_eq (rw n at e)
      ]
    where
      rows_eq :
          {a : Jobs} {x y : Option ℕ} {n : ℕ}
          → Path (Result (Jobs × Option ℕ)) (ok (a, x)) (ok (record q.jobs { next_id = n }, y))
          → a.rows ≡ q.jobs.rows
      rows_eq e = cc

      planned_eq :
          {ss : List Schedule}
          → Path (Result (Planned × Tick)) (ok (record q { schedules = ss }, k)) (ok (q', k'))
          → q'.jobs.rows ≡ q.jobs.rows
      planned_eq e = cc

-- An occurrence becomes one job: once a scheduler has fired it, every other that holds the same
-- row and meets the same jobs, at any time, under any clock and whatever its cron library answers,
-- adds no job.
pub occurrence_once :
    (occurrence_key : ℕ → ℕ → String)
    (next_occurrence later_occurrence : String → String → ℕ → Option ℕ)
    (client_now now client_later later next : ℕ) (row : DueScheduleRow) (p p' q q' : Planned)
    (k k' l l' : Tick)
    → next_occurrence row.cron row.timezone client_now ≡ some next
    → should_fire row client_now ≡ true
    → process_row occurrence_key next_occurrence client_now now row p k ≡ ok (p', k')
    → q.jobs.rows ≡ p'.jobs.rows
    → process_row occurrence_key later_occurrence client_later later row q l ≡ ok (q', l')
    → q'.jobs.rows ≡ q.jobs.rows
unfolding process_row process_at
occurrence_once occurrence_key next_occurrence later_occurrence client_now now client_later later
      next row p p' q q' k k' l l' n f e same e' =
    let (id, g) =
      fired occurrence_key row now next p.schedules k k' p'
        (insert_job now (occurrence_row occurrence_key row) p.jobs) (rw (n, f) at e) in
    let (j, m, h) =
      occurrence_there occurrence_key row now p.jobs
        (insert_job-Inserts now (occurrence_row occurrence_key row) p.jobs) p'.jobs id g in
    processed_again occurrence_key row client_later later
      (later_occurrence row.cron row.timezone client_later) q q' l l' j (subst (In j) (sym same) m)
      h e'
