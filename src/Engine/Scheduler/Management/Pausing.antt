-- ===== src/Engine/Scheduler/Management/Pausing.antt =====
-- Engine.Scheduler.Management: what a schedule does after it was paused or resumed.
use pgjobq.Base.{
  ℕ, ◌<◌, ◌≡◌, refl, sym, ap, ◌∙◌, subst, inl, inr, String, Bool, true, false, not, Option, none,
  some, List, arith, ◌==◌, ==_iff, where_, In, In-where, In-map, In-any, In-take, In-order_by,
  and_left, Option-cases,
}
use pgjobq.Sql.Schedule.{
  Schedule, DueScheduleRow, due, due_schedules, due_row, claim_due_schedules, set_schedule_enabled,
  enabled_to, time_or,
}
use pgjobq.Sql.Schedule.Rows.{In-set_where}
use pgjobq.Engine.Scheduler.Management.{managed, get_schedule, set_enabled}

-- Each row of the id has this flag and, if a time was set, that time.
abbrev IsAdjusted : ℕ → Bool → Option ℕ → List Schedule → Type 0
IsAdjusted id enabled next ss =
    (k : Schedule)
    → In k ss
    → k.id ≡ id
    → (k.enabled ≡ enabled) × (time_or next k.next_run_at ≡ k.next_run_at)

time_or_twice : (next : Option ℕ) (t : ℕ) → time_or next (time_or next t) ≡ time_or next t
time_or_twice none t = refl
time_or_twice (some n) t = refl

set-IsAdjusted :
    (now id : ℕ) (enabled : Bool) (next : Option ℕ) (ss : List Schedule)
    → IsAdjusted id enabled next (set_schedule_enabled now id enabled next ss)
unfolding set_schedule_enabled
set-IsAdjusted now id enabled next ss k m e =
    elim (In-set_where (λ s. s.id == id) (enabled_to now enabled next) ss k m) [
      | inl (_, n) ↦ absurd (cc (n, (==_iff k.id id).1 e))
      | inr (a, _, q) ↦
          (ap (λ (x : Schedule). x.enabled) q, rw q (time_or_twice next a.next_run_at))
    ]

-- A row that a claim returns, and the due schedule with its id.
claimed-due :
    (now limit : ℕ) (locked : ℕ → Bool) (ss : List Schedule) (row : DueScheduleRow)
    → In row (claim_due_schedules now locked limit ss).1
    → (s : Schedule) × (d : Schedule) × In s ss
      × In d ss
      × (row ≡ due_row s)
      × (d.id ≡ s.id)
      × (d.enabled ≡ true)
unfolding claim_due_schedules due_schedules due
claimed-due now limit locked ss row m =
    let (s, chosen, e) = In-map due_row _ row m in
    let (there, hit) = In-where _ ss s chosen in
    let (d, picked, same) = In-any _ _ hit in
    let (ordered, _) = In-where (λ x. not (locked x.id)) _ d (In-take limit _ d picked) in
    let (here, y) = In-where (due now) ss d (In-order_by _ (where_ (due now) ss) d ordered) in
    (s, d, there, here, e, (==_iff d.id s.id).0 same, and_left d.enabled _ y)

-- What a claim takes of the id after its rows were set.
set_claimed :
    (id now limit : ℕ) (enabled : Bool) (next : Option ℕ) (locked : ℕ → Bool) (ss : List Schedule)
    (row : DueScheduleRow)
    → IsAdjusted id enabled next ss
    → In row (claim_due_schedules now locked limit ss).1
    → row.id ≡ id
    → (enabled ≡ true) × (time_or next row.planned_for ≡ row.planned_for)
unfolding due_row
set_claimed id now limit enabled next locked ss row set m e =
    let (s, d, there, here, same, ids, y) = claimed-due now limit locked ss row m in
    let of_id : s.id ≡ id = sym (ap (λ (r : DueScheduleRow). r.id) same) ∙ e in
    (sym (set d here (ids ∙ of_id)).0 ∙ y, rw same (set s there of_id).1)

module _ (next_occurrence : String → String → ℕ → Option ℕ) where
  paused-IsAdjusted :
      (process_now now id : ℕ) (ss ss' : List Schedule) (s : Schedule)
      → set_enabled next_occurrence process_now now id false ss ≡ (managed (some s), ss')
      → IsAdjusted id false none ss'
  unfolding set_enabled
  paused-IsAdjusted process_now now id ss ss' s h = elim (Option-cases (get_schedule id ss)) [
    | inl n ↦ absurd (ground (arith, n, h))
    | inr (k, e) ↦
        let rows : set_schedule_enabled now id false none ss ≡ ss' = ap (λ x. x.1) (rw e at h) in
        subst (IsAdjusted id false none) rows (set-IsAdjusted now id false none ss)
  ]

  resumed-IsAdjusted :
      (process_now now id : ℕ) (ss ss' : List Schedule) (s : Schedule)
      → set_enabled next_occurrence process_now now id true ss ≡ (managed (some s), ss')
      → ((cron timezone : String) (from n : ℕ)
          → next_occurrence cron timezone from ≡ some n
          → from < n)
      → (n : ℕ) × (process_now < n) × IsAdjusted id true (some n) ss'
  unfolding set_enabled
  resumed-IsAdjusted process_now now id ss ss' s h later =
      elim (Option-cases (get_schedule id ss)) [
        | inl n ↦ absurd (ground (arith, n, h))
        | inr (k, e) ↦ elim (Option-cases (next_occurrence k.cron k.timezone process_now)) [
          | inl n ↦ absurd (ground (arith, e, n, h))
          | inr (n, f) ↦
              let rows : set_schedule_enabled now id true (some n) ss ≡ ss' =
                ap (λ x. x.1) (rw (e, f) at h) in
              (
                n,
                later k.cron k.timezone process_now n f,
                subst (IsAdjusted id true (some n)) rows (set-IsAdjusted now id true (some n) ss),
              )
        ]
      ]

  -- After a schedule was paused, no claim of due schedules returns it, at whatever time. After it was
  -- resumed, every occurrence of it that a claim returns is planned for a time after that of the
  -- resumption, so that nothing is made up for that was missed in between; provided that the cron
  -- library's next occurrence is after the time asked for.
  pub set_enabled_fires :
      (process_now now id : ℕ) (enabled : Bool) (ss ss' : List Schedule) (s : Schedule)
      (later limit : ℕ) (locked : ℕ → Bool) (row : DueScheduleRow)
      → set_enabled next_occurrence process_now now id enabled ss ≡ (managed (some s), ss')
      → ((cron timezone : String) (from n : ℕ)
          → next_occurrence cron timezone from ≡ some n
          → from < n)
      → In row (claim_due_schedules later locked limit ss').1
      → row.id ≡ id
      → (enabled ≡ true) × (process_now < row.planned_for)
  set_enabled_fires process_now now id false ss ss' s later limit locked row h law m e =
      let set = paused-IsAdjusted process_now now id ss ss' s h in
      absurd (cc ((set_claimed id later limit false none locked ss' row set m e).0))
  set_enabled_fires process_now now id true ss ss' s later limit locked row h law m e =
      let (n, after, set) = resumed-IsAdjusted process_now now id ss ss' s h law in
      let (_, same) = set_claimed id later limit true (some n) locked ss' row set m e in
      (refl, subst (λ x. process_now < x) same after)
