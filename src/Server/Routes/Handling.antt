-- ===== src/Server/Routes/Handling.antt =====
-- Server.Routes: what the handlers add to the audit log, and those that change nothing.
use pgjobq.Base.{
  ◌≡◌, refl, ap, ◌∙◌, subst, ◌⊎◌, inl, inr, String, Bool, true, false, Option, List, In, Bool-cases,
  and_left, any,
}
use pgjobq.Types.{QueueConfig}
use pgjobq.Client.{Answer, returns, throws}
use pgjobq.Client.Build.{Cached}
use pgjobq.Client.Admin.{Audit, Store, cancel, retry_now, replay, replay_many, purge, set_paused}
use pgjobq.Client.Admin.Audited.{
  AuditsBy, cancel-AuditsBy, retry_now-AuditsBy, replay-AuditsBy, replay_many-AuditsBy,
  purge-AuditsBy, set_paused-AuditsBy,
}
use pgjobq.Server.Auth.{Scope, scope_eq, ApiKeyRecord, authorizes}
use pgjobq.Server.Access.{Gate, denies, passes}
use pgjobq.Server.Schedules.{Board, ScheduleBody, ScheduleCall, handle_schedule}
use pgjobq.Server.Schedules.Audited.{handle_schedule-AuditsBy, only_reads, handle_schedule-reads}
use pgjobq.Server.Calls.{schedule_scope, scope_for, Call}
use pgjobq.Server.Routes.{Surroundings, Site, Reply, handle, actor_of, after_pause, after_schedule}

after_pause-store :
    (w : Surroundings) (s : Site) (q : String) (p : Bool)
    (out : Answer (List QueueConfig × List Cached) × Store)
    → (after_pause w s q p out).1.store ≡ out.1
unfolding after_pause
after_pause-store w s q p (returns x, store) = refl
after_pause-store w s q p (throws e, store) = refl

-- What a handler adds to the audit log is of the key's actor, and the call is for `admin`.
abbrev pub AddsAs : ApiKeyRecord → Call → Site → Reply × Site → Type 0
AddsAs k c s out =
    (a : Audit)
    → In a out.1.store.audits
    → In a s.store.audits ⊎ ((scope_for c ≡ Scope.admin) × (a.actor ≡ actor_of k))

as_admin :
    (k : ApiKeyRecord) (c : Call) (s : Site) (t : Store)
    → scope_for c ≡ Scope.admin
    → AuditsBy (actor_of k) s.store t
    → (a : Audit) → In a t.audits
    → In a s.store.audits ⊎ ((scope_for c ≡ Scope.admin) × (a.actor ≡ actor_of k))
as_admin k c s t e by a m = elim (by a m) [ inl o ↦ inl o | inr f ↦ inr (e, f) ]

after_schedule-store :
    (s : Site) (out : Gate ScheduleBody × Board) → (after_schedule s out).1.store ≡ out.1.store
after_schedule-store s (denies e, b) = refl
after_schedule-store s (passes r, b) = refl

after_schedule-board :
    (s : Site) (out : Gate ScheduleBody × Board)
    → (after_schedule s out).1 ≡ record s { schedules = out.1.schedules; store = out.1.store }
after_schedule-board s (denies e, b) = refl
after_schedule-board s (passes r, b) = refl

schedule_admin :
    (c : ScheduleCall) → only_reads c ≡ false → scope_for (Call.schedules c) ≡ Scope.admin
unfolding scope_for
schedule_admin ScheduleCall.lists h = cc
schedule_admin (ScheduleCall.shows id) h = cc
schedule_admin (ScheduleCall.creates p) h = refl
schedule_admin (ScheduleCall.pauses id) h = refl
schedule_admin (ScheduleCall.resumes id) h = refl
schedule_admin (ScheduleCall.deletes id) h = refl

-- The log and the schedules, as the handlers of schedules see them.
abbrev board : Site → Board
board s = record { schedules = s.schedules; store = s.store }

schedule-AddsAs :
    (w : Surroundings) (k : ApiKeyRecord) (c : ScheduleCall) (s : Site)
    → AddsAs k (Call.schedules c) s (handle w k (Call.schedules c) s)
unfolding handle
schedule-AddsAs w k c s =
    let out = handle_schedule w.planner (actor_of k) c (board s) in
    let by = handle_schedule-AuditsBy w.planner (actor_of k) c (board s) in
    elim (Bool-cases (only_reads c)) [
      | inr n ↦
          rw (after_schedule-store s out)
            (as_admin k (Call.schedules c) s out.1.store (schedule_admin c n) by)
      | inl y ↦ λ a m. inl (
          subst (λ (t : Store). In a t.audits)
            (after_schedule-store s out
              ∙ ap (λ (b : Board). b.store)
                  (handle_schedule-reads w.planner (actor_of k) c (board s) y))
            m)
    ]

schedule_reads :
    (w : Surroundings) (k : ApiKeyRecord) (c : ScheduleCall) (s : Site)
    → any (λ x. scope_eq x (schedule_scope c)) k.scopes ≡ true
    → any (λ x. scope_eq x Scope.admin) k.scopes ≡ false
    → (handle w k (Call.schedules c) s).1 ≡ s
unfolding handle scope_for
schedule_reads w k c s h n = elim (Bool-cases (only_reads c)) [
  | inl y ↦
      after_schedule-board s (handle_schedule w.planner (actor_of k) c (board s))
      ∙ ap (λ (b : Board). record s { schedules = b.schedules; store = b.store })
          (handle_schedule-reads w.planner (actor_of k) c (board s) y)
  | inr m ↦
      let e : schedule_scope c ≡ Scope.admin = schedule_admin c m in
      let yes : any (λ x. scope_eq x Scope.admin) k.scopes ≡ true = rw e at h in
      absurd (cc (n, yes))
]

pub handle-AddsAs :
    (w : Surroundings) (k : ApiKeyRecord) (c : Call) (s : Site) → AddsAs k c s (handle w k c s)
unfolding handle scope_for
handle-AddsAs w k (Call.enqueues q y p o) s = λ a m. inl m
handle-AddsAs w k (Call.enqueues_batch q items) s = λ a m. inl m
handle-AddsAs w k (Call.schedules c) s = schedule-AddsAs w k c s
handle-AddsAs w k (Call.reads_job id) s = λ a m. inl m
handle-AddsAs w k Call.reads_queues s = λ a m. inl m
handle-AddsAs w k (Call.lists_jobs q p) s = λ a m. inl m
handle-AddsAs w k (Call.reads_config q) s = λ a m. inl m
handle-AddsAs w k (Call.lists_dead p) s = λ a m. inl m
handle-AddsAs w k (Call.cancels id) s =
    as_admin k (Call.cancels id) s (cancel w.elsewhere id (actor_of k) s.store).1 refl
      (cancel-AuditsBy w.elsewhere id (actor_of k) s.store)
handle-AddsAs w k (Call.retries id) s =
    as_admin k (Call.retries id) s (retry_now w.elsewhere id (actor_of k) s.store).1 refl
      (retry_now-AuditsBy w.elsewhere id (actor_of k) s.store)
handle-AddsAs w k (Call.replays id) s =
    as_admin k (Call.replays id) s (replay w.elsewhere id (actor_of k) s.store).1 refl
      (replay-AuditsBy w.elsewhere id (actor_of k) s.store)
handle-AddsAs w k (Call.pauses q) s =
    let out = set_paused q true (actor_of k) (s.configs, s.cache) s.store in
    rw (after_pause-store w s q true out) (
      as_admin k (Call.pauses q) s out.1 refl
        (set_paused-AuditsBy q true (actor_of k) (s.configs, s.cache) s.store))
handle-AddsAs w k (Call.resumes q) s =
    let out = set_paused q false (actor_of k) (s.configs, s.cache) s.store in
    rw (after_pause-store w s q false out) (
      as_admin k (Call.resumes q) s out.1 refl
        (set_paused-AuditsBy q false (actor_of k) (s.configs, s.cache) s.store))
handle-AddsAs w k (Call.purges q states confirm) s =
    as_admin k (Call.purges q states confirm) s
      (purge w.locked q states confirm 1000 1000 (actor_of k) s.store).1 refl
      (purge-AuditsBy w.locked q states confirm 1000 1000 (actor_of k) s.store)
handle-AddsAs w k (Call.replays_many ids) s =
    as_admin k (Call.replays_many ids) s (replay_many w.now ids (actor_of k) s.store).1 refl
      (replay_many-AuditsBy w.now ids (actor_of k) s.store)

pub has_scope :
    (k : ApiKeyRecord) (scope : Scope) (q : Option String)
    → authorizes k scope q ≡ true
    → any (λ x. scope_eq x scope) k.scopes ≡ true
unfolding authorizes
has_scope k scope q h = and_left _ _ h

-- A call changes nothing, or needs one of two scopes.
pub reads_only :
    (w : Surroundings) (k : ApiKeyRecord) (c : Call) (s : Site)
    → any (λ x. scope_eq x (scope_for c)) k.scopes ≡ true
    → any (λ x. scope_eq x Scope.admin) k.scopes ≡ false
    → any (λ x. scope_eq x Scope.enqueue) k.scopes ≡ false
    → (handle w k c s).1 ≡ s
unfolding handle scope_for
reads_only w k (Call.reads_job id) s h n o = refl
reads_only w k Call.reads_queues s h n o = refl
reads_only w k (Call.lists_jobs q p) s h n o = refl
reads_only w k (Call.reads_config q) s h n o = refl
reads_only w k (Call.lists_dead p) s h n o = refl
reads_only w k (Call.enqueues_batch q items) s h n o = cc
reads_only w k (Call.schedules c) s h n o = schedule_reads w k c s h n
reads_only w k (Call.enqueues q y p p') s h n o = cc
reads_only w k (Call.cancels id) s h n o = cc
reads_only w k (Call.retries id) s h n o = cc
reads_only w k (Call.replays id) s h n o = cc
reads_only w k (Call.pauses q) s h n o = cc
reads_only w k (Call.resumes q) s h n o = cc
reads_only w k (Call.purges q states confirm) s h n o = cc
reads_only w k (Call.replays_many ids) s h n o = cc
