-- ===== src/Server/Routes/ById.antt =====
-- Server.Routes: the calls that name a job or a schedule, and no queue.
use pgjobq.Base.{
  ◌≡◌, refl, sym, ◌∙◌, arith, if◌then◌else◌, String, Bool, true, false, Option, none, List,
}
use pgjobq.Server.Auth.{ApiKeyRecord, authorizes}
use pgjobq.Server.Access.{require_scope, lacks_scope}
use pgjobq.Server.Schedules.{ScheduleCall}
use pgjobq.Server.Calls.{schedule_queue, valid_call, Call, scope_for, queue_from}
use pgjobq.Server.Routes.{failure, invalid_request, Surroundings, Site, route, handle, validate}

abbrev pub by_schedule_id : ScheduleCall → Bool
by_schedule_id (ScheduleCall.shows id) = true
by_schedule_id (ScheduleCall.pauses id) = true
by_schedule_id (ScheduleCall.resumes id) = true
by_schedule_id (ScheduleCall.deletes id) = true
by_schedule_id _ = false

-- A schedule call that names an id names no queue.
no_schedule_queue : (c : ScheduleCall) → by_schedule_id c ≡ true → schedule_queue c ≡ none
no_schedule_queue ScheduleCall.lists h = refl
no_schedule_queue (ScheduleCall.shows id) h = refl
no_schedule_queue (ScheduleCall.pauses id) h = refl
no_schedule_queue (ScheduleCall.resumes id) h = refl
no_schedule_queue (ScheduleCall.deletes id) h = refl
no_schedule_queue (ScheduleCall.creates p) h = cc

abbrev pub by_id : Call → Bool
by_id (Call.cancels id) = true
by_id (Call.retries id) = true
by_id (Call.replays id) = true
by_id (Call.replays_many ids) = true
by_id (Call.schedules c) = by_schedule_id c
by_id _ = false

-- A route as two tests and a handler.
route-eq :
    (w : Surroundings) (c : Call) (s : Site) (k : ApiKeyRecord)
    → route w c s k ≡ (
        if authorizes k (scope_for c) (queue_from c)
        then (if valid_call c
            then handle w k c s
            else (failure (invalid_request (w.problems c)), s))
        else (failure (lacks_scope (w.lacks (scope_for c) (queue_from c))), s))
unfolding route require_scope validate
route-eq w c s k = ground arith

-- The calls that cancel, retry or replay jobs by their ids, and those that show, pause, resume or delete
-- a schedule by its id, do not look at the key's queues: a key that is limited to some queues does
-- through them, to a job or a schedule of any queue, whatever the same key with any other limit does.
pub by_id_ignores_queues :
    (w : Surroundings) (c : Call) (s : Site) (k : ApiKeyRecord) (queues : Option (List String))
    → by_id c ≡ true
    → route w c s (record k { queues = queues }) ≡ route w c s k
unfolding authorizes handle scope_for queue_from
by_id_ignores_queues w (Call.cancels id) s k queues h =
    route-eq w (Call.cancels id) s (record k { queues = queues })
    ∙ sym (route-eq w (Call.cancels id) s k)
by_id_ignores_queues w (Call.retries id) s k queues h =
    route-eq w (Call.retries id) s (record k { queues = queues })
    ∙ sym (route-eq w (Call.retries id) s k)
by_id_ignores_queues w (Call.replays id) s k queues h =
    route-eq w (Call.replays id) s (record k { queues = queues })
    ∙ sym (route-eq w (Call.replays id) s k)
by_id_ignores_queues w (Call.replays_many ids) s k queues h =
    route-eq w (Call.replays_many ids) s (record k { queues = queues })
    ∙ sym (route-eq w (Call.replays_many ids) s k)
by_id_ignores_queues w (Call.schedules c) s k queues h =
    route-eq w (Call.schedules c) s (record k { queues = queues })
    ∙ rw (no_schedule_queue c h) refl
    ∙ sym (route-eq w (Call.schedules c) s k)
by_id_ignores_queues w _ s k queues h = cc
