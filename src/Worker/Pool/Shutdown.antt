-- ===== src/Worker/Pool/Shutdown.antt =====
-- Worker.Pool: the end of `stop`.
use pgjobq.Base.{
  ℕ, ◌+◌, ◌≡◌, refl, sym, ◌∙◌, true, false, List, [], ◌∷◌, In, inl, inr, Bool-cases, arith, subst,
  ap, none, All, In-All, if◌then◌else◌,
}
use pgjobq.Types.{Job, ClaimedJob, available}
use pgjobq.Table.{update_where}
use pgjobq.Table.Update.{In-update_where, update_where-In}
use pgjobq.Table.Valid.{IsValid}
use pgjobq.Sql.Report.{FenceParams, owned, released}
use pgjobq.Sql.Report.Fence.{send, releases, takes, written, send_total, send-IsValid}
use pgjobq.Worker.Runner.{RunnerOptions, fence_for, release}
use pgjobq.Worker.Pool.{release_active, after_release}

released_free : (now : ℕ) (j : Job) (g : FenceParams) → owned g (released now j) ≡ false
unfolding owned released
released_free now j g = ground arith

-- The table after one release.
freed : RunnerOptions → ClaimedJob → ℕ → List Job → List Job
freed o job now t = after_release t (release o job now t)

freed-eq :
    {next : ℕ} (o : RunnerOptions) (now : ℕ) (job : ClaimedJob) (t : List Job)
    → IsValid next t
    → freed o job now t ≡ update_where (owned (fence_for o job)) (released now) t
unfolding freed release send takes written
freed-eq o now job t v = rw (send_total now (releases (fence_for o job)) t v) refl

freed-IsValid :
    {next : ℕ} (o : RunnerOptions) (now : ℕ) (job : ClaimedJob) (t : List Job)
    → IsValid next t
    → IsValid next (freed o job now t)
unfolding takes written
freed-IsValid {next = next} o now job t v = subst (IsValid next) (sym (freed-eq o now job t v)) (
    send-IsValid next now (releases (fence_for o job)) t _ _
      (send_total now (releases (fence_for o job)) t v) v)

-- A row that is owned afterwards was there before, under another fence.
freed-owned :
    {next : ℕ} (o : RunnerOptions) (now : ℕ) (job : ClaimedJob) (t : List Job) (g : FenceParams)
    (k : Job)
    → IsValid next t
    → In k (freed o job now t)
    → owned g k ≡ true
    → In k t × (owned (fence_for o job) k ≡ false)
freed-owned o now job t g k v m own =
    elim (In-update_where (owned (fence_for o job)) (released now) t k
      (subst (In k) (freed-eq o now job t v) m)) [
        | inl (r, out) ↦ (r, out)
        | inr (j, _, _, e) ↦ absurd (cc (own, ap (owned g) e, released_free now j g))
      ]

rest_owned :
    {next : ℕ} (o : RunnerOptions) (clock : ℕ → ℕ) (n : ℕ) (jobs : List (ℕ × ClaimedJob))
    (t : List Job) (g : FenceParams) (k : Job)
    → IsValid next t
    → In k (release_active o clock n jobs t)
    → owned g k ≡ true
    → In k t
unfolding release_active freed
rest_owned o clock n [] t g k v m own = m
rest_owned o clock n ((id, job) ∷ jobs) t g k v m own =
    (freed-owned o (clock n) job t g k v
      (rest_owned o clock (n + 1) jobs (freed o job (clock n) t) g k
        (freed-IsValid o (clock n) job t v) m own)
      own).0

-- No release leaves a row under the fence of its job.
none_owned :
    {next : ℕ} (o : RunnerOptions) (clock : ℕ → ℕ) (n : ℕ) (jobs : List (ℕ × ClaimedJob))
    (t : List Job) (id : ℕ) (job : ClaimedJob) (k : Job)
    → IsValid next t
    → In (id, job) jobs
    → In k (release_active o clock n jobs t)
    → owned (fence_for o job) k ≡ false
unfolding release_active freed
none_owned o clock n [] t id job k v m r = absurd m
none_owned o clock n ((i, a) ∷ jobs) t id job k v (inl q) r =
    elim (Bool-cases (owned (fence_for o job) k)) [
      | inl y ↦
          let v' = freed-IsValid o (clock n) a t v in
          let there =
            rest_owned o clock (n + 1) jobs (freed o a (clock n) t) (fence_for o job) k v' r y in
          let same : job ≡ a = ap (λ (x : ℕ × ClaimedJob). x.1) q in
          ap (λ x. owned (fence_for o x) k) same
          ∙ (freed-owned o (clock n) a t (fence_for o job) k v there y).1
      | inr x ↦ x
    ]
none_owned o clock n ((i, a) ∷ jobs) t id job k v (inr m) r =
    none_owned o clock (n + 1) jobs (freed o a (clock n) t) id job k
      (freed-IsValid o (clock n) a t v) m r

-- The row that a job's release leaves: available at once and free, its attempt counted as before.
pub record GivenBack (now : ℕ) (j k : Job) : Type 0 where
  pub id : k.id ≡ j.id
  pub queue : k.queue ≡ j.queue
  pub state : k.state ≡ available
  pub run_at : k.run_at ≡ now
  pub attempt : k.attempt ≡ j.attempt
  pub worker_id : k.worker_id ≡ none
  pub lease_expires_at : k.lease_expires_at ≡ none

released-GivenBack : (now : ℕ) (j : Job) → GivenBack now j (released now j)
unfolding released
released-GivenBack now j = record {
  id = refl;
  queue = refl;
  state = refl;
  run_at = refl;
  attempt = refl;
  worker_id = refl;
  lease_expires_at = refl;
}

-- A release leaves every row that its fence does not meet, and writes the one that it meets.
freed-In :
    {next : ℕ} (o : RunnerOptions) (now : ℕ) (job : ClaimedJob) (t : List Job) (j : Job)
    → IsValid next t
    → In j t
    → In (if owned (fence_for o job) j then released now j else j) (freed o job now t)
freed-In o now job t j v m =
    subst (In (if owned (fence_for o job) j then released now j else j))
      (sym (freed-eq o now job t v))
      (update_where-In (owned (fence_for o job)) (released now) t j m)

freed_spares :
    {next : ℕ} (o : RunnerOptions) (now : ℕ) (job : ClaimedJob) (t : List Job) (j : Job)
    → IsValid next t
    → In j t
    → owned (fence_for o job) j ≡ false
    → In j (freed o job now t)
freed_spares o now job t j v m n =
    subst (λ b. In (if b then released now j else j) (freed o job now t)) n
      (freed-In o now job t j v m)

freed_takes :
    {next : ℕ} (o : RunnerOptions) (now : ℕ) (job : ClaimedJob) (t : List Job) (j : Job)
    → IsValid next t
    → In j t
    → owned (fence_for o job) j ≡ true
    → In (released now j) (freed o job now t)
freed_takes o now job t j v m y =
    subst (λ b. In (if b then released now j else j) (freed o job now t)) y
      (freed-In o now job t j v m)

free_stays :
    {next : ℕ} (o : RunnerOptions) (clock : ℕ → ℕ) (n : ℕ) (jobs : List (ℕ × ClaimedJob))
    (t : List Job) (k : Job)
    → IsValid next t
    → ((g : FenceParams) → owned g k ≡ false)
    → In k t
    → In k (release_active o clock n jobs t)
unfolding release_active freed
free_stays o clock n [] t k v f m = m
free_stays o clock n ((i, a) ∷ jobs) t k v f m =
    free_stays o clock (n + 1) jobs (freed o a (clock n) t) k (freed-IsValid o (clock n) a t v) f
      (freed_spares o (clock n) a t k v m (f (fence_for o a)))

given_back :
    {next : ℕ} (o : RunnerOptions) (clock : ℕ → ℕ) (n : ℕ) (jobs : List (ℕ × ClaimedJob))
    (t : List Job) (id : ℕ) (job : ClaimedJob) (j : Job)
    → IsValid next t
    → In (id, job) jobs
    → In j t
    → owned (fence_for o job) j ≡ true
    → (m : ℕ) × In (released (clock m) j) (release_active o clock n jobs t)
unfolding release_active freed
given_back o clock n [] t id job j v m r own = absurd m
given_back o clock n ((i, a) ∷ jobs) t id job j v m r own =
    elim (Bool-cases (owned (fence_for o a) j)) [
      | inl y ↦ (
        n,
        free_stays o clock (n + 1) jobs (freed o a (clock n) t) (released (clock n) j)
            (freed-IsValid o (clock n) a t v) (λ g. released_free (clock n) j g)
            (freed_takes o (clock n) a t j v r y),
      )
      | inr x ↦ elim m [
        | inl q ↦
            let same : job ≡ a = ap (λ (e : ℕ × ClaimedJob). e.1) q in
            absurd (cc (own, x, ap (λ e. owned (fence_for o e) j) same))
        | inr l ↦
            given_back o clock (n + 1) jobs (freed o a (clock n) t) id job j
              (freed-IsValid o (clock n) a t v) l (freed_spares o (clock n) a t j v r x) own
      ]
    ]

-- On a valid table, the shutdown's releases give back the row of each job that was still active and that
-- the pool still owned: it is available at once, with no worker and no lease and with its attempt as it
-- was, so that it does not wait for its lease to end; and no row is left under that job's fence.
pub release_active_frees :
    {next : ℕ} (o : RunnerOptions) (clock : ℕ → ℕ) (n : ℕ) (jobs : List (ℕ × ClaimedJob))
    (t : List Job) (id : ℕ) (job : ClaimedJob) (j : Job)
    → IsValid next t
    → In (id, job) jobs
    → In j t
    → owned (fence_for o job) j ≡ true
    → ((k : Job) × (m : ℕ) × In k (release_active o clock n jobs t) × GivenBack (clock m) j k)
      × All (λ k. owned (fence_for o job) k ≡ false) (release_active o clock n jobs t)
release_active_frees o clock n jobs t id job j v m r own =
    let (at_step, here) = given_back o clock n jobs t id job j v m r own in
    (
      (released (clock at_step) j, at_step, here, released-GivenBack (clock at_step) j),
      In-All _ _ (λ k l. none_owned o clock n jobs t id job k v m l),
    )
