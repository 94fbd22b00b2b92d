-- ===== src/Engine/Reaper/Drain.antt =====
-- Engine.Reaper: the loop's passes and the expired leases.
use pgjobq.Base.{
  length-map, take_short, ℕ, zero, suc, ◌+◌, ◌≤◌, ◌<◌, ◌≡◌, refl, sym, ◌∙◌, ap, subst, inl, inr,
  some, none, Yields, Bool, true, false, not, List, [], ◌∷◌, map, arith, ltb, ltb→lt, if◌then◌else◌,
  length, where_, order_by, take, All, In, In-All, where-In, order_by-In, all-In, Bool-cases,
}
use pgjobq.Types.{Job, is_running, is_active}
use pgjobq.Table.{ok, check_row, update_where, among}
use pgjobq.Table.Update.{update_passes, written_checks, In-update_where}
use pgjobq.Table.Keys.{KeepsKeys, update_where_unique}
use pgjobq.Table.Valid.{IsValid, update-IsValid}
use pgjobq.Table.Selection.{length-where_among, among-In}
use pgjobq.Sql.Reap.{
  expired, expired_rows, reaped, reap_expired_leases, lease_order, count_overdue_leases,
}
use pgjobq.Sql.Reap.Rows.{IsExpired, In-expired_rows, expired_rows-Distinct, among_expired}
use pgjobq.Engine.Reaper.{count_reaped, reap_counted, reap_once, Drained, more_taken, drain}

abbrev pub nobody : ℕ → Bool
nobody id = false

abbrev pub nobody_holds : ℕ → ℕ → Bool
nobody_holds n id = false

-- A statement that takes rows out of a class, and leaves none of its images there.
count_drop :
    (p q : Job → Bool) (f : Job → Job) (t : List Job)
    → ((j : Job) → In j t → p j ≡ true → q j ≡ true)
    → ((j : Job) → q (f j) ≡ false)
    → length (where_ q (update_where p f t)) + length (where_ p t) ≡ length (where_ q t)
unfolding where_ update_where
count_drop p q f [] sub out = refl
count_drop p q f (j ∷ t) sub out =
    ground (arith, count_drop p q f t (λ k m. sub k (inr m)) out, sub j (inl refl), out j)

reaped-check :
    (now delay : ℕ) (j : Job) → check_row j ≡ true → check_row (reaped now delay j) ≡ true
unfolding check_row reaped
reaped-check now delay j c = ground arith

running_active : (j : Job) → is_running j.state ≡ true → is_active j.state ≡ true
running_active j h = ground arith

reaped-KeepsKeys :
    (now delay : ℕ) (j : Job) → is_running j.state ≡ true → KeepsKeys j (reaped now delay j)
unfolding reaped
reaped-KeepsKeys now delay j h = record {
  queue = refl;
  idempotency_key = refl;
  unique_key = refl;
  active = λ _. running_active j h;
}

reaped_calm : (now delay : ℕ) (j : Job) → expired now (reaped now delay j) ≡ false
unfolding reaped expired
reaped_calm now delay j = ground arith

reaped-id : (now delay : ℕ) (j : Job) → (reaped now delay j).id ≡ j.id
unfolding reaped
reaped-id now delay j = refl

keep_all : (xs : List Job) → where_ (λ (j : Job). not (nobody j.id)) xs ≡ xs
unfolding where_
keep_all [] = refl
keep_all (x ∷ xs) = ap (◌∷◌ x) (keep_all xs)

IsExpired-expired : (now : ℕ) (j : Job) → IsExpired now j → expired now j ≡ true
unfolding expired
IsExpired-expired now j e = ground (arith, e.running, e.lapsed)

count_reaped-length :
    (rows : List Job)
    → (count_reaped rows).recovered + (count_reaped rows).dead_lettered ≡ length rows
unfolding count_reaped
count_reaped-length [] = refl
count_reaped-length (row ∷ rows) = ground (arith, count_reaped-length rows)

module _ {next : ℕ} (now delay batch : ℕ) (t : List Job) (v : IsValid next t) where
  abbrev chosen : List Job
  chosen = expired_rows now nobody batch t

  abbrev cleared : List Job
  cleared = update_where (among chosen) (reaped now delay) t

  reap_passes :
      reap_expired_leases now nobody batch delay t
      ≡ ok (cleared, map (reaped now delay) (where_ (among chosen) t))
  unfolding reap_expired_leases
  reap_passes =
      update_passes _ _ t
        (written_checks _ _ t (λ j m y. reaped-check now delay j (all-In check_row t j v.checks m)))
        (update_where_unique _ _ t (λ j m y. reaped-KeepsKeys now delay j (taken j m y).running)
          v.keys)
    where
      taken : (j : Job) → In j t → among chosen j ≡ true → IsExpired now j
      taken j m y =
          (In-expired_rows now nobody batch t j (among_expired now nobody batch t j v.ids m y)).1

  cleared-IsValid : IsValid next cleared
  unfolding reap_expired_leases
  cleared-IsValid =
      update-IsValid next (among chosen) (reaped now delay) t cleared _ (reaped-id now delay)
        reap_passes v

  length-taken : length (where_ (among chosen) t) ≡ length chosen
  length-taken =
      length-where_among chosen t v.ids (expired_rows-Distinct now nobody batch t v.ids)
        (λ k m. (In-expired_rows now nobody batch t k m).0)

  overdue_drop : count_overdue_leases now cleared + length chosen ≡ count_overdue_leases now t
  unfolding count_overdue_leases
  overdue_drop = omega (
    arith,
    length-taken,
    count_drop (among chosen) (expired now) (reaped now delay) t sub (reaped_calm now delay),
  )
    where
      sub : (j : Job) → In j t → among chosen j ≡ true → expired now j ≡ true
      sub j m y =
          IsExpired-expired now j
            (In-expired_rows now nobody batch t j (among_expired now nobody batch t j v.ids m y)).1

  -- A pass that is not full took every expired lease.
  short_pass : length chosen < batch → (k : Job) → In k cleared → expired now k ≡ false
  unfolding expired_rows
  short_pass lt k m = elim (In-update_where (among chosen) (reaped now delay) t k m) [
    | inr (j, _, _, e) ↦ ap (expired now) e ∙ reaped_calm now delay j
    | inl (r, out) ↦ elim (Bool-cases (expired now k)) [
      | inr n ↦ n
      | inl y ↦
          let sorted =
            order_by (λ i j. lease_order i.lease_expires_at j.lease_expires_at)
              (where_ (expired now) t) in
          let same = ap (take batch) (keep_all sorted) in
          let whole =
            take_short batch sorted (omega (arith, lt, ap (λ (l : List Job). length l) same)) in
          let here : In k chosen =
            subst (In k) (sym (same ∙ whole))
              (order_by-In _ _ k (where-In (expired now) t k r y)) in
          absurd (cc (among-In chosen k here, out))
    ]
  ]

-- One turn of the loop.
drain_turn :
    {next : ℕ} (fuel batch : ℕ) (delay : ℕ → ℕ) (now : ℕ) (t : List Job) (v : IsValid next t)
    → drain (suc fuel) nobody_holds batch delay (λ n. now) t ≡ (
        if ltb (length (chosen now (delay fuel) batch t v)) batch
        then some (length (chosen now (delay fuel) batch t v), cleared now (delay fuel) batch t v)
        else more_taken
            (length (chosen now (delay fuel) batch t v))
            (drain fuel nobody_holds batch delay (λ n. now) (cleared now (delay fuel) batch t v)))
unfolding drain reap_once reap_counted
drain_turn fuel batch delay now t v = rw (reap_passes now (delay fuel) batch t v, size) refl
  where
    size :
        (count_reaped (
            map
              (reaped now (delay fuel))
              (where_ (among (chosen now (delay fuel) batch t v)) t))).recovered
          + (count_reaped (
              map
                (reaped now (delay fuel))
                (where_ (among (chosen now (delay fuel) batch t v)) t))).dead_lettered
        ≡ length (chosen now (delay fuel) batch t v)
    size = count_reaped-length _ ∙ length-map _ _ ∙ length-taken now (delay fuel) batch t v

calm-overdue :
    (now : ℕ) (t : List Job)
    → ((k : Job) → In k t → expired now k ≡ false)
    → count_overdue_leases now t ≡ 0
unfolding count_overdue_leases where_
calm-overdue now [] h = refl
calm-overdue now (k ∷ t) h = ground (arith, h k (inl refl), calm-overdue now t (λ i m. h i (inr m)))

-- No lease of the table is expired, and so many rows were taken.
abbrev pub LeftCalm : ℕ → ℕ → ℕ × List Job → Type 0
LeftCalm now taken (n, t) = All (λ j. expired now j ≡ false) t × (n ≡ taken)

more-LeftCalm :
    (now n taken total : ℕ) (r : Drained)
    → n + taken ≡ total
    → Yields (LeftCalm now taken) r
    → Yields (LeftCalm now total) (more_taken n r)
more-LeftCalm now n taken total none e y = y
more-LeftCalm now n taken total (some (m, t)) e (calm, q) = (calm, omega (arith, e, q))

-- On a valid table where nobody holds rows, at one time, with batches of at least one and as many passes
-- allowed as there are expired leases and one more, the reaper's inner loop ends, at a pass that is not
-- full, with no lease of the table expired, and it has counted exactly those that were.
pub drain_clears :
    {next : ℕ} (fuel batch : ℕ) (delay : ℕ → ℕ) (now : ℕ) (t : List Job)
    → IsValid next t
    → 0 < batch
    → count_overdue_leases now t < fuel
    → Yields
        (LeftCalm now (count_overdue_leases now t))
        (drain fuel nobody_holds batch delay (λ n. now) t)
drain_clears zero batch delay now t v pos_batch enough = absurd (omega (arith, enough))
drain_clears {next = next} (suc fuel) batch delay now t v pos_batch enough =
    subst (Yields (LeftCalm now (count_overdue_leases now t)))
      (sym (drain_turn fuel batch delay now t v))
      (elim (Bool-cases (ltb size batch)) [
        | inl y ↦
            let calm = short_pass now (delay fuel) batch t v (ltb→lt _ _ y) in
            simp y (
              In-All _ _ calm,
              omega (
                arith,
                overdue_drop now (delay fuel) batch t v,
                calm-overdue now (cleared now (delay fuel) batch t v) calm,
              ),
            )
        | inr n ↦
            let full : batch ≤ size = ground (arith, n) in
            simp n (
              more-LeftCalm now size (count_overdue_leases now (cleared now (delay fuel) batch t v))
                _ _ (omega (arith, overdue_drop now (delay fuel) batch t v))
                (drain_clears fuel batch delay now (cleared now (delay fuel) batch t v)
                  (cleared-IsValid now (delay fuel) batch t v) pos_batch
                  (omega
                    (arith, full, pos_batch, enough, overdue_drop now (delay fuel) batch t v))))
      ])
  where
    size : ℕ
    size = length (chosen now (delay fuel) batch t v)
