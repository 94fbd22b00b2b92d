-- ===== src/Sql/Reap/Rows.antt =====
-- Sql.Reap: the rows that the reaper takes.
use pgjobq.Base.{
  ℕ, ◌≤◌, ◌≡◌, Bool, true, false, not, List, arith, length, length-take-le, In, In-where,
  In-order_by, In-take,
}
use pgjobq.Types.{Job, is_running}
use pgjobq.Table.{among}
use pgjobq.Table.Ids.{Distinct, where-Distinct}
use pgjobq.Table.Selection.{among_selected, order_by-Distinct, take-Distinct}
use pgjobq.Sql.Reap.{expired, expired_rows, lapsed}

pub record IsExpired (now : ℕ) (j : Job) : Type 0 where
  pub running : is_running j.state ≡ true
  pub lapsed : lapsed j.lease_expires_at now ≡ true

pub expired_lem : (now : ℕ) (j : Job) → expired now j ≡ true → IsExpired now j
unfolding expired
expired_lem now j h = ground arith

not-true : (b : Bool) → not b ≡ true → b ≡ false
not-true b h = ground arith

module _ (now : ℕ) (locked : ℕ → Bool) (limit : ℕ) (t : List Job) where
  pub In-expired_rows :
      (j : Job)
      → In j (expired_rows now locked limit t)
      → In j t × IsExpired now j × (locked j.id ≡ false)
  unfolding expired_rows
  In-expired_rows j m =
      let (r, free) = In-where (λ (k : Job). not (locked k.id)) _ j (In-take limit _ j m) in
      let (r', e) = In-where (expired now) t j (In-order_by _ _ j r) in
      (r', expired_lem now j e, not-true (locked j.id) free)

  pub expired_rows-Distinct : Distinct t → Distinct (expired_rows now locked limit t)
  unfolding expired_rows
  expired_rows-Distinct d =
      take-Distinct limit _ (where-Distinct _ _ (order_by-Distinct _ _ (where-Distinct _ t d)))

  pub length-expired_rows-le : length (expired_rows now locked limit t) ≤ limit
  unfolding expired_rows
  length-expired_rows-le = length-take-le limit _

  pub among_expired :
      (j : Job)
      → Distinct t
      → In j t
      → among (expired_rows now locked limit t) j ≡ true
      → In j (expired_rows now locked limit t)
  among_expired j d m h =
      among_selected (expired_rows now locked limit t) t j d (λ k n. (In-expired_rows k n).0) m h
