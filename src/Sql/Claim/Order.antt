-- ===== src/Sql/Claim/Order.antt =====
-- Sql.Claim: the two orders of its ORDER BY.
use pgjobq.Base.{ℕ, ◌≡◌, Bool, true, false, arith, if◌then◌else◌, ltb, leb}
use pgjobq.Base.Int.{ℤ, ltb_ℤ}
use pgjobq.Base.Sorted.{Total, Transitive}
use pgjobq.Sql.Claim.{claim_order, aging_order, aged_priority}

-- The three keys, apart from the rows that they stand in.
abbrev before : ℤ → ℕ → ℕ → ℤ → ℕ → ℕ → Bool
before p r i p' r' i' =
    if ltb_ℤ p' p
    then true
    else if ltb_ℤ p p'
    then false
    else if ltb r r'
    then true
    else if ltb r' r
    then false
    else leb i i'

before_total :
    (p p' : ℤ) (r i r' i' : ℕ) → before p r i p' r' i' ≡ false → before p' r' i' p r i ≡ true
before_total p p' r i r' i' h = ground arith

before_trans :
    (p p' p'' : ℤ) (r i r' i' r'' i'' : ℕ)
    → before p r i p' r' i' ≡ true
    → before p' r' i' p'' r'' i'' ≡ true
    → before p r i p'' r'' i'' ≡ true
before_trans p p' p'' r i r' i' r'' i'' h k = ground arith

pub claim_order-Total : Total claim_order
unfolding claim_order
claim_order-Total j k h = before_total j.priority k.priority j.run_at j.id k.run_at k.id h

pub claim_order-Transitive : Transitive claim_order
unfolding claim_order
claim_order-Transitive j k l h g =
    before_trans j.priority k.priority l.priority j.run_at j.id k.run_at k.id l.run_at l.id h g

pub aging_order-Total : (now threshold : ℕ) → Total (aging_order now threshold)
unfolding aging_order
aging_order-Total now threshold j k h =
    before_total (aged_priority now threshold j) (aged_priority now threshold k) j.run_at j.id
      k.run_at k.id h

pub aging_order-Transitive : (now threshold : ℕ) → Transitive (aging_order now threshold)
unfolding aging_order
aging_order-Transitive now threshold j k l h g =
    before_trans (aged_priority now threshold j) (aged_priority now threshold k)
      (aged_priority now threshold l) j.run_at j.id k.run_at k.id l.run_at l.id h g
