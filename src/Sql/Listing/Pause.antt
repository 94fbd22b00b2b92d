-- ===== src/Sql/Listing/Pause.antt =====
-- Sql.Listing: a paused queue and the claims on it.
use text.Mathlib.TextEquality.{eq_iff}
use pgjobq.Base.{
  ℕ, ◌≡◌, refl, ap, inl, inr, String, Bool, true, false, List, [], ◌∷◌, arith, str_eq, In,
  Bool-cases,
}
use pgjobq.Types.{Job, QueueConfig}
use pgjobq.Table.{ok, among}
use pgjobq.Table.Valid.{IsValid, update_misses}
use pgjobq.Table.Selection.{among_lem}
use pgjobq.Sql.Claim.{ClaimParams, paused, claim_order, candidates, claim_by, claim_jobs}
use pgjobq.Sql.Claim.Order.{claim_order-Total, claim_order-Transitive}
use pgjobq.Sql.Claim.Candidates.{IsEligible, In-candidates}
use pgjobq.Sql.Listing.{set_queue_paused, new_config}

str_refl : (a : String) → str_eq a a ≡ true
str_refl a = (eq_iff a a).1 refl

paused-set :
    (q : String) (b : Bool) (cs : List QueueConfig) → paused (set_queue_paused q b cs) q ≡ b
unfolding paused set_queue_paused new_config
paused-set q b [] = rw (str_refl q) refl
paused-set q b (c ∷ cs) = elim (Bool-cases (str_eq c.queue q)) [
  | inl y ↦ rw (y, y) refl
  | inr n ↦ rw (n, n) (paused-set q b cs)
]

-- Pausing one queue leaves every other as it was.
pub paused-set_other :
    (q r : String) (b : Bool) (cs : List QueueConfig)
    → str_eq q r ≡ false
    → paused (set_queue_paused q b cs) r ≡ paused cs r
unfolding paused set_queue_paused new_config
paused-set_other q r b [] n = ground (arith, n)
paused-set_other q r b (c ∷ cs) n =
    ground (arith, paused-set_other q r b cs n, eq_iff c.queue q, eq_iff c.queue r, eq_iff q r)

-- After a queue was paused, a claim of it on a valid table, with any configuration before, at any time,
-- by anyone, goes through, returns no job and changes no row.
pub pause_stops_claims :
    {next : ℕ} (cs : List QueueConfig) (now : ℕ) (locked : ℕ → Bool) (p : ClaimParams)
    (t : List Job)
    → IsValid next t
    → claim_jobs (set_queue_paused p.queue true cs) now locked p t ≡ ok (t, [])
unfolding claim_jobs claim_by
pause_stops_claims cs now locked p t v = update_misses _ _ t v miss
  where
    configs : List QueueConfig
    configs = set_queue_paused p.queue true cs

    none_eligible : (j : Job) → IsEligible configs now p.queue j → ⊥
    none_eligible j e =
        let same : j.queue ≡ p.queue = (eq_iff j.queue p.queue).0 e.queue in
        cc (e.resumed, ap (paused configs) same, paused-set p.queue true cs)

    miss : (j : Job) → In j t → among (candidates claim_order configs now locked p t) j ≡ false
    miss j m = elim (Bool-cases (among (candidates claim_order configs now locked p t) j)) [
      | inr n ↦ n
      | inl y ↦
          let (k, r, _) = among_lem _ j y in
          absurd (
            none_eligible k
              (In-candidates claim_order claim_order-Total claim_order-Transitive configs now locked
                p t k r).1)
    ]
