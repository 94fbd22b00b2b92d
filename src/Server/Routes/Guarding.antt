-- ===== src/Server/Routes/Guarding.antt =====
-- Server.Routes: who gets past the middleware, and what they may do.
use pgjobq.Base.{
  ℕ, ◌≢◌, ◌≤◌, ◌<◌, ◌≡◌, refl, ap, ◌∙◌, subst, ◌⊎◌, inl, inr, String, true, false, some, List, In,
  Option-cases, Bool-cases, arith, any,
}
use pgjobq.Client.Admin.{Audit}
use pgjobq.Server.Auth.{Scope, scope_eq, ApiKeyRow, ApiKeyRecord, authenticate, authorizes}
use pgjobq.Server.Reply.{ErrorReply}
use pgjobq.Server.Access.{
  denies, passes, presented_key, no_key, bad_key, lacks_scope, require_auth, require_scope,
}
use pgjobq.Server.Calls.{scope_for, queue_from, valid_call}
use pgjobq.Server.Routes.Handling.{handle-AddsAs, has_scope, reads_only}
use pgjobq.Server.Routes.{
  Surroundings, Site, Reply, Request, failure, invalid_request, validate, handle, route, serve,
  actor_of, too_many,
}

-- The statuses of the middleware: 400, 401, 403 and 429.
abbrev pub Refuses : ℕ → Type 0
Refuses n = ((400 ≤ n) × (n < 404) × (n ≢ 402)) ⊎ (n ≡ 429)

module _ (hash_key : String → String) (keys : List ApiKeyRow) where
  -- The request presents a key that the table accepts, as this record.
  abbrev pub Presents : Surroundings → Request → ApiKeyRecord → Type 0
  Presents w r k =
      (key : String) × (presented_key r.authorization ≡ some key)
      × (authenticate hash_key w.client_now key keys ≡ some k)

  -- The two ends of a request: an error of the caller's that changed nothing, or the handler of its
  -- call, for an accepted key that has the call's scope over the queue it names.
  abbrev pub Served : Surroundings → Request → Site → Reply × Site → Type 0
  Served w r s out =
      ((e : ErrorReply) × Refuses e.status × (out ≡ (failure e, s)))
      ⊎ ((k : ApiKeyRecord) × Presents w r k
          × (authorizes k (scope_for r.call) (queue_from r.call) ≡ true)
          × (valid_call r.call ≡ true)
          × (out ≡ handle w k r.call s))

  require_auth-cases :
      (w : Surroundings) (r : Request)
      → ((e : ErrorReply) × (e.status ≡ 401)
          × (require_auth hash_key w.client_now keys r.authorization ≡ denies e))
        ⊎ ((k : ApiKeyRecord) × Presents w r k
            × (require_auth hash_key w.client_now keys r.authorization ≡ passes k))
  unfolding require_auth
  require_auth-cases w r = elim (Option-cases (presented_key r.authorization)) [
    | inl e ↦ inl (no_key, refl, rw (e, require_auth) refl)
    | inr (key, e) ↦ elim (Option-cases (authenticate hash_key w.client_now key keys)) [
      | inl f ↦ inl (bad_key, refl, rw (e, f, require_auth) refl)
      | inr (k, f) ↦ inr (k, (key, e, f), rw (e, f, require_auth) refl)
    ]
  ]

  route-Served :
      (w : Surroundings) (r : Request) (s : Site) (k : ApiKeyRecord)
      → Presents w r k
      → Served w r s (route w r.call s k)
  unfolding route require_scope validate
  route-Served w r s k p = elim (Bool-cases (authorizes k (scope_for r.call) (queue_from r.call))) [
    | inr n ↦ inl (
      lacks_scope (w.lacks (scope_for r.call) (queue_from r.call)),
      inl (omega arith, omega arith, λ e. omega (arith, e)),
      rw n refl,
    )
    | inl y ↦ elim (Bool-cases (valid_call r.call)) [
      | inr n ↦ inl (
        invalid_request (w.problems r.call),
        inl (omega arith, omega arith, λ e. omega (arith, e)),
        rw (y, n) refl,
      )
      | inl v ↦ inr (k, p, y, v, rw (y, v) refl)
    ]
  ]

  pub serve-Served :
      (w : Surroundings) (r : Request) (s : Site) → Served w r s (serve hash_key keys w r s)
  unfolding serve
  serve-Served w r s = elim (require_auth-cases w r) [
    | inl (e, u, h) ↦
        inl (e, inl (omega (arith, u), omega (arith, u), λ q. omega (arith, u, q)), rw h refl)
    | inr (k, p, h) ↦ elim (Bool-cases (w.within_rate k.id)) [
      | inl y ↦ rw (h, y) (route-Served w r s k p)
      | inr n ↦ rw (h, n) (inl (too_many, inr refl, refl))
    ]
  ]

  -- An entry that a request adds to the audit log is under the name of the key that the request
  -- presented, which the table accepts and which has the scope `admin`.
  pub serve_audited :
      (w : Surroundings) (r : Request) (s : Site) (a : Audit)
      → In a (serve hash_key keys w r s).1.store.audits
      → In a s.store.audits
        ⊎ ((k : ApiKeyRecord) × Presents w r k
            × (any (λ x. scope_eq x Scope.admin) k.scopes ≡ true)
            × (a.actor ≡ actor_of k))
  serve_audited w r s a m = elim (serve-Served w r s) [
    | inl (e, _, h) ↦ inl (subst (λ (x : Reply × Site). In a x.1.store.audits) h m)
    | inr (k, p, y, _, h) ↦
        elim (handle-AddsAs w k r.call s a
          (subst (λ (x : Reply × Site). In a x.1.store.audits) h m)) [
            | inl o ↦ inl o
            | inr (admin, by) ↦
                inr (k, p, rw admin at (has_scope k (scope_for r.call) (queue_from r.call) y), by)
          ]
  ]

  -- A request whose key has neither the scope `admin` nor `enqueue` changes nothing.
  pub serve_read_only :
      (w : Surroundings) (r : Request) (s : Site) (k : ApiKeyRecord)
      → Presents w r k
      → any (λ x. scope_eq x Scope.admin) k.scopes ≡ false
      → any (λ x. scope_eq x Scope.enqueue) k.scopes ≡ false
      → (serve hash_key keys w r s).1 ≡ s
  serve_read_only w r s k (key, e, f) n o = elim (serve-Served w r s) [
    | inl (e, _, h) ↦ ap (λ x. x.1) h
    | inr (k', (key', e', f'), y, _, h) ↦
        let same_key : key' ≡ key = cc (e, e') in
        let same : k' ≡ k = cc (f, f', same_key) in
        ap (λ x. x.1) h
        ∙ reads_only w k' r.call s (has_scope k' (scope_for r.call) (queue_from r.call) y)
            (rw same n) (rw same o)
  ]
