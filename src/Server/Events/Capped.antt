-- ===== src/Server/Events/Capped.antt =====
-- Server.Events: the stream over its events, in any order.
use pgjobq.Base.{
  ℕ, suc, ◌≤◌, ◌<◌, ◌≡◌, ◌≢◌, refl, ◌⊎◌, inl, inr, Bool, true, not, List, [], ◌∷◌, ◌++◌, arith,
  where_, leb, ◌==◌, length, length-append, length-where-le, In, In-where, In-append, Bool-cases,
}
use pgjobq.Server.Events.{
  EventStream, Written, subscribe, disconnect, publish, beat, close, too_slow,
}

pub data StreamEvent : Type 0 where
  subscribes : StreamEvent
  disconnects : ℕ → StreamEvent
  publishes : (ℕ → Written) → StreamEvent
  beats closes : StreamEvent

unfoldable pub step_stream : StreamEvent → EventStream → EventStream
unfolding subscribe disconnect publish beat close
step_stream subscribes s = (subscribe s).0
step_stream (disconnects id) s = disconnect id s
step_stream (publishes written) s = publish written s
step_stream beats s = beat s
step_stream closes s = close s

unfoldable pub run_stream : List StreamEvent → EventStream → EventStream
unfolding step_stream
run_stream [] s = s
run_stream (e ∷ es) s = run_stream es (step_stream e s)

abbrev pub Apart : List ℕ → Type 0
Apart [] = Unit {0}
Apart (i ∷ is) = ((k : ℕ) → In k is → i ≢ k) × Apart is

-- As many subscribers as there may be, no two under one id, and a timer wherever there are any.
pub record IsCapped (s : EventStream) : Type 0 where
  pub capped : length s.subscribers ≤ s.max_subscribers
  pub apart : Apart s.subscribers
  pub fresh : (i : ℕ) → In i s.subscribers → i < s.next_id
  pub kept_alive : (s.subscribers ≡ []) ⊎ (s.heartbeat ≡ true)

empty-where : (p : ℕ → Bool) → where_ p [] ≡ []
unfolding where_
empty-where p = refl

where-Apart : (p : ℕ → Bool) (is : List ℕ) → Apart is → Apart (where_ p is)
unfolding where_
where-Apart p [] a = tt
where-Apart p (i ∷ is) a = elim (Bool-cases (p i)) [
  | inl y ↦ rw y (λ k m. a.0 k (In-where p is k m).0, where-Apart p is a.1)
  | inr n ↦ rw n (where-Apart p is a.1)
]

append-Apart : (is : List ℕ) (j : ℕ) → Apart is → ((i : ℕ) → In i is → i < j) → Apart (is ++ j ∷ [])
append-Apart [] j a h = (λ k m. absurd m, tt)
append-Apart (i ∷ is) j a h = (away, append-Apart is j a.1 (λ k m. h k (inr m)))
  where
    away : (k : ℕ) → In k (is ++ j ∷ []) → i ≢ k
    away k m = elim (In-append is (j ∷ []) k m) [
      | inl r ↦ a.0 k r
      | inr (inl e) ↦ λ f. absurd (omega (arith, h i (inl refl), e, f))
      | inr (inr x) ↦ absurd x
    ]

-- A filter of the subscribers.
filter-IsCapped :
    (p : ℕ → Bool) (s : EventStream)
    → IsCapped s
    → IsCapped (record s { subscribers = where_ p s.subscribers })
filter-IsCapped p s c = record {
  capped = omega (arith, c.capped, length-where-le p s.subscribers);
  apart = where-Apart p s.subscribers c.apart;
  fresh = λ i m. c.fresh i (In-where p s.subscribers i m).0;
  kept_alive = elim c.kept_alive [ inl e ↦ inl (filter_empty e) | inr b ↦ inr b ];
}
  where
    filter_empty : s.subscribers ≡ [] → where_ p s.subscribers ≡ []
    filter_empty e = rw e (empty-where p)

subscribe-IsCapped : (s : EventStream) → IsCapped s → IsCapped (subscribe s).0
unfolding subscribe
subscribe-IsCapped s c = elim (Bool-cases (leb s.max_subscribers (length s.subscribers))) [
  | inl y ↦ rw (y, subscribe) c
  | inr n ↦
      rw (n, subscribe)
        (record {
          capped = ground (arith, n, length-append s.subscribers (s.next_id ∷ []));
          apart = append-Apart s.subscribers s.next_id c.apart c.fresh;
          fresh = below;
          kept_alive = inr refl;
        })
]
  where
    below : (i : ℕ) → In i (s.subscribers ++ s.next_id ∷ []) → i < suc s.next_id
    below i m = elim (In-append s.subscribers (s.next_id ∷ []) i m) [
      | inl r ↦ omega (arith, c.fresh i r)
      | inr (inl e) ↦ omega (arith, e)
      | inr (inr x) ↦ absurd x
    ]

no_length : (is : List ℕ) → length is ≡ 0 → is ≡ []
no_length [] h = refl
no_length (i ∷ is) h = absurd (omega (arith, h))

beat-IsCapped : (s : EventStream) → IsCapped s → IsCapped (beat s)
unfolding beat
beat-IsCapped s c = elim (Bool-cases (length s.subscribers == 0)) [
  | inr n ↦ rw (n, beat) c
  | inl y ↦
      rw (y, beat)
        (record {
          capped = c.capped;
          apart = c.apart;
          fresh = c.fresh;
          kept_alive = inl (no_length s.subscribers (ground (arith, y)));
        })
]

step_stream-IsCapped : (e : StreamEvent) (s : EventStream) → IsCapped s → IsCapped (step_stream e s)
unfolding step_stream disconnect publish close
step_stream-IsCapped subscribes s c = subscribe-IsCapped s c
step_stream-IsCapped (disconnects id) s c = filter-IsCapped (λ i. not (i == id)) s c
step_stream-IsCapped (publishes written) s c = filter-IsCapped (λ i. not (too_slow (written i))) s c
step_stream-IsCapped beats s c = beat-IsCapped s c
step_stream-IsCapped closes s c = record {
  capped = omega arith;
  apart = tt;
  fresh = λ i m. absurd m;
  kept_alive = inl refl;
}

-- Over any sequence of subscriptions, disconnections, publications to subscribers fast and slow, beats and
-- closes: a stream that has at most as many subscribers as it may have, no two under one id, none under
-- an id that is still to come, and a timer if it has any, stays so.
pub run_stream-IsCapped :
    (es : List StreamEvent) (s : EventStream) → IsCapped s → IsCapped (run_stream es s)
unfolding run_stream
run_stream-IsCapped [] s c = c
run_stream-IsCapped (e ∷ es) s c =
    run_stream-IsCapped es (step_stream e s) (step_stream-IsCapped e s c)
