-- ===== src/Table/Keys.antt =====
-- The unique indexes under an update that changes no key and makes no row active.
use pgjobq.Base.{
  ◌≡◌, refl, inl, inr, Bool, true, false, ◌&&◌, ◌||◌, List, [], ◌∷◌, arith, any, str_eq,
  if◌then◌else◌, Bool-cases, In,
}
use pgjobq.Types.{Job, is_active}
use pgjobq.Table.{clash, unique_rows, update_where, key_eq}

-- k has the keys of j, and is active only if j is.
pub record KeepsKeys (j k : Job) : Type 0 where
  pub queue : k.queue ≡ j.queue
  pub idempotency_key : k.idempotency_key ≡ j.idempotency_key
  pub unique_key : k.unique_key ≡ j.unique_key
  pub active : is_active k.state ≡ true → is_active j.state ≡ true

KeepsKeys-refl : (j : Job) → KeepsKeys j j
KeepsKeys-refl j = record {
  queue = refl;
  idempotency_key = refl;
  unique_key = refl;
  active = λ h. h;
}

clash_bits :
    (q i u a b a' b' : Bool)
    → (a' ≡ true → a ≡ true)
    → (b' ≡ true → b ≡ true)
    → (q && (i || (u && a && b))) ≡ false
    → (q && (i || (u && a' && b'))) ≡ false
clash_bits q i u a b a' b' f g h = ground arith

clash-KeepsKeys :
    (j j' k k' : Job) → KeepsKeys j j' → KeepsKeys k k' → clash j k ≡ false → clash j' k' ≡ false
unfolding clash
clash-KeepsKeys j j' k k' f g h =
    rw (f.queue, g.queue, f.idempotency_key, g.idempotency_key, f.unique_key, g.unique_key)
      (clash_bits (str_eq j.queue k.queue) (key_eq j.idempotency_key k.idempotency_key)
        (key_eq j.unique_key k.unique_key) (is_active j.state) (is_active k.state)
        (is_active j'.state) (is_active k'.state) f.active g.active h)

row-KeepsKeys :
    (p : Job → Bool) (f : Job → Job) (j : Job)
    → (p j ≡ true → KeepsKeys j (f j))
    → KeepsKeys j (if p j then f j else j)
row-KeepsKeys p f j h = elim (Bool-cases (p j)) [
  | inl y ↦ rw y (h y)
  | inr n ↦ rw n (KeepsKeys-refl j)
]

no_clash :
    (p : Job → Bool) (f : Job → Job) (j j' : Job) (t : List Job)
    → KeepsKeys j j'
    → ((k : Job) → In k t → p k ≡ true → KeepsKeys k (f k))
    → any (clash j) t ≡ false
    → any (clash j') (update_where p f t) ≡ false
unfolding any update_where
no_clash p f j j' [] g h c = refl
no_clash p f j j' (k ∷ t) g h c =
    rw (clash-KeepsKeys j j' k _ g (row-KeepsKeys p f k (h k (inl refl))) (ground arith))
      (no_clash p f j j' t g (λ i m. h i (inr m)) (ground arith))

-- Such an update breaks no unique index.
pub update_where_unique :
    (p : Job → Bool) (f : Job → Job) (t : List Job)
    → ((k : Job) → In k t → p k ≡ true → KeepsKeys k (f k))
    → unique_rows t ≡ true
    → unique_rows (update_where p f t) ≡ true
unfolding unique_rows update_where
update_where_unique p f [] h u = refl
update_where_unique p f (j ∷ t) h u =
    let clear : any (clash j) t ≡ false = ground arith in
    let rest =
      no_clash p f j _ t (row-KeepsKeys p f j (h j (inl refl))) (λ k m. h k (inr m)) clear in
    rw (rest, update_where_unique p f t (λ k m. h k (inr m)) (ground arith))
