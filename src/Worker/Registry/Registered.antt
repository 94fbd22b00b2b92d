-- ===== src/Worker/Registry/Registered.antt =====
-- Worker.Registry: a registration and the runs after it.
use text.Mathlib.TextEquality.{eq_iff}
use pgjobq.Base.{
  ◌≡◌, refl, inl, inr, String, true, false, some, List, [], ◌∷◌, ◌++◌, str_eq, arith, if◌then◌else◌,
  Bool-cases,
}
use pgjobq.Worker.Registry.{Registration, get_entry, has, register, run_handler, parsed_run}

get_entry-append :
    (type : String) (rs : List Registration) (r : Registration)
    → has r.type rs ≡ false
    → get_entry type (rs ++ r ∷ []) ≡ (if str_eq r.type type then some r else get_entry type rs)
unfolding get_entry has
get_entry-append type [] r h = refl
get_entry-append type (k ∷ rs) r h = elim (Bool-cases (str_eq k.type type)) [
  | inr n ↦ elim (Bool-cases (str_eq k.type r.type)) [
    | inl y ↦ absurd (ground (arith, y, h))
    | inr m ↦ rw n (get_entry-append type rs r (ground (arith, m, h)))
  ]
  | inl y ↦ elim (Bool-cases (str_eq r.type type)) [
    | inr m ↦ rw (y, m) refl
    | inl m ↦
        let same : k.type ≡ r.type = cc ((eq_iff k.type type).0 y, (eq_iff r.type type).0 m) in
        let there : str_eq k.type r.type ≡ true = (eq_iff k.type r.type).1 same in
        absurd (ground (arith, there, h))
  ]
]

-- A registration that is taken gives its type its handler, and changes the runs of no other type: no
-- handler is ever replaced.
pub register-runs :
    (stack type payload : String) (r : Registration) (rs rs' : List Registration)
    → register r rs ≡ some rs'
    → run_handler stack type payload rs' ≡ (
        if str_eq r.type type
        then parsed_run r (r.schema payload)
        else run_handler stack type payload rs)
unfolding register run_handler
register-runs stack type payload r rs rs' h = elim (Bool-cases (has r.type rs)) [
  | inl y ↦ absurd (ground (arith, y, h))
  | inr n ↦
      let table : rs' ≡ rs ++ r ∷ [] = ground (arith, n, h) in
      rw (table, get_entry-append type rs r n)
        (elim (Bool-cases (str_eq r.type type)) [ inl y ↦ rw y refl | inr m ↦ rw m refl ])
]
