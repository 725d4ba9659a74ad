-- ===== src/Compiler/Coalescing/Folding.antt =====
-- What `apply_coalescing` does with one group of trials, for each step id.
use hyperplane_rs.Prelude.{
  ℕ, zero, suc, ◌+◌, ◌-◌, ◌≤◌, ◌==◌, ◌≡◌, ◌≢◌, ==_refl, refl, Bool, true, false, ◌&&◌, ◌||◌, Option,
  none, some, List, [], ◌∷◌, any, ltb, leb, Bool-cases, Option-cases, inl, inr, if◌then◌else◌,
  arith,
}
use hyperplane_rs.Prelude.IdSet.{mem, lookup, insert, put, lookup-put, mem-insert}
use hyperplane_rs.Prelude.Results.{ok, Result-cases}
use hyperplane_rs.Compiler.Ids.{IdMap, StepIds, range_from}
use hyperplane_rs.Compiler.Coalescing.{Coalesced, fold_onto, fold_group}

abbrev pub is_id : ℕ → Option ℕ → Bool
is_id x none = false
is_id x (some y) = x == y

-- `x` is the id of the element at one of the trials.
abbrev pub hits : IdMap → ℕ → List ℕ → ℕ → Bool
hits ids e ts x = any (λ t. is_id x (ids e t)) ts

fold_onto_lem :
    (ids : IdMap) (e kept : ℕ) (ts : List ℕ) (c c' : Coalesced)
    → fold_onto ids e kept ts c ≡ ok c'
    → (x : ℕ)
    → (lookup x c'.remap ≡ (if hits ids e ts x then some kept else lookup x c.remap))
      × (mem x c'.to_remove ≡ (hits ids e ts x || mem x c.to_remove))
unfolding fold_onto
fold_onto_lem ids e kept [] c c' h x = ground arith
fold_onto_lem ids e kept (t ∷ ts) c c' h x = elim (Option-cases (ids e t)) [
  | inl gone ↦ absurd (let clash = rw (gone, fold_onto) at h in cc)
  | inr (a, is) ↦
      let c1 : Coalesced = record {
        remap = put a kept c.remap;
        to_remove = insert a c.to_remove;
      } in
      let rest = fold_onto_lem ids e kept ts c1 c' (rw (is, fold_onto) at h) x in
      rw is (ground (arith, rest, lookup-put x a kept c.remap, mem-insert x a c.to_remove))
]

first_is_not :
    (ids : IdMap) (e s a first : ℕ) → ids e s ≡ some a → is_id a (ids e first) ≡ false → first ≢ s
first_is_not ids e s a first is miss eq =
    let hit : is_id a (ids e first) ≡ true = rw eq (rw is (==_refl a)) in cc

-- Where the id stands at one trial only, a range is hit exactly if it holds that trial.
pub hits-range :
    (ids : IdMap) (e s a k first : ℕ)
    → ids e s ≡ some a
    → ((t : ℕ) → ids e t ≡ some a → t ≡ s)
    → hits ids e (range_from k first) a ≡ (leb first s && ltb s (first + k))
unfolding range_from
hits-range ids e s a zero first is only = ground arith
hits-range ids e s a (suc k) first is only = elim (Bool-cases (is_id a (ids e first))) [
  | inl t ↦ let same : first ≡ s = only first (ground arith) in rw t (ground arith)
  | inr f ↦
      let other : first ≢ s = first_is_not ids e s a first is f in
      rw f (ground (arith, hits-range ids e s a k (first + 1) is only))
]

pub hits_none :
    (ids : IdMap) (e a k first : ℕ)
    → ((t : ℕ) → first ≤ t → is_id a (ids e t) ≡ false)
    → hits ids e (range_from k first) a ≡ false
unfolding range_from
hits_none ids e a zero first h = refl
hits_none ids e a (suc k) first h =
    ground (arith, h first, hits_none ids e a k (first + 1) (λ t le. h t (omega arith)))

module _ (m : StepIds) (e first last : ℕ) (c c' : Coalesced) where
  abbrev deploys_hit : ℕ → Bool
  deploys_hit x = hits m.deploy_id_of e (range_from (last - first) (first + 1)) x

  abbrev teardowns_hit : ℕ → Bool
  teardowns_hit x = hits m.teardown_id_of e (range_from (last - first) first) x

  pub fold_group_lem :
      fold_group m e first last c ≡ ok c'
      → (ka : ℕ) × (kd : ℕ) × (m.deploy_id_of e first ≡ some ka)
        × (m.teardown_id_of e last ≡ some kd)
        × ((x : ℕ)
            → (lookup x c'.remap ≡ (
                if teardowns_hit x
                then some kd
                else if deploys_hit x
                then some ka
                else lookup x c.remap))
              × (mem x c'.to_remove ≡ (teardowns_hit x || (deploys_hit x || mem x c.to_remove))))
  unfolding fold_group
  fold_group_lem h = elim (Option-cases (m.deploy_id_of e first)) [
    | inl gone ↦ absurd (let clash = rw (gone, fold_group) at h in cc)
    | inr (ka, d) ↦ elim (Option-cases (m.teardown_id_of e last)) [
      | inl gone ↦ absurd (let clash = rw (d, gone, fold_group) at h in cc)
      | inr (kd, w) ↦
          let ts = range_from (last - first) (first + 1) in
          elim (Result-cases (fold_onto m.deploy_id_of e ka ts c)) [
            | inr (x, wrong) ↦ absurd (let clash = rw (d, w, wrong, fold_group) at h in cc)
            | inl (c1, right) ↦
                let rest = rw (d, w, right, fold_group) at h in
                (
                  ka,
                  kd,
                  d,
                  w,
                  λ x.
                      let first_fold = fold_onto_lem m.deploy_id_of e ka ts c c1 right x in
                      let second_fold =
                        fold_onto_lem m.teardown_id_of e kd (range_from (last - first) first) c1 c'
                          rest x in
                      ground arith,
                )
          ]
    ]
  ]
