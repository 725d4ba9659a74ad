-- ===== src/Compiler/Coalescing/Group.antt =====
-- The folding of one group of trials in `apply_coalescing`.
use hyperplane_rs.Prelude.{
  ℕ, ◌+◌, ◌-◌, ◌≤◌, ◌==◌, ◌≡◌, ◌≢◌, sym, ap, ◌∙◌, true, false, not, ◌||◌, Option, none, some,
  Bool-cases, inl, inr, if◌then◌else◌, arith, ==_iff,
}
use hyperplane_rs.Prelude.IdSet.{mem, lookup}
use hyperplane_rs.Prelude.Results.{ok}
use hyperplane_rs.Compiler.Ids.{IdMap, StepIds, range_from}
use hyperplane_rs.Compiler.Coalescing.{Coalesced, fold_group}
use hyperplane_rs.Compiler.Coalescing.Folding.{is_id, hits, hits-range, hits_none, fold_group_lem}

-- The id `a` is folded onto `k`; where these are the same, nothing is recorded of it.
abbrev pub Folded : ℕ → ℕ → Coalesced → Coalesced → Type 0
Folded a k c c' =
    (lookup a c'.remap ≡ (if a == k then lookup a c.remap else some k))
    × (mem a c'.to_remove ≡ (not (a == k) || mem a c.to_remove))

abbrev pub Kept : ℕ → Coalesced → Coalesced → Type 0
Kept a c c' = (lookup a c'.remap ≡ lookup a c.remap) × (mem a c'.to_remove ≡ mem a c.to_remove)

-- `a` is the id of the element at the trial `s` and at no other.
pub record StandsAt (ids : IdMap) (e s a : ℕ) : Type 0 where
  pub is_there : ids e s ≡ some a
  pub only : (t : ℕ) → ids e t ≡ some a → t ≡ s

pub is_id→≡ : (x : ℕ) (o : Option ℕ) → is_id x o ≡ true → o ≡ some x
is_id→≡ x none h = cc
is_id→≡ x (some y) h = ap some (ground arith)

pub Folded-Kept : (a k : ℕ) (c c1 c' : Coalesced) → Folded a k c c1 → Kept a c1 c' → Folded a k c c'
Folded-Kept a k c c1 c' f h = ground arith

pub Kept-Folded : (a k : ℕ) (c c1 c' : Coalesced) → Kept a c c1 → Folded a k c1 c' → Folded a k c c'
Kept-Folded a k c c1 c' h f = ground arith

-- Another id stands at another trial.
not_there :
    (ids : IdMap) (e s a t b : ℕ) → StandsAt ids e s a → ids e t ≡ some b → (a == b) ≡ false → t ≢ s
not_there ids e s a t b there d f eq =
    let same : some a ≡ some b = sym there.is_there ∙ ap (ids e) (sym eq) ∙ d in ground arith

pub elsewhere : (ids : IdMap) (e s a u : ℕ) → StandsAt ids e s a → u ≢ s → is_id a (ids e u) ≡ false
elsewhere ids e s a u there other = elim (Bool-cases (is_id a (ids e u))) [
  | inl t ↦ absurd (other (there.only u (is_id→≡ a (ids e u) t)))
  | inr f ↦ f
]

module _ (m : StepIds) (e : ℕ) (first last : ℕ) (c c' : Coalesced) where
  pub fold_group-Kept :
      (a : ℕ)
      → fold_group m e first last c ≡ ok c'
      → hits m.deploy_id_of e (range_from (last - first) (first + 1)) a ≡ false
      → hits m.teardown_id_of e (range_from (last - first) first) a ≡ false
      → Kept a c c'
  fold_group-Kept a h d t =
      let (ka, kd, _, _, eff) = fold_group_lem m e first last c c' h in
      let at_a = eff a in ground arith

  pub fold_group-deploy :
      (s a : ℕ)
      → fold_group m e first last c ≡ ok c'
      → first ≤ s
      → s ≤ last
      → StandsAt m.deploy_id_of e s a
      → ((t : ℕ) → is_id a (m.teardown_id_of e t) ≡ false)
      → (k : ℕ) × (m.deploy_id_of e first ≡ some k) × Folded a k c c'
  fold_group-deploy s a h lo hi there alien =
      let (ka, kd, d, _, eff) = fold_group_lem m e first last c c' h in
      let at_a = eff a in
      let none_hit = hits_none m.teardown_id_of e a (last - first) first (λ t le. alien t) in
      let hit =
        hits-range m.deploy_id_of e s a (last - first) (first + 1) there.is_there there.only in
      elim (Bool-cases (a == ka)) [
        | inl t ↦
            let same : first ≡ s = there.only first (d ∙ ap some (sym ((==_iff a ka).0 t))) in
            (ka, d, rw t (ground arith))
        | inr f ↦
            let other = not_there m.deploy_id_of e s a first ka there d f in
            (ka, d, rw f (ground arith))
      ]

  pub fold_group-teardown :
      (s a : ℕ)
      → fold_group m e first last c ≡ ok c'
      → first ≤ s
      → s ≤ last
      → StandsAt m.teardown_id_of e s a
      → ((t : ℕ) → is_id a (m.deploy_id_of e t) ≡ false)
      → (k : ℕ) × (m.teardown_id_of e last ≡ some k) × Folded a k c c'
  fold_group-teardown s a h lo hi there alien =
      let (ka, kd, _, w, eff) = fold_group_lem m e first last c c' h in
      let at_a = eff a in
      let none_hit = hits_none m.deploy_id_of e a (last - first) (first + 1) (λ t le. alien t) in
      let hit = hits-range m.teardown_id_of e s a (last - first) first there.is_there there.only in
      elim (Bool-cases (a == kd)) [
        | inl t ↦
            let same : last ≡ s = there.only last (w ∙ ap some (sym ((==_iff a kd).0 t))) in
            (kd, w, rw t (ground arith))
        | inr f ↦
            let other = not_there m.teardown_id_of e s a last kd there w f in
            (kd, w, rw f (ground arith))
      ]
