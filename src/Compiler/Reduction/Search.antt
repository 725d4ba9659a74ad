-- ===== src/Compiler/Reduction/Search.antt =====
-- The search of `apply_transitive_reduction`: the paths that it finds, and its fuel.
use hyperplane_rs.Prelude.{
  ℕ, zero, suc, ◌+◌, ◌≤◌, ◌==◌, ◌≡◌, ◌⊎◌, refl, subst, Bool, true, false, not, ◌&&◌, ◌||◌, some,
  List, [], ◌∷◌, ◌++◌, length, length-append, length-reverse, Bool-cases, inl, inr, if◌then◌else◌,
  arith,
}
use mathlib.Core.List.{reverse}
use hyperplane_rs.Prelude.IdSet.{mem, insert, mem-insert, mem-append, mem-reverse}
use hyperplane_rs.Prelude.Distinct.{NoDup}
use hyperplane_rs.Plan.Step.{AtomicStep, id, depends_on}
use hyperplane_rs.Plan.Graph.{ids}
use hyperplane_rs.Plan.Graph.Relax.{deps_at, deps_at_absent, listed_of_dep}
use hyperplane_rs.Compiler.Reduction.{
  entries, others, unseen, outgoing_onto, outgoing, search_from, edge_count, is_redundant,
}

-- A step leads to one that depends on it, at once or through others.
pub data Leads {F : Type 0} (steps : List (AtomicStep F)) (a : ℕ) : ℕ → Type 0 where
  edge : {b : ℕ} → mem a (deps_at steps b) ≡ true → Leads steps a b
  more : {b c : ℕ} → Leads steps a b → mem b (deps_at steps c) ≡ true → Leads steps a c

mem-entries :
    (k i x : ℕ) (deps out : List ℕ)
    → mem x (entries k i deps out) ≡ (mem x out || ((x == i) && mem k deps))
unfolding entries mem
mem-entries k i x [] out = ground arith
mem-entries k i x (d ∷ deps) out = ground (
  arith,
  mem-entries k i x deps (if d == k then out ++ i ∷ [] else out),
  mem-append x out (i ∷ []),
)

pub mem-others : (s x : ℕ) (xs : List ℕ) → mem x (others s xs) ≡ (mem x xs && not (x == s))
unfolding others mem
mem-others s x [] = refl
mem-others s x (y ∷ xs) = ground (arith, mem-others s x xs)

mem-unseen :
    (visited : List ℕ) (x : ℕ) (xs : List ℕ)
    → mem x (unseen visited xs) ≡ (mem x xs && not (mem x visited))
unfolding unseen mem
mem-unseen visited x [] = refl
mem-unseen visited x (y ∷ xs) = ground (arith, mem-unseen visited x xs)

length-unseen-le : (visited xs : List ℕ) → length (unseen visited xs) ≤ length xs
unfolding unseen
length-unseen-le visited [] = omega arith
length-unseen-le visited (x ∷ xs) = ground (arith, length-unseen-le visited xs)

mem_here : (x : ℕ) (ys : List ℕ) → mem x (x ∷ ys) ≡ true
unfolding mem
mem_here x ys = ground arith

differ : (x y : ℕ) → x ≡ y → (x == y) ≡ false → ⊥
differ x y e f = ground arith

mem_later : (x y : ℕ) (ys : List ℕ) → mem x ys ≡ true → mem x (y ∷ ys) ≡ true
unfolding mem
mem_later x y ys h = ground arith

module _ {F : Type 0} where
  pub trans :
      {steps : List (AtomicStep F)} {a b c : ℕ}
      → Leads steps a b
      → Leads steps b c
      → Leads steps a c
  trans l (edge e) = more l e
  trans l (more r e) = more (trans l r) e

  mem-outgoing_onto :
      (k : ℕ) (steps : List (AtomicStep F)) (out : List ℕ) (x : ℕ)
      → NoDup (ids steps)
      → mem x (outgoing_onto k steps out) ≡ (mem x out || mem k (deps_at steps x))
  unfolding outgoing_onto mem
  mem-outgoing_onto k [] out x n = ground arith
  mem-outgoing_onto k (s ∷ steps) out x n = ground (
    arith,
    mem-outgoing_onto k steps (entries k (id s) (depends_on s) out) x n.1,
    mem-entries k (id s) x (depends_on s) out,
    deps_at_absent steps x,
    n.0,
  )

  pub mem-outgoing :
      (k : ℕ) (steps : List (AtomicStep F)) (x : ℕ)
      → NoDup (ids steps)
      → mem x (outgoing k steps) ≡ mem k (deps_at steps x)
  unfolding outgoing mem
  mem-outgoing k steps x n = mem-outgoing_onto k steps [] x n

  -- The entries of `outgoing` that are not visited.
  abbrev weight : List (AtomicStep F) → List ℕ → List ℕ → ℕ
  weight steps visited [] = 0
  weight steps visited (k ∷ ks) =
      (if mem k visited then 0 else length (outgoing k steps)) + weight steps visited ks

  weight-insert-le :
      (steps : List (AtomicStep F)) (x : ℕ) (visited ks : List ℕ)
      → weight steps (insert x visited) ks ≤ weight steps visited ks
  weight-insert-le steps x visited [] = omega arith
  weight-insert-le steps x visited (k ∷ ks) =
      ground (arith, weight-insert-le steps x visited ks, mem-insert k x visited)

  weight-insert :
      (steps : List (AtomicStep F)) (x : ℕ) (visited ks : List ℕ)
      → mem x visited ≡ false
      → mem x ks ≡ true
      → weight steps (insert x visited) ks + length (outgoing x steps) ≤ weight steps visited ks
  unfolding mem
  weight-insert steps x visited [] f m = cc
  weight-insert steps x visited (k ∷ ks) f m = elim (Bool-cases (x == k)) [
    | inl t ↦
        let e : x ≡ k = ground arith in
        let same = subst (λ y. length (outgoing x steps) ≡ length (outgoing y steps)) e refl in
        ground (arith, weight-insert-le steps x visited ks, mem-insert k x visited, same)
    | inr g ↦ ground (arith, weight-insert steps x visited ks, mem-insert k x visited)
  ]

  weight_nil :
      (steps : List (AtomicStep F)) (ks : List ℕ) → weight steps [] ks ≡ edge_count ks steps
  unfolding edge_count mem
  weight_nil steps [] = refl
  weight_nil steps (k ∷ ks) = omega (arith, weight_nil steps ks)

  module _ (steps : List (AtomicStep F)) (distinct : NoDup (ids steps)) (goal : ℕ) where
    -- The stack behind a visit of `cur`.
    abbrev pushed : ℕ → List ℕ → List ℕ → List ℕ
    pushed cur seen stack = reverse (unseen seen (outgoing cur steps)) ++ stack

    pushed_succ :
        (cur x : ℕ) (seen stack : List ℕ)
        → mem x (pushed cur seen stack) ≡ true
        → mem x stack ≡ false
        → mem cur (deps_at steps x) ≡ true
    pushed_succ cur x seen stack m n =
        let next = unseen seen (outgoing cur steps) in
        let a : (mem x (reverse next) || mem x stack) ≡ true =
          rw (mem-append x (reverse next) stack) at m in
        let b : mem x next ≡ true = rw (← mem-reverse x next) (ground arith) in
        ground (arith, mem-unseen seen x (outgoing cur steps), mem-outgoing cur steps x distinct)

    length-pushed :
        (cur : ℕ) (seen stack : List ℕ)
        → length (pushed cur seen stack) ≤ length (outgoing cur steps) + length stack
    length-pushed cur seen stack =
        let next = unseen seen (outgoing cur steps) in
        omega (
          arith,
          length-append (reverse next) stack,
          length-reverse next,
          length-unseen-le seen (outgoing cur steps),
        )

    -- What the search finds is an entry of the stack, or there is a path to it from one.
    abbrev Found : List ℕ → Type 0
    Found stack = (x : ℕ) × (mem x stack ≡ true) × ((x ≡ goal) ⊎ Leads steps x goal)

    search_from-Found :
        (fuel : ℕ) (stack visited : List ℕ)
        → search_from fuel steps goal stack visited ≡ some true
        → Found stack
    unfolding search_from mem
    search_from-Found fuel [] visited h = absurd (ground arith)
    search_from-Found zero (cur ∷ stack) visited h = absurd (ground arith)
    search_from-Found (suc fuel) (cur ∷ stack) visited h = elim (Bool-cases (mem cur visited)) [
      | inl t ↦
          let (x, m, l) = search_from-Found fuel stack visited (rw (t, search_from) at h) in
          (x, ground arith, l)
      | inr f ↦ elim (Bool-cases (cur == goal)) [
        | inl t ↦ (cur, ground arith, inl (ground arith))
        | inr g ↦
            let seen = insert cur visited in
            let next = unseen seen (outgoing cur steps) in
            let (x, m, l) =
              search_from-Found fuel (reverse next ++ stack) seen (rw (f, g, search_from) at h) in
            elim (Bool-cases (mem x stack)) [
              | inl s ↦ (x, mem_later x cur stack s, l)
              | inr n ↦
                  let e = pushed_succ cur x seen stack m n in
                  (
                    cur,
                    mem_here cur stack,
                    inr (elim l [
                      | inl same ↦ edge (subst (λ y. mem cur (deps_at steps y) ≡ true) same e)
                      | inr path ↦ trans (edge e) path
                    ]),
                  )
            ]
      ]
    ]

    search_from_total :
        (fuel : ℕ) (stack visited : List ℕ)
        → ((x : ℕ) → mem x stack ≡ true → mem x (ids steps) ≡ true)
        → length stack + weight steps visited (ids steps) ≤ fuel
        → (b : Bool) × (search_from fuel steps goal stack visited ≡ some b)
    unfolding search_from mem
    search_from_total fuel [] visited l m = (false, refl)
    search_from_total zero (cur ∷ stack) visited l m = absurd (omega arith)
    search_from_total (suc fuel) (cur ∷ stack) visited l m = elim (Bool-cases (mem cur visited)) [
      | inl t ↦
          rw (t, search_from)
            (search_from_total fuel stack visited (λ x e. l x (ground arith)) (omega arith))
      | inr f ↦ elim (Bool-cases (cur == goal)) [
        | inl t ↦ rw (f, t, search_from) (true, refl)
        | inr g ↦
            let seen = insert cur visited in
            let less = weight-insert steps cur visited (ids steps) f (l cur (ground arith)) in
            rw (f, g, search_from)
              (search_from_total fuel (pushed cur seen stack) seen
                (λ x e. elim (Bool-cases (mem x stack)) [
                  | inl s ↦ l x (ground arith)
                  | inr n ↦ listed_of_dep steps x cur (pushed_succ cur x seen stack e n)
                ])
                (omega (arith, length-pushed cur seen stack)))
      ]
    ]

  other_succ :
      (steps : List (AtomicStep F))
      → NoDup (ids steps)
      → (n s x : ℕ) → mem x (reverse (others s (outgoing n steps))) ≡ true
      → (mem n (deps_at steps x) ≡ true) × ((x == s) ≡ false)
  other_succ steps distinct n s x m =
      let a : mem x (others s (outgoing n steps)) ≡ true =
        rw (mem-reverse x (others s (outgoing n steps))) at m in
      ground (arith, mem-others s x (outgoing n steps), mem-outgoing n steps x distinct)

  -- The loop always ends, and what it finds is a path from another successor.
  pub is_redundant-lem :
      (steps : List (AtomicStep F))
      → NoDup (ids steps)
      → (n s : ℕ)
      → (r : Bool) × (is_redundant steps n s ≡ some r)
        × (r ≡ true → (x : ℕ) × (mem n (deps_at steps x) ≡ true) × Leads steps x s)
  unfolding is_redundant
  is_redundant-lem steps distinct n s =
      let succs = others s (outgoing n steps) in
      let listed =
        λ (x : ℕ) (m : mem x (reverse succs) ≡ true). other_succ steps distinct n s x m in
      let fuel = length (reverse succs) + edge_count (ids steps) steps in
      let (r, e) =
        search_from_total steps distinct s fuel (reverse succs) []
          (λ x m. listed_of_dep steps x n (listed x m).0)
          (omega (arith, weight_nil steps (ids steps))) in
      (
        r,
        e,
        λ t.
            let e' : search_from fuel steps s (reverse succs) [] ≡ some true = rw (e, t) refl in
            let (x, m, l) = search_from-Found steps distinct s fuel (reverse succs) [] e' in
            (
              x,
              (listed x m).0,
              elim l [ inl same ↦ absurd (differ x s same (listed x m).1) | inr path ↦ path ],
            ),
      )
