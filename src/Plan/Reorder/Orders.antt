-- ===== src/Plan/Reorder/Orders.antt =====
-- What `with_axes_reordered` gives for an order of the axes' names.
use hyperplane_rs.Prelude.{
  ℕ, ◌==◌, ◌≡◌, refl, sym, ap, ap₂, ◌∙◌, Bool, true, false, not, ◌&&◌, none, some, List, [], ◌∷◌,
  all, any, length, length-map, Bool-cases, inl, inr, arith, ◌⊎◌,
}
use hyperplane_rs.Prelude.IdSet.{mem, insert, mem-insert}
use hyperplane_rs.Prelude.Distinct.{NoDup, subset_of_length}
use hyperplane_rs.Prelude.Results.{ok, err}
use hyperplane_rs.Plan.Axis.{Axis}
use hyperplane_rs.Plan.Elements.{TestPlan}
use hyperplane_rs.Plan.Validation.WellFormed.{distinct, axis_names}
use hyperplane_rs.Plan.Reorder.{
  invalid_axis_order, axis_named, order_accepted, pick_axes, with_axes_reordered,
}

-- As many names as there are axes, none twice, each of an axis.
abbrev pub is_order : List (Axis ℕ) → List ℕ → Bool
is_order axes order =
    (length order == length axes) && (distinct order && all (λ n. mem n (axis_names axes)) order)

distinct→NoDup : (xs : List ℕ) → distinct xs ≡ true → NoDup xs
distinct→NoDup [] h = tt
distinct→NoDup (x ∷ xs) h = (ground arith, distinct→NoDup xs (ground arith))

abbrev unseen : List ℕ → List ℕ → Bool
unseen seen = all (λ n. not (mem n seen))

unseen-insert :
    (x : ℕ) (seen xs : List ℕ) → unseen (insert x seen) xs ≡ (not (mem x xs) && unseen seen xs)
unfolding mem
unseen-insert x seen [] = refl
unseen-insert x seen (y ∷ xs) = ground (arith, unseen-insert x seen xs, mem-insert y x seen)

mem-axis_names :
    (n : ℕ) (axes : List (Axis ℕ)) → any (λ a. a.name == n) axes ≡ mem n (axis_names axes)
unfolding mem
mem-axis_names n [] = refl
mem-axis_names n (a ∷ axes) = ground (arith, mem-axis_names n axes)

order_accepted_lem :
    (axes : List (Axis ℕ)) (seen order : List ℕ)
    → order_accepted axes seen order
      ≡ (distinct order && unseen seen order && all (λ n. mem n (axis_names axes)) order)
unfolding order_accepted
order_accepted_lem axes seen [] = refl
order_accepted_lem axes seen (n ∷ order) = ground (
  arith,
  order_accepted_lem axes (insert n seen) order,
  unseen-insert n seen order,
  mem-axis_names n axes,
)

axis_named_lem :
    (n : ℕ) (axes : List (Axis ℕ))
    → mem n (axis_names axes) ≡ true
    → (a : Axis ℕ) × (axis_named n axes ≡ some a) × (a.name ≡ n)
unfolding axis_named mem
axis_named_lem n [] h = cc
axis_named_lem n (a ∷ axes) h = elim (Bool-cases (a.name == n)) [
  | inl t ↦ (a, rw t refl, ground arith)
  | inr f ↦ let (b, found, is) = axis_named_lem n axes (ground arith) in (b, rw f found, is)
]

not_named :
    (n : ℕ) (axes : List (Axis ℕ)) → mem n (axis_names axes) ≡ false → axis_named n axes ≡ none
unfolding axis_named mem
not_named n [] h = refl
not_named n (a ∷ axes) h = ground (arith, not_named n axes)

-- What `pick_axes` finds.
pick_axes_lem :
    (axes : List (Axis ℕ)) (order : List ℕ)
    → all (λ n. mem n (axis_names axes)) order ≡ true
    → (picked : List (Axis ℕ)) × (pick_axes axes order ≡ some picked)
      × (axis_names picked ≡ order)
      × ((n : ℕ) → mem n order ≡ true → axis_named n picked ≡ axis_named n axes)
unfolding pick_axes mem axis_named
pick_axes_lem axes [] h = ([], refl, refl, λ n m. cc)
pick_axes_lem axes (x ∷ order) h =
    let (a, found, is) = axis_named_lem x axes (ground arith) in
    let (rest, picked, names_are, same) = pick_axes_lem axes order (ground arith) in
    (
      a ∷ rest,
      rw (found, picked) refl,
      ap₂ (◌∷◌) is names_are,
      λ n m. elim (Bool-cases (a.name == n)) [
        | inl t ↦ let at : x ≡ n = ground arith in rw t (sym found ∙ ap (λ y. axis_named y axes) at)
        | inr f ↦ rw f (same n (ground arith))
      ],
    )

nothing_seen : (xs : List ℕ) → unseen [] xs ≡ true
unfolding mem
nothing_seen [] = refl
nothing_seen (x ∷ xs) = nothing_seen xs

all-mem :
    (ys xs : List ℕ) → all (λ x. mem x ys) xs ≡ true → (x : ℕ) → mem x xs ≡ true → mem x ys ≡ true
unfolding mem
all-mem ys [] h x m = cc
all-mem ys (y ∷ xs) h x m = elim (Bool-cases (x == y)) [
  | inl t ↦ let same : x ≡ y = ground arith in ap (λ z. mem z ys) same ∙ ground arith
  | inr f ↦ all-mem ys xs (ground arith) x (ground arith)
]

-- With as many names as axes, the axis of every name is the same.
same_axes :
    (axes picked : List (Axis ℕ)) (order : List ℕ)
    → distinct order ≡ true
    → (length order == length axes) ≡ true
    → all (λ n. mem n (axis_names axes)) order ≡ true
    → axis_names picked ≡ order
    → ((n : ℕ) → mem n order ≡ true → axis_named n picked ≡ axis_named n axes)
    → (n : ℕ) → axis_named n picked ≡ axis_named n axes
same_axes axes picked order d long known names_are same n = elim (Bool-cases (mem n order)) [
  | inl t ↦ same n t
  | inr f ↦
      let inside =
        subset_of_length order (axis_names axes) (distinct→NoDup order d)
          (all-mem (axis_names axes) order known)
          (let same_length : length order ≡ length axes = ground arith in
            omega (arith, length-map axes (λ (a : Axis ℕ). a.name)))
          n in
      not_named n picked (ap (mem n) names_are ∙ f)
      ∙ sym (not_named n axes (ground (arith, inside)))
]

-- A list of names that has as many names as the plan has axes, none twice and each of an axis, is
-- accepted: `with_axes_reordered` gives the plan the new id and the axes in that order, under each
-- name the same axis as before. For every other list it returns an error. It never panics.
pub with_axes_reordered_cases :
    (plan : TestPlan) (order : List ℕ) (new_id : ℕ)
    → ((is_order plan.axes order ≡ true)
        × (axes : List (Axis ℕ)) × (with_axes_reordered plan order new_id
            ≡ some (ok (record plan { id = new_id; axes = axes })))
        × (axis_names axes ≡ order)
        × ((n : ℕ) → axis_named n axes ≡ axis_named n plan.axes))
      ⊎ ((is_order plan.axes order ≡ false)
          × (with_axes_reordered plan order new_id ≡ some (err invalid_axis_order)))
unfolding with_axes_reordered
with_axes_reordered_cases plan order new_id =
    let accepted = order_accepted_lem plan.axes [] order in
    let first = nothing_seen order in
    elim (Bool-cases (is_order plan.axes order)) [
      | inl h ↦
          let long : (length order == length plan.axes) ≡ true = ground arith in
          let known : all (λ n. mem n (axis_names plan.axes)) order ≡ true = ground arith in
          let d : distinct order ≡ true = ground arith in
          let all_right : order_accepted plan.axes [] order ≡ true = ground arith in
          let (axes, picked, names_are, same) = pick_axes_lem plan.axes order known in
          inl (
            h,
            axes,
            rw (long, all_right, picked, with_axes_reordered) refl,
            names_are,
            same_axes plan.axes axes order d long known names_are same,
          )
      | inr h ↦ inr (
        h,
        elim (Bool-cases (length order == length plan.axes)) [
          | inr f ↦ rw (f, with_axes_reordered) refl
          | inl long ↦
              let refused : order_accepted plan.axes [] order ≡ false = ground arith in
              rw (long, refused, with_axes_reordered) refl
        ],
      )
    ]
