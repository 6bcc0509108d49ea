-- ===== src/Database/Sorting.antt =====
-- `ORDER BY` of src/repo_agent/persistence.py sorts the rows.
use mathlib.Core.List.{Perm}
use mathlib.Core.List.Perm
use agent_projects.Prelude.{◌≡◌, Bool, true, none, List, [], ◌∷◌, Bool-cases, inl, inr, ap, refl}
use agent_projects.Database.{RunEntry, order_by, insert_by, text_le, where_true, status_in}
use agent_projects.Database.TextOrder.{text_le_total}

module _ {A : Type 0} (before : A → A → Bool) where
  insert_by-Perm : (x : A) (xs : List A) → Perm (insert_by before x xs) (x ∷ xs)
  unfolding insert_by
  insert_by-Perm x [] = Perm.refl _
  insert_by-Perm x (y ∷ ys) = elim (Bool-cases (before x y)) [
    | inl first ↦ rw first (Perm.refl _)
    | inr later ↦ rw later (Perm.trans (Perm.cons y (insert_by-Perm x ys)) (Perm.swap x y ys))
  ]

  pub order_by-Perm : (xs : List A) → Perm (order_by before xs) xs
  unfolding order_by
  order_by-Perm [] = Perm.refl _
  order_by-Perm (x ∷ xs) =
      Perm.trans (insert_by-Perm x (order_by before xs)) (Perm.cons x (order_by-Perm xs))

-- Each row was created no later than the next one.
abbrev pub IsChronological : List RunEntry → Type 0
IsChronological [] = Unit {0}
IsChronological (x ∷ []) = Unit {0}
IsChronological (x ∷ y ∷ rows) =
    (text_le x.created_at y.created_at ≡ true) × IsChronological (y ∷ rows)

abbrev earlier : RunEntry → RunEntry → Bool
earlier a b = text_le a.created_at b.created_at

insert_by-IsChronological :
    (x : RunEntry) (rows : List RunEntry)
    → IsChronological rows
    → IsChronological (insert_by earlier x rows)
unfolding insert_by
insert_by-IsChronological x [] sorted = tt
insert_by-IsChronological x (y ∷ []) sorted = elim (Bool-cases (earlier x y)) [
  | inl first ↦ rw first (first, tt)
  | inr later ↦ rw later (text_le_total x.created_at y.created_at later, tt)
]
insert_by-IsChronological x (y ∷ z ∷ rows) sorted =
    let rest = insert_by-IsChronological x (z ∷ rows) sorted.1 in
    elim (Bool-cases (earlier x y)) [
      | inl first ↦ rw first (first, sorted)
      | inr later ↦ elim (Bool-cases (earlier x z)) [
        | inl between ↦
            rw (later, between) (text_le_total x.created_at y.created_at later, (between, sorted.1))
        | inr after ↦ rw (later, after) (sorted.0, rw after at rest)
      ]
    ]

pub order_by-IsChronological : (rows : List RunEntry) → IsChronological (order_by earlier rows)
unfolding order_by
order_by-IsChronological [] = tt
order_by-IsChronological (x ∷ rows) =
    insert_by-IsChronological x (order_by earlier rows) (order_by-IsChronological rows)

pub where_true_any : (rows : List RunEntry) → where_true (status_in none) rows ≡ rows
unfolding where_true status_in
where_true_any [] = refl
where_true_any (x ∷ rows) = ap (λ xs. x ∷ xs) (where_true_any rows)
