-- ===== src/Database/Listing.antt =====
-- What holds of the runs that `list` of src/repo_agent/persistence.py returns.
use agent_projects.Prelude.{
  String, ◌≡◌, Bool, true, some, List, [], ◌∷◌, map, any, Bool-cases, inl, inr,
}
use agent_projects.Errors.{gets}
use agent_projects.Hoare.{Hoare}
use agent_projects.RunModels.{RunRecord, PublicRunStatus, status_eq}
use agent_projects.Database.{list, order_by, insert_by, where_true, status_in}
use agent_projects.Database.Holding.{Fits, Every, Holds}

module _ {A : Type 0} (P : A → Type 0) where
  Every-where_true :
      (p : A → Bool) (xs : List A) → Every P xs → Every (λ x. P x × (p x ≡ true)) (where_true p xs)
  unfolding where_true
  Every-where_true p [] all = tt
  Every-where_true p (x ∷ xs) all = elim (Bool-cases (p x)) [
    | inl here ↦ rw here ((all.0, here), Every-where_true p xs all.1)
    | inr out ↦ rw out (Every-where_true p xs all.1)
  ]

  Every-insert_by :
      (before : A → A → Bool) (x : A) (xs : List A)
      → P x
      → Every P xs
      → Every P (insert_by before x xs)
  unfolding insert_by
  Every-insert_by before x [] px all = (px, tt)
  Every-insert_by before x (y ∷ ys) px all = elim (Bool-cases (before x y)) [
    | inl first ↦ rw first (px, all)
    | inr later ↦ rw later (all.0, Every-insert_by before x ys px all.1)
  ]

  Every-order_by : (before : A → A → Bool) (xs : List A) → Every P xs → Every P (order_by before xs)
  unfolding order_by
  Every-order_by before [] all = tt
  Every-order_by before (x ∷ xs) all =
      Every-insert_by before x (order_by before xs) all.0 (Every-order_by before xs all.1)

Every-map :
    {A B : Type 0} (P : B → Type 0) (f : A → B) (xs : List A)
    → Every (λ x. P (f x)) xs
    → Every P (map f xs)
Every-map P f [] all = tt
Every-map P f (x ∷ xs) all = (all.0, Every-map P f xs all.1)

-- What a listed record is.
abbrev pub Listed : String → (PublicRunStatus → Type 0) → List PublicRunStatus → RunRecord → Type 0
Listed run_id C statuses run = Fits run_id C run × (any (status_eq run.status) statuses ≡ true)

module _ {run_id : String} {C : PublicRunStatus → Type 0} where
  pub Holds-list :
      (statuses : List PublicRunStatus)
      → Hoare
          (Holds run_id C)
          (list (some statuses))
          (λ runs db. Holds run_id C db × Every (Listed run_id C statuses) runs)
          (Holds run_id C)
  unfolding list gets status_in
  Holds-list statuses = record {
    at = λ db v. (
      v,
      Every-map (Listed run_id C statuses) (λ e. e.run) _
          (Every-order_by (λ e. Listed run_id C statuses e.run) _ _
            (Every-where_true (λ e. Fits run_id C e.run) _ db.entries v.every)),
    );
  }
