-- ===== src/Patches/Models/Bare.antt =====
-- The changes of a bare unified diff that a model writes, in src/repo_agent/patches.py.
use agent_projects.Prelude.{
  ℕ, String, ◌≡◌, Bool, true, false, Option, none, some, List, [], ◌∷◌, if◌then◌else◌, arith,
  str_eq,
}
use agent_projects.Errors.{Result, ok, and_then}
use agent_projects.Policy.{write, validate}
use agent_projects.Patches.{refuse}
use agent_projects.Patches.Headers.{after_prefix}
use agent_projects.Patches.Validation.{Operation, add, delete, modify, safe_write_path}
use agent_projects.Patches.Validation.Limits.{and_then_ok, writable_lem}
use agent_projects.Patches.Models.{ModelChange, hunks_for, change_for, str_drop, bare_section}
use agent_projects.Patches.Models.Changes.{IsSafe, change_lem, hunks_for_delete, IsSafe-change}

module _ (casefold : String → String) (digit_value : ℕ → Option ℕ) (repr : String → String) where
  pub bare_one :
      (operation : Operation) (message : List String) (o : Option String) (body : List String)
      (c : ModelChange)
      → (elim o as (λ _. Result ModelChange) [
        | none ↦ refuse message
        | some path ↦ and_then (safe_write_path casefold digit_value repr path) λ safe.
            change_for casefold digit_value repr safe operation
              (hunks_for casefold digit_value repr operation body)
      ])
        ≡ ok c
      → IsSafe casefold c
  unfolding refuse
  bare_one operation message none body c parsed = ground arith
  bare_one operation message (some path) body c parsed =
      IsSafe-change casefold digit_value repr path operation
        (hunks_for casefold digit_value repr operation body) c
        (hunks_for_delete casefold digit_value repr operation body) parsed

  pub bare_same :
      (same : Bool) (new_path : String) (body : List String) (c : ModelChange)
      → validate casefold (some new_path) write ≡ ok new_path
      → (elim same as (λ _. Result ModelChange) [
        | false ↦ refuse ("rename and copy patches are not supported" ∷ [])
        | true ↦
            change_for casefold digit_value repr new_path modify
              (hunks_for casefold digit_value repr modify body)
      ])
        ≡ ok c
      → IsSafe casefold c
  unfolding refuse
  bare_same false new_path body c writable parsed = ground arith
  bare_same true new_path body c writable parsed =
      change_lem casefold digit_value repr new_path modify
        (hunks_for casefold digit_value repr modify body) c writable
        (hunks_for_delete casefold digit_value repr modify body) parsed

  pub bare_two :
      (o n : Option String) (body : List String) (c : ModelChange)
      → (elim o as (λ _. Result ModelChange) [
        | none ↦ refuse ("bare unified patch paths are invalid" ∷ [])
        | some old ↦ elim n as (λ _. Result ModelChange) [
          | none ↦ refuse ("bare unified patch paths are invalid" ∷ [])
          | some new ↦ and_then (safe_write_path casefold digit_value repr old) λ old_path.
              and_then (safe_write_path casefold digit_value repr new) λ new_path.
                elim (str_eq old_path new_path) as (λ _. Result ModelChange) [
                  | false ↦ refuse ("rename and copy patches are not supported" ∷ [])
                  | true ↦
                      change_for casefold digit_value repr new_path modify
                        (hunks_for casefold digit_value repr modify body)
                ]
        ]
      ])
        ≡ ok c
      → IsSafe casefold c
  unfolding refuse
  bare_two none n body c parsed = ground arith
  bare_two (some old) none body c parsed = ground arith
  bare_two (some old) (some new) body c parsed =
      let (old_path, _, rest) =
        and_then_ok (safe_write_path casefold digit_value repr old) _ c parsed in
      let (new_path, safe, whole) =
        and_then_ok (safe_write_path casefold digit_value repr new) _ c rest in
      bare_same (str_eq old_path new_path) new_path body c
        (writable_lem casefold digit_value repr new new_path safe) whole

  pub bare_cases :
      (old_null new_null : Bool) (x y z : Result ModelChange) (c : ModelChange)
      → (if old_null then x else if new_null then y else z) ≡ ok c
      → (x ≡ ok c → IsSafe casefold c)
      → (y ≡ ok c → IsSafe casefold c)
      → (z ≡ ok c → IsSafe casefold c)
      → IsSafe casefold c
  bare_cases true new_null x y z c parsed add_case delete_case modify_case = add_case parsed
  bare_cases false true x y z c parsed add_case delete_case modify_case = delete_case parsed
  bare_cases false false x y z c parsed add_case delete_case modify_case = modify_case parsed

  pub bare_lem :
      (section : List String) (c : ModelChange)
      → bare_section casefold digit_value repr section ≡ ok c
      → IsSafe casefold c
  unfolding bare_section refuse
  bare_lem [] c parsed = ground arith
  bare_lem (line ∷ []) c parsed = ground arith
  bare_lem (old_marker ∷ new_marker ∷ body) c parsed =
      let old = str_drop 4 old_marker in
      let new = str_drop 4 new_marker in
      bare_cases (str_eq old "/dev/null") (str_eq new "/dev/null") _ _ _ c parsed
        (bare_one add _ (after_prefix "b/" new) body c)
        (bare_one delete _ (after_prefix "a/" old) body c)
        (bare_two (after_prefix "a/" old) (after_prefix "b/" new) body c)
