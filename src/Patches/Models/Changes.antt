-- ===== src/Patches/Models/Changes.antt =====
-- What a change that src/repo_agent/patches.py parses from a model's patch must be.
use agent_projects.Prelude.{ℕ, String, ◌≡◌, sym, subst, Option, some, List, [], ◌∷◌, arith}
use agent_projects.Errors.{Result, ok, and_then}
use agent_projects.Policy.{write, validate}
use agent_projects.Patches.{ModelHunk}
use agent_projects.Patches.Validation.{Operation, add, delete, modify, safe_write_path}
use agent_projects.Patches.Validation.Limits.{and_then_ok, ok_inj, writable_lem}
use agent_projects.Patches.Models.{ModelChange, in_turn, hunks_for, change_for, editor_hunks}

-- A change whose path may be written, and that has no hunks if it deletes the file.
pub record IsSafe (casefold : String → String) (c : ModelChange) : Type 0 where
  pub writable : validate casefold (some c.path) write ≡ ok c.path
  pub no_hunks : c.operation ≡ delete → c.hunks ≡ []

pub data AllSafe (casefold : String → String) : List ModelChange → Type 0 where
  no_change : AllSafe casefold []
  one_more :
      {c : ModelChange} {changes : List ModelChange}
      → IsSafe casefold c
      → AllSafe casefold changes
      → AllSafe casefold (c ∷ changes)

module _ (casefold : String → String) (digit_value : ℕ → Option ℕ) (repr : String → String) where
  pub change_lem :
      (path : String) (operation : Operation) (hunks : Result (List ModelHunk)) (c : ModelChange)
      → validate casefold (some path) write ≡ ok path
      → ((hs : List ModelHunk) → operation ≡ delete → hunks ≡ ok hs → hs ≡ [])
      → change_for casefold digit_value repr path operation hunks ≡ ok c
      → IsSafe casefold c
  unfolding change_for
  change_lem path operation hunks c writable deletes made =
      let (hs, parsed, one) = and_then_ok hunks _ c made in
      subst (IsSafe casefold) (ok_inj _ c one)
        (record { writable = writable; no_hunks = λ e. deletes hs e parsed })

  pub hunks_for_delete :
      (operation : Operation) (body : List String) (hs : List ModelHunk)
      → operation ≡ delete
      → hunks_for casefold digit_value repr operation body ≡ ok hs
      → hs ≡ []
  unfolding hunks_for
  hunks_for_delete delete body hs e parsed = sym (ok_inj [] hs parsed)
  hunks_for_delete add body hs e parsed = ground arith
  hunks_for_delete modify body hs e parsed = ground arith

  pub editor_hunks_delete :
      (operation : Operation) (body : List String) (hs : List ModelHunk)
      → operation ≡ delete
      → editor_hunks casefold digit_value repr operation body ≡ ok hs
      → hs ≡ []
  unfolding editor_hunks
  editor_hunks_delete delete body hs e parsed = sym (ok_inj [] hs parsed)
  editor_hunks_delete add body hs e parsed = ground arith
  editor_hunks_delete modify body hs e parsed = ground arith

  -- A path that `_safe_write_path` returns, and the change made for it.
  pub IsSafe-change :
      (path : String) (operation : Operation) (hunks : Result (List ModelHunk)) (c : ModelChange)
      → ((hs : List ModelHunk) → operation ≡ delete → hunks ≡ ok hs → hs ≡ [])
      → (and_then
          (safe_write_path casefold digit_value repr path)
          λ safe. change_for casefold digit_value repr safe operation hunks)
        ≡ ok c
      → IsSafe casefold c
  IsSafe-change path operation hunks c deletes made =
      let (safe, accepted, rest) =
        and_then_ok (safe_write_path casefold digit_value repr path) _ c made in
      change_lem safe operation hunks c (writable_lem casefold digit_value repr path safe accepted)
        deletes rest

  pub in_turn_lem :
      (f : List String → Result ModelChange) (sections : List (List String))
      (changes : List ModelChange)
      → ((section : List String) (c : ModelChange) → f section ≡ ok c → IsSafe casefold c)
      → in_turn f sections ≡ ok changes
      → AllSafe casefold changes
  unfolding in_turn
  in_turn_lem f [] changes each parsed =
      subst (AllSafe casefold) (ok_inj [] changes parsed) no_change
  in_turn_lem f (section ∷ sections) changes each parsed =
      let (c, one, rest) = and_then_ok (f section) _ changes parsed in
      let (cs, several, made) = and_then_ok (in_turn f sections) _ changes rest in
      subst (AllSafe casefold) (ok_inj (c ∷ cs) changes made)
        (one_more (each section c one) (in_turn_lem f sections cs each several))
