-- ===== src/Orchestrator/Files/Sizes.antt =====
-- approval.go, `recordTooBig` and `recordBytes`: whether the entries that a decision writes fit the chain.
-- `quoted` is the length of a path's JSON.
use st_air_case.Prelude.{
  ℕ, ◌+◌, String, Option, none, some, List, [], ◌∷◌, ◌++◌, map, ltb, if◌then◌else◌,
}
use st_air_case.Orchestrator.Files.{Approvals, ApprovedFile, FileMap, entries}
use st_air_case.Chain.{max_payload}

-- Which of the two entries would be too large, and its bytes.
pub data Oversized : Type 0 where
  decision_too_large review_too_large : ℕ → Oversized

abbrev allowance : ℕ
allowance = 600

abbrev pub paths_in : FileMap → List String
paths_in m = map (λ (e : String × ApprovedFile). e.0) (entries m)

module _ (quoted : String → ℕ) where
  -- A path with its digest: `"path":"<digest>",`.
  entry_bytes : String → ℕ
  entry_bytes p = quoted p + 1 + 66 + 1

  unfoldable pub decision_bytes : List String → ℕ
  unfolding entry_bytes
  decision_bytes [] = allowance
  decision_bytes (p ∷ ps) = entry_bytes p + quoted p + 1 + decision_bytes ps

  unfoldable pub review_bytes : List String → ℕ
  unfolding entry_bytes
  review_bytes [] = allowance
  review_bytes (p ∷ ps) = entry_bytes p + review_bytes ps

  -- The proposed paths, and those approved before that are not proposed again.
  unfoldable pub record_too_big : Approvals → FileMap → Option Oversized
  unfolding decision_bytes review_bytes entries
  record_too_big a next =
      let decision = decision_bytes (paths_in next) in
      let review = review_bytes (paths_in (next ++ a.files)) in
      if ltb max_payload decision
      then some (decision_too_large decision)
      else if ltb max_payload review
      then some (review_too_large review)
      else none
