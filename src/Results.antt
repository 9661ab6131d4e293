-- ===== src/Results.antt =====
-- The result types of skate/containers/abstract_list.h. An iterator pair [first, last) is the list
-- of what is left to read, and an output iterator is the list of what has been written.

pub data ResultType : Type 0 where
  success : ResultType
  failure : ResultType

unfoldable pub merge_results : ResultType → ResultType → ResultType
merge_results success success = success
merge_results success failure = failure
merge_results failure b = failure

pub record ParsingResult {ℓ κ} (I : Type ℓ) (O : Type κ) : Type (ℓ ⊔ κ) where
  pub input : I
  pub output : O
  pub result : ResultType

pub record InputResult {ℓ} (I : Type ℓ) : Type ℓ where
  pub input : I
  pub result : ResultType

pub record OutputResult {ℓ} (O : Type ℓ) : Type ℓ where
  pub output : O
  pub result : ResultType
