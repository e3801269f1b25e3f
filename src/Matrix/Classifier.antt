-- ===== src/Matrix/Classifier.antt =====
-- routing_matrix/classifier.py: the keyword heuristic.
pub mod Score
pub mod Growth
use Prim.Native.String.{◌++◌ as append}
use routing.Prelude.{
  ℕ, ◌+◌, String, ◌==◌, Bool, true, false, not, ◌&&◌, ◌||◌, Option, none, some, List, [], ◌∷◌, ◌++◌,
  leb, if◌then◌else◌,
}
use routing.Prelude.Text.{codes, lower, contains, same_codes, word_count}
use routing.Matrix.Model.{Tier, standard, advanced, Task}

abbrev pub advanced_keywords : List String
advanced_keywords =
    "refactor" ∷ "multiple files" ∷ "multi-file" ∷ "cross-file" ∷ "architecture" ∷ "migration"
    ∷ "integration" ∷ "refactoring" ∷ "concurrent" ∷ "distributed" ∷ "refactor." ∷ []

abbrev pub advanced_structural : List String
advanced_structural =
    "multiple" ∷ "several" ∷ "across" ∷ "files" ∷ "modules" ∷ "services" ∷ "async" ∷ "thread"
    ∷ "database" ∷ "migrate" ∷ []

abbrev pub advanced_task_types : List String
advanced_task_types =
    "refactor" ∷ "refactoring" ∷ "refactor" ∷ "migration" ∷ "architecture" ∷ "integration"
    ∷ "multi-file" ∷ []

pub record Classification : Type 0 where
  pub tier : Tier
  pub score : ℕ
  pub signal : String

-- `o or ""`
abbrev pub or_empty : Option String → String
or_empty none = ""
or_empty (some s) = s

-- `s in {...}` for a text that is lowered already.
unfoldable pub in_set : List ℕ → List String → Bool
unfolding same_codes codes
in_set s [] = false
in_set s (k ∷ ks) = same_codes s (codes k) || in_set s ks

-- One of the loops `for kw in ...: if kw in prompt_l: score += weight; signals.append(kw)`.
unfoldable pub scan : ℕ → List ℕ → List String → ℕ → List String → ℕ × List String
unfolding contains codes
scan weight prompt [] score signals = (score, signals)
scan weight prompt (kw ∷ kws) score signals =
    let hit = contains prompt (codes kw) in
    scan weight prompt kws (if hit then score + weight else score)
      (if hit then signals ++ (kw ∷ []) else signals)

unfoldable pub is_in : String → List String → Bool
is_in s [] = false
is_in s (t ∷ ts) = t == s || is_in s ts

-- `dict.fromkeys(signals)`: the first occurrences, in order.
unfoldable pub from_keys : List String → List String → List String
unfolding is_in
from_keys seen [] = []
from_keys seen (s ∷ ss) =
    let rest = from_keys (s ∷ seen) ss in
    let later = from_keys seen ss in if is_in s seen then later else s ∷ rest

-- `sep.join(parts)`
unfoldable pub join : String → List String → String
join sep [] = ""
join sep (s ∷ []) = s
join sep (s ∷ t ∷ ss) = append s (append sep (join sep (t ∷ ss)))

abbrev pub is_empty : List String → Bool
is_empty [] = true
is_empty (s ∷ ss) = false

-- The three returns of `classify`, from the lowered prompt, the score and the signals.
unfoldable pub conclude : List ℕ → ℕ → List String → Classification
unfolding from_keys join
conclude prompt score signals =
    if is_empty signals && leb (word_count prompt) 20
    then record { tier = standard; score = 0; signal = "simple, short task" }
    else if leb 3 score
    then record { tier = advanced; score = score; signal = join "; " (from_keys [] signals) }
    else record {
      tier = standard;
      score = score;
      signal = if is_empty signals then "low complexity" else join "; " (from_keys [] signals);
    }

-- The label of the task is scored last.
unfoldable pub score_type : List String → Option String → ℕ × List String → ℕ × List String
unfolding in_set codes
score_type types label (score, signals) =
    if in_set (lower (codes (or_empty label))) types
    then (score + 2, signals ++ (append "task_type=" (or_empty label) ∷ []))
    else (score, signals)

-- `classify`, over the three tables.
unfoldable pub classify_with : List String → List String → List String → Task → Classification
classify_with keywords structural types task =
    let prompt = lower (codes task.prompt) in
    let (s, sigs) = scan 2 prompt keywords 0 [] in
    let (score, signals) = score_type types task.task_type (scan 1 prompt structural s sigs) in
    conclude prompt score signals

unfoldable pub classify : Task → Classification
classify = classify_with advanced_keywords advanced_structural advanced_task_types
