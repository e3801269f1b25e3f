-- ===== src/Matrix/Classifier/Score.antt =====
-- The score of routing_matrix/classifier.py, by counting instead of by loops, and the tier by it.
use mathlib.Core.List.{append_assoc, append-nil}
use routing.Prelude.{
  ℕ, ◌+◌, ◌*◌, String, ◌≡◌, refl, ◌∙◌, ap, true, Option, List, [], ◌∷◌, ◌++◌, arith, leb,
  false≢true, length, keep, if◌then◌else◌, Bool-cases, inl, inr,
}
use routing.Prelude.Text.{codes, lower, contains}
use routing.Matrix.Model.{Tier, standard, advanced, Task}
use routing.Matrix.Classifier.{
  advanced_keywords, advanced_structural, advanced_task_types, or_empty, in_set, scan, is_empty,
  conclude, score_type, classify_with, classify,
}

-- The texts of a table that occur in a prompt.
abbrev pub hits : List ℕ → List String → List String
hits prompt = keep (λ kw. contains prompt (codes kw))

abbrev pub prompt_codes : Task → List ℕ
prompt_codes task = lower (codes task.prompt)

abbrev pub type_score : List String → Option String → ℕ
type_score types label = if in_set (lower (codes (or_empty label))) types then 2 else 0

-- Two for each keyword, one for each structural word, two for the label.
abbrev pub score_with : List String → List String → List String → Task → ℕ
score_with keywords structural types task =
    2 * length (hits (prompt_codes task) keywords)
    + length (hits (prompt_codes task) structural)
    + type_score types task.task_type

unfoldable pub score_of : Task → ℕ
score_of = score_with advanced_keywords advanced_structural advanced_task_types

abbrev pub tier_for : ℕ → Tier
tier_for score = if leb 3 score then advanced else standard

-- The loop, from any score and any signals.
pub scan_lem :
    (weight : ℕ) (prompt : List ℕ) (kws : List String) (score : ℕ) (signals : List String)
    → scan weight prompt kws score signals
      ≡ (score + weight * length (hits prompt kws), signals ++ hits prompt kws)
unfolding scan
scan_lem weight prompt [] score signals = ground (arith, append-nil signals)
scan_lem weight prompt (kw ∷ kws) score signals = elim (Bool-cases (contains prompt (codes kw))) [
  | inl hit ↦ rw hit (
      scan_lem weight prompt kws (score + weight) (signals ++ (kw ∷ []))
      ∙ ground (arith, append_assoc signals (kw ∷ []) (hits prompt kws)))
  | inr miss ↦ rw miss (scan_lem weight prompt kws score signals)
]

is_empty-append :
    (xs ys : List String) → is_empty (xs ++ ys) ≡ true → (length xs ≡ 0) × (length ys ≡ 0)
is_empty-append [] [] h = omega arith
is_empty-append [] (y ∷ ys) h = absurd (false≢true h)
is_empty-append (x ∷ xs) ys h = absurd (false≢true h)

conclude_lem :
    (prompt : List ℕ) (score : ℕ) (signals : List String)
    → (is_empty signals ≡ true → score ≡ 0)
    → ((conclude prompt score signals).score ≡ score)
      × ((conclude prompt score signals).tier ≡ tier_for score)
unfolding conclude
conclude_lem prompt score signals h = (ground arith, ground arith)

score_type_lem :
    (types : List String) (label : Option String) (ks ss : List String)
    → let r = score_type types label (2 * length ks + length ss, ks ++ ss) in
      (r.0 ≡ 2 * length ks + length ss + type_score types label) × (is_empty r.1 ≡ true → r.0 ≡ 0)
unfolding score_type
score_type_lem types label ks ss =
    elim (Bool-cases (in_set (lower (codes (or_empty label))) types)) [
      | inl hit ↦ rw hit (refl, λ e. absurd (omega (arith, is_empty-append (ks ++ ss) _ e)))
      | inr miss ↦ rw miss (omega arith, λ e. omega (arith, is_empty-append ks ss e))
    ]

module _ (keywords structural types : List String) (task : Task) where
  classify_with_lem :
      ((classify_with keywords structural types task).score
        ≡ score_with keywords structural types task)
      × ((classify_with keywords structural types task).tier
          ≡ tier_for (score_with keywords structural types task))
  unfolding classify_with
  classify_with_lem =
      let p = prompt_codes task in
      let ks = hits p keywords in
      let ss = hits p structural in
      let same : 0 + 2 * length ks + 1 * length ss ≡ 2 * length ks + length ss = omega arith in
      let (score, zero_score) = score_type_lem types task.task_type ks ss in
      let (same_score, same_tier) = conclude_lem p _ _ zero_score in
      rw (scan_lem 2 p keywords 0 []) (
        rw (scan_lem 1 p structural (0 + 2 * length ks) ks)
          (rw same (same_score ∙ score, same_tier ∙ ap tier_for score)))

-- The classifier reports the number of hits, weighted by two for a keyword, one for a structural
-- word and two for the label, and answers advanced exactly when that number is at least 3, else
-- standard; so it never answers frontier.
pub classify_by_score :
    (task : Task)
    → ((classify task).score ≡ score_of task) × ((classify task).tier ≡ tier_for (score_of task))
unfolding classify score_of
classify_by_score task =
    classify_with_lem advanced_keywords advanced_structural advanced_task_types task
