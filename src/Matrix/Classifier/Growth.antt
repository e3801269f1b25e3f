-- ===== src/Matrix/Classifier/Growth.antt =====
-- What a longer prompt does to the classification.
use Prim.Native.String.{◌++◌ as append}
use Prim.Native.Char.{code}
use text.Mathlib.TextLemmas.{nil-append, cons-append}
use mathlib.Core.List.{map-append}
use routing.Prelude.{ℕ, ◌≤◌, String, ◌≡◌, sym, ◌∙◌, ap, true, List, [], ◌∷◌, ◌++◌, arith, length}
use routing.Prelude.Text.{codes, lower, lower_code, contains, starts}
use routing.Matrix.Model.{Task, advanced}
use routing.Matrix.Classifier.{
  advanced_keywords, advanced_structural, advanced_task_types, classify,
}
use routing.Matrix.Classifier.Score.{
  hits, prompt_codes, score_with, score_of, tier_for, classify_by_score,
}

codes-append : (s t : String) → codes (append s t) ≡ codes s ++ codes t
unfolding codes
codes-append String.[] t = rw nil-append
codes-append (String.◌∷◌ c s) t =
    rw cons-append (ap (λ (l : List ℕ). code c ∷ l) (codes-append s t))

starts-append : (s t p : List ℕ) → starts s p ≡ true → starts (s ++ t) p ≡ true
unfolding starts
starts-append s t [] h = ground arith
starts-append [] t (c ∷ p) h = ground arith
starts-append (d ∷ s) t (c ∷ p) h = ground (arith, starts-append s t p)

contains-append : (s t p : List ℕ) → contains s p ≡ true → contains (s ++ t) p ≡ true
unfolding contains
contains-append [] [] p h = h
contains-append [] (c ∷ t) p h = ground (arith, starts-append [] (c ∷ t) p)
contains-append (c ∷ s) t p h = ground (arith, starts-append (c ∷ s) t p, contains-append s t p)

length-hits_append :
    (s t : List ℕ) (kws : List String) → length (hits s kws) ≤ length (hits (s ++ t) kws)
length-hits_append s t [] = omega arith
length-hits_append s t (kw ∷ kws) =
    ground (arith, contains-append s t (codes kw), length-hits_append s t kws)

tier_mono : (m n : ℕ) → m ≤ n → tier_for m ≡ advanced → tier_for n ≡ advanced
tier_mono m n le h = ground arith

-- A longer prompt scores at least as much.
score_with_mono :
    (keywords structural types : List String) (task : Task) (more : String)
    → score_with keywords structural types task
      ≤ score_with keywords structural types (record task { prompt = append task.prompt more })
score_with_mono keywords structural types task more =
    let p = prompt_codes task in
    let q = lower (codes more) in
    rw (codes-append task.prompt more) (
      rw (map-append lower_code (codes task.prompt) (codes more))
        (omega (arith, length-hits_append p q keywords, length-hits_append p q structural)))

-- Text that is added at the end of a prompt never takes an advanced task back to standard.
pub classify-append :
    (task : Task) (more : String)
    → (classify task).tier ≡ advanced
    → (classify (record task { prompt = append task.prompt more })).tier ≡ advanced
unfolding score_of
classify-append task more h =
    let longer = record task { prompt = append task.prompt more } in
    let grows =
      score_with_mono advanced_keywords advanced_structural advanced_task_types task more in
    (classify_by_score longer).1
    ∙ tier_mono (score_of task) (score_of longer) grows (sym (classify_by_score task).1 ∙ h)
