-- ===== src/Analysis/Analyzer/Results.antt =====
-- What an accepted judgment holds.
use Prim.Native.String
use text.Mathlib.TextLemmas.{append_cancel_left}
use tuti_server.Base.{
  ℕ, ◌+◌, ◌<◌, String, ◌≡◌, ◌≢◌, ◌⊎◌, refl, inl, inr, true, false, List, [], ◌∷◌, none, some, arith,
  All, itoa, itoa_injective, Bool-cases,
}
use tuti_server.Errors.{Result, ok, Result-cases}
use tuti_server.Proto.{Mistake}
use tuti_server.Analysis.Draft.{
  MistakeDraft, ProblemDraft, ExtractOutput, EvaluateOutput, problem_to_proto, mistake_to_proto,
  validate_extract, validate_evaluate,
}
use tuti_server.Analysis.Draft.Valid.{IsValidProblem}
use tuti_server.Analysis.Draft.Outputs.{IsDescribed, validate_extract_iff, validate_evaluate_iff}
use tuti_server.Analysis.Provider.{Bytes, Image, Provider}
use tuti_server.Analysis.Analyzer.{
  ExtractResult, EvaluateResult, Settings, Logs, Prompts, mistake_id, number_mistakes, call,
  extract, evaluate, rand_suffix, extract_tool_name, evaluate_tool_name,
}

mistake_id_injective : (p : String) (i j : ℕ) → mistake_id p i ≡ mistake_id p j → i ≡ j
mistake_id_injective p i j e = omega (
  arith,
  itoa_injective (i + 1) (j + 1)
      (append_cancel_left "_m" (itoa (i + 1)) (itoa (j + 1)) (append_cancel_left p _ _ e)),
)

-- No two mistakes of the list have one id.
abbrev pub HasDistinctIds : List Mistake → Type 0
HasDistinctIds [] = Unit
HasDistinctIds (m ∷ ms) = All (λ n. m.id ≢ n.id) ms × HasDistinctIds ms

later_ids :
    (p : String) (k i : ℕ) (ms : List MistakeDraft)
    → k < i
    → All (λ (n : Mistake). mistake_id p k ≢ n.id) (number_mistakes p i ms)
unfolding number_mistakes mistake_to_proto
later_ids p k i [] h = tt
later_ids p k i (m ∷ ms) h =
    (λ e. omega (arith, mistake_id_injective p k i e), later_ids p k (i + 1) ms (omega arith))

number_mistakes-HasDistinctIds :
    (p : String) (i : ℕ) (ms : List MistakeDraft) → HasDistinctIds (number_mistakes p i ms)
unfolding number_mistakes mistake_to_proto
number_mistakes-HasDistinctIds p i [] = tt
number_mistakes-HasDistinctIds p i (m ∷ ms) =
    (later_ids p i (i + 1) ms (omega arith), number_mistakes-HasDistinctIds p (i + 1) ms)

-- The messages say what the drafts say, in order.
abbrev pub SameMistakes : List Mistake → List MistakeDraft → Type 0
SameMistakes [] [] = Unit
SameMistakes (m ∷ ms) (d ∷ ds) =
    (m.description ≡ d.description) × (m.step_reference ≡ d.step_reference) × SameMistakes ms ds
SameMistakes [] (d ∷ ds) = ⊥
SameMistakes (m ∷ ms) [] = ⊥

number_mistakes-SameMistakes :
    (p : String) (i : ℕ) (ms : List MistakeDraft) → SameMistakes (number_mistakes p i ms) ms
unfolding number_mistakes mistake_to_proto
number_mistakes-SameMistakes p i [] = tt
number_mistakes-SameMistakes p i (m ∷ ms) = (refl, refl, number_mistakes-SameMistakes p (i + 1) ms)

module _ (backend : Provider) (a : Settings) (prompts : Prompts) where
  -- An Extract that succeeds reports a blank page with no problem, or the message of a valid problem,
  -- which is what the model reported.
  pub extract_sound :
      (unmarshal : Bytes → Result ExtractOutput) (images : List Image) (rand : Result Bytes)
      (logs : Logs) (r : ExtractResult)
      → (extract backend a prompts unmarshal images rand logs).0 ≡ ok r
      → ((r.blank ≡ true) × (r.problem ≡ none))
        ⊎ ((p : ProblemDraft) × IsValidProblem p
            × (r.blank ≡ false)
            × (r.problem ≡ some (problem_to_proto p (String.◌++◌ "detected_" (rand_suffix rand))))
            × ((call backend a prompts images prompts.extract extract_tool_name unmarshal logs).0
                ≡ ok (record { blank = false; problem = some p })))
  unfolding extract
  extract_sound unmarshal images rand logs r done =
      elim (Result-cases
        (call backend a prompts images prompts.extract extract_tool_name unmarshal logs).0) [
          | inl (out, called) ↦ elim (Result-cases (validate_extract out)) [
            | inl (u, valid) ↦ elim ((validate_extract_iff out).0 (ground arith)) [
              | inl b ↦ inl (ground arith, ground arith)
              | inr (p, found, v) ↦ elim (Bool-cases out.blank) [
                | inl b ↦ inl (ground arith, ground arith)
                | inr w ↦ inr (p, v, ground arith, ground arith, ground arith)
              ]
            ]
            | inr (e, refused) ↦ ground arith
          ]
          | inr (e, failed) ↦ ground arith
        ]

  -- An Evaluate that succeeds reports the message of a valid problem and every mistake that the model
  -- reported, in order, each with a description and no two with one id.
  pub evaluate_sound :
      (unmarshal : Bytes → Result EvaluateOutput) (images : List Image) (rand : Result Bytes)
      (logs : Logs) (r : EvaluateResult)
      → (evaluate backend a prompts unmarshal images rand logs).0 ≡ ok r
      → (out : EvaluateOutput) × ((call backend a prompts images prompts.evaluate evaluate_tool_name
            unmarshal logs).0
          ≡ ok out)
        × IsValidProblem out.problem
        × (r.problem ≡ problem_to_proto out.problem (String.◌++◌ "detected_" (rand_suffix rand)))
        × SameMistakes r.mistakes out.mistakes
        × All IsDescribed out.mistakes
        × HasDistinctIds r.mistakes
  unfolding evaluate
  evaluate_sound unmarshal images rand logs r done =
      elim (Result-cases
        (call backend a prompts images prompts.evaluate evaluate_tool_name unmarshal logs).0) [
          | inl (out, called) ↦ elim (Result-cases (validate_evaluate out)) [
            | inl (u, valid) ↦
                let id : String = String.◌++◌ "detected_" (rand_suffix rand) in
                let (v, described) = (validate_evaluate_iff out).0 (ground arith) in
                let listed : r.mistakes ≡ number_mistakes id 0 out.mistakes = ground arith in
                (
                  out,
                  called,
                  v,
                  ground arith,
                  rw listed (number_mistakes-SameMistakes id 0 out.mistakes),
                  described,
                  rw listed (number_mistakes-HasDistinctIds id 0 out.mistakes),
                )
            | inr (e, refused) ↦ ground arith
          ]
          | inr (e, failed) ↦ ground arith
        ]
