-- ===== src/Http/Snap/Display.antt =====
-- What the step that displays an analysis holds.
use Prim.Native.String
use tuti_server.Base.{
  String, ◌≡◌, refl, ap, some, ◌⊎◌, inl, inr, true, false, [], ◌∷◌, arith, ◌==◌, Bool-cases,
}
use tuti_server.Errors.{ok, Result-cases}
use tuti_server.Proto.{DisplayAnalysisStep, EvaluatedProblem, get_topic}
use tuti_server.Catalog.Topics.{lessons_and_problems_for_topic}
use tuti_server.Analysis.Draft.{ProblemDraft, problem_to_proto}
use tuti_server.Analysis.Draft.Valid.{IsValidProblem}
use tuti_server.Analysis.Provider.{Image}
use tuti_server.Analysis.Analyzer.{Logs, extract, evaluate, rand_suffix}
use tuti_server.Analysis.Analyzer.Results.{extract_sound, evaluate_sound, HasDistinctIds}
use tuti_server.Http.Server.{Outside, Env}
use tuti_server.Http.Snap.{build_display_analysis, evaluated_step, extracted_step}

module _ {S D : Type 0} (o : Outside S D) (env : Env) where
  -- The step shows one problem, the message of a draft that is valid, with what the catalog has on its topic.
  abbrev pub Shows : DisplayAnalysisStep → EvaluatedProblem → Type 0
  Shows step shown =
      (step.problems_captured ≡ shown ∷ [])
      × ((p : ProblemDraft) × IsValidProblem p
          × (shown.problem
              ≡ some (problem_to_proto p (String.◌++◌ "detected_" (rand_suffix env.rand)))))
      × (step.lessons_to_review
          ≡ (lessons_and_problems_for_topic o.unicode_lower (get_topic shown.problem)).0)
      × (shown.similar_problems
          ≡ (lessons_and_problems_for_topic o.unicode_lower (get_topic shown.problem)).1)
      × HasDistinctIds shown.mistakes

  -- An analysis that succeeds for `check_work` shows one valid problem, with the lessons and the problems
  -- of its topic, and no two mistakes with one id. For another choice it shows no problem at all, or one
  -- such problem with no mistakes.
  pub display_analysis_sound :
      (response_id : String) (img : Image) (logs : Logs) (step : DisplayAnalysisStep)
      → (build_display_analysis o env response_id img logs).0 ≡ ok step
      → ((response_id == "check_work") ≡ true × ((shown : EvaluatedProblem) × Shows step shown))
        ⊎ ((response_id == "check_work") ≡ false
            × ((step.problems_captured ≡ [])
                ⊎ ((shown : EvaluatedProblem) × Shows step shown × (shown.mistakes ≡ []))))
  unfolding build_display_analysis evaluated_step extracted_step
  display_analysis_sound response_id img logs step done =
      elim (Bool-cases (response_id == "check_work")) [
        | inl check ↦
            elim (Result-cases
              (evaluate env.backend o.settings o.prompts o.unmarshal_evaluate (img ∷ []) env.rand
                logs).0) [
                  | inl (r, judged) ↦
                      let (out, called, valid, shown, same, described, distinct) =
                        evaluate_sound env.backend o.settings o.prompts o.unmarshal_evaluate
                          (img ∷ []) env.rand logs r judged in
                      inl (
                        check,
                        (
                          record {
                            problem = some r.problem;
                            mistakes = r.mistakes;
                            similar_problems =
                                (lessons_and_problems_for_topic o.unicode_lower r.problem.topic).1;
                          },
                          (
                            ground arith,
                            (out.problem, valid, ap some shown),
                            ground arith,
                            refl,
                            distinct,
                          ),
                        ),
                      )
                  | inr (e, failed) ↦ ground arith
                ]
        | inr other ↦
            elim (Result-cases
              (extract env.backend o.settings o.prompts o.unmarshal_extract (img ∷ []) env.rand
                logs).0) [
                  | inl (r, judged) ↦
                      elim (extract_sound env.backend o.settings o.prompts o.unmarshal_extract
                        (img ∷ []) env.rand logs r judged) [
                          | inl (empty_page, nothing) ↦ inr (other, inl (ground arith))
                          | inr (p, valid, full, found, called) ↦ inr (
                            other,
                            inr (
                              record {
                                problem = some (
                                    problem_to_proto p
                                      (String.◌++◌ "detected_" (rand_suffix env.rand)));
                                mistakes = [];
                                similar_problems =
                                    (lessons_and_problems_for_topic o.unicode_lower
                                      (problem_to_proto p
                                        (String.◌++◌ "detected_" (rand_suffix env.rand))).topic).1;
                              },
                              (ground arith, (p, valid, refl), ground arith, refl, tt),
                              refl,
                            ),
                          )
                        ]
                  | inr (e, failed) ↦ ground arith
                ]
      ]
