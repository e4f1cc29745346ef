-- ===== src/Tests/Judgments.antt =====
-- Runs of the validation, of the two judgments and of the catalog.
use Prim.Native.String
use Prim.Native.String.{char_at}
use Prim.Native.Char.{Char}
use tuti_server.Base.{
  pos, ◌≡◌, ◌≢◌, ◌↔◌, ◌⊎◌, refl, true, false, [], ◌∷◌, some, none, encode_hex, All, map, is_some,
}
use tuti_server.Errors.{ok}
use tuti_server.Proto.{unspecified, blocks}
use tuti_server.Analysis.Draft.{
  BlockDraft, StepDraft, ProblemDraft, MistakeDraft, ExtractOutput, EvaluateOutput, validate_block,
  validate_content, validate_step, validate_statement, validate_solution, validate_problem,
  validate_mistake, validate_mistakes, validate_extract, validate_evaluate, problem_to_proto,
}
use tuti_server.Analysis.Draft.Valid.{IsValidProblem, IsOk, validate_problem_iff}
use tuti_server.Analysis.Draft.Outputs.{
  IsDescribed, validate_extract_iff, problem_to_proto_shows, ShowsContent, ShowsSteps,
}
use tuti_server.Analysis.Provider.{Image, Provider}
use tuti_server.Analysis.Analyzer.{
  ExtractResult, EvaluateResult, Settings, Prompts, extract, evaluate, call, log_call, log_to_file,
  write_dev_log, rand_suffix, number_mistakes, extract_tool_name, evaluate_tool_name,
}
use tuti_server.Analysis.Analyzer.Results.{
  extract_sound, evaluate_sound, SameMistakes, HasDistinctIds,
}
use tuti_server.Catalog.Topics.{lessons_and_problems_for_topic, group_for, problems}
use tuti_server.Catalog.Lessons.{lessons, get_lesson}
use tuti_server.Catalog.Bank.{quadratic_problem}
use tuti_server.Catalog.Topics.Laws.{topic_content_found}
use tuti_server.Catalog.Served.{Answers, get_lesson-Answers, NumberedFrom, problems_consistent}

judgments_run : Unit {0}
unfolding validate_problem validate_statement validate_solution validate_step validate_content
    validate_block validate_mistake validate_mistakes validate_extract validate_evaluate extract
    evaluate call log_call log_to_file write_dev_log rand_suffix encode_hex
judgments_run = tt

abbrev sentence : BlockDraft
sentence = record { kind = "text"; text = "Solve it."; expression = ""; hint = "" }

abbrev only_step : StepDraft
only_step = record { step_number = pos 1; label = "Divide"; content = sentence ∷ [] }

abbrev pub draft : ProblemDraft
draft = record {
  title = "Halves";
  topic = "algebra";
  difficulty = "easy";
  statement = sentence ∷ [];
  hints = [];
  solution = only_step ∷ [];
}

draft_accepted : IsOk (validate_problem draft)
unfolding judgments_run
draft_accepted = refl

validate_problem_iff_example : IsOk (validate_problem draft) ↔ IsValidProblem draft
validate_problem_iff_example = validate_problem_iff draft

abbrev slip : MistakeDraft
slip = record { description = "Wrong sign"; step_reference = "1" }

abbrev work : EvaluateOutput
work = record { problem = draft; mistakes = slip ∷ slip ∷ [] }

abbrev page : ExtractOutput
page = record { blank = false; problem = some draft }

validate_extract_iff_example :
    IsOk (validate_extract page)
    ↔ ((page.blank ≡ true) ⊎ ((p : ProblemDraft) × (page.problem ≡ some p) × IsValidProblem p))
validate_extract_iff_example = validate_extract_iff page

problem_to_proto_shows_example :
    ((problem_to_proto draft "detected_01").difficulty ≢ unspecified)
    × ShowsContent (blocks (problem_to_proto draft "detected_01").statement) (sentence ∷ [])
    × ShowsSteps (problem_to_proto draft "detected_01").solution (only_step ∷ [])
problem_to_proto_shows_example =
    problem_to_proto_shows draft "detected_01" ((validate_problem_iff draft).0 draft_accepted)

abbrev pub model : Provider
model = record { call_structured = λ req. ok (1 ∷ []); call_text = λ text limit. ok "hello" }

abbrev pub settings : Settings
settings = record { has_logger = true; dev_log_dir = ""; error_log_dir = "errors" }

abbrev pub prompts : Prompts
prompts = record { system = "s"; extract = "x"; evaluate = "e" }

abbrev image : Image
image = record { bytes = 7 ∷ []; content_type = "image/png" }

abbrev extracted : ExtractResult
extracted = record { blank = false; problem = some (problem_to_proto draft "detected_01") }

extract_done :
    (extract model settings prompts (λ b. ok page) (image ∷ []) (ok (1 ∷ [])) []).0 ≡ ok extracted
unfolding judgments_run
extract_done = refl

extract_sound_example :
    ((extracted.blank ≡ true) × (extracted.problem ≡ none))
    ⊎ ((p : ProblemDraft) × IsValidProblem p
        × (extracted.blank ≡ false)
        × (extracted.problem
            ≡ some (problem_to_proto p (String.◌++◌ "detected_" (rand_suffix (ok (1 ∷ []))))))
        × ((call model settings prompts
              (image ∷ [])
              prompts.extract
              extract_tool_name
              (λ b. ok page)
              []).0
            ≡ ok (record { blank = false; problem = some p })))
extract_sound_example =
    extract_sound model settings prompts (λ b. ok page) (image ∷ []) (ok (1 ∷ [])) [] extracted
      extract_done

abbrev evaluated : EvaluateResult
evaluated = record {
  problem = problem_to_proto draft "detected_01";
  mistakes = number_mistakes "detected_01" 0 (slip ∷ slip ∷ []);
}

evaluate_done :
    (evaluate model settings prompts (λ b. ok work) (image ∷ []) (ok (1 ∷ [])) []).0 ≡ ok evaluated
unfolding judgments_run
evaluate_done = refl

evaluate_sound_example :
    (out : EvaluateOutput) × ((call model settings prompts
        (image ∷ [])
        prompts.evaluate
        evaluate_tool_name
        (λ b. ok work)
        []).0
      ≡ ok out)
    × IsValidProblem out.problem
    × (evaluated.problem
        ≡ problem_to_proto out.problem (String.◌++◌ "detected_" (rand_suffix (ok (1 ∷ [])))))
    × SameMistakes evaluated.mistakes out.mistakes
    × All IsDescribed out.mistakes
    × HasDistinctIds evaluated.mistakes
evaluate_sound_example =
    evaluate_sound model settings prompts (λ b. ok work) (image ∷ []) (ok (1 ∷ [])) [] evaluated
      evaluate_done

abbrev pub same_char : Char → Char
same_char c = c

topic_content_found_example :
    ((lessons_and_problems_for_topic same_char "Geometry").0 ≢ [])
    × (map (λ r. r.lesson_id) (lessons_and_problems_for_topic same_char "Geometry").0
        ≡ (group_for same_char "Geometry").lesson_ids)
    × (map (λ p. p.id) (lessons_and_problems_for_topic same_char "Geometry").1
        ≡ (group_for same_char "Geometry").problem_ids)
    × All (λ id. lessons id ≢ none) (group_for same_char "Geometry").lesson_ids
topic_content_found_example = topic_content_found same_char "Geometry"

abbrev space : Char
space = char_at " " 0

get_lesson-Answers_example :
    Answers "linear_equations" "es"
      (is_some (lessons "linear_equations"))
      (get_lesson "linear_equations" "es")
get_lesson-Answers_example = get_lesson-Answers "linear_equations" "es"

quadratic_listed : problems "prob_quad_1" ≡ some quadratic_problem
unfolding problems
quadratic_listed = refl

problems_consistent_example :
    (quadratic_problem.id ≡ "prob_quad_1")
    × (quadratic_problem.difficulty ≢ unspecified)
    × NumberedFrom 1 quadratic_problem.solution
problems_consistent_example = problems_consistent "prob_quad_1" quadratic_problem quadratic_listed
