-- ===== src/Analysis/Draft.antt =====
-- internal/analysis/draft.go: what the model reports, its validation, and its messages.
pub mod Valid
pub mod Outputs
use tuti_server.Base.{
  ℕ, suc, ◌+◌, ℤ, String, Bool, true, false, not, List, [], ◌∷◌, map, Option, none, some, ◌==◌,
  ◌||◌, if◌then◌else◌, is_empty,
}
use tuti_server.Errors.{Result, ok, err, errorf, wrapf, str, num, int, map_err, bind}
use tuti_server.Proto.{
  ContentBlock, math, hint, text, step, Blocks, blocks, Problem, Mistake, DifficultyLevel,
  unspecified, easy, medium, hard,
}

pub record BlockDraft : Type 0 where
  pub kind : String
  pub text : String
  pub expression : String
  pub hint : String

unfoldable pub validate_block : BlockDraft → Result (Unit {0})
validate_block b =
    if b.kind == "text" || b.kind == "math" || b.kind == "hint"
    then ok tt
    else err (errorf "block: unknown kind %q" (str b.kind ∷ []))

unfoldable pub block_to_proto : BlockDraft → ContentBlock
block_to_proto b =
    if b.kind == "math"
    then math b.expression
    else if b.kind == "hint"
    then hint b.hint
    else text b.text

pub record StepDraft : Type 0 where
  pub step_number : ℤ
  pub label : String
  pub content : List BlockDraft

-- The loop over a step's content, from the index `i` on.
unfoldable pub validate_content : ℤ → ℕ → List BlockDraft → Result (Unit {0})
unfolding validate_block
validate_content number i [] = ok tt
validate_content number i (b ∷ bs) =
    bind (map_err (wrapf "step %d: content[%d]: %w" (int number ∷ num i ∷ [])) (validate_block b))
      λ _. validate_content number (i + 1) bs

unfoldable pub validate_step : StepDraft → Result (Unit {0})
validate_step s =
    if s.label == ""
    then err (errorf "step %d: empty label" (int s.step_number ∷ []))
    else validate_content s.step_number 0 s.content

unfoldable pub step_to_proto : StepDraft → ContentBlock
step_to_proto s = step s.step_number s.label (blocks (map block_to_proto s.content))

pub record ProblemDraft : Type 0 where
  pub title : String
  pub topic : String
  pub difficulty : String
  pub statement : List BlockDraft
  pub hints : List String
  pub solution : List StepDraft

abbrev known_difficulty : String → Bool
known_difficulty d = d == "easy" || d == "medium" || d == "hard"

-- The loops over the statement and over the solution.
unfoldable pub validate_statement : ℕ → List BlockDraft → Result (Unit {0})
validate_statement i [] = ok tt
validate_statement i (b ∷ bs) =
    bind (map_err (wrapf "problem: statement[%d]: %w" (num i ∷ [])) (validate_block b))
      λ _. validate_statement (i + 1) bs

unfoldable pub validate_solution : ℕ → List StepDraft → Result (Unit {0})
validate_solution i [] = ok tt
validate_solution i (s ∷ ss) =
    bind (map_err (wrapf "problem: solution[%d]: %w" (num i ∷ [])) (validate_step s))
      λ _. validate_solution (i + 1) ss

unfoldable pub validate_problem : ProblemDraft → Result (Unit {0})
validate_problem p =
    if p.title == ""
    then err (errorf "problem: empty title" [])
    else if not (known_difficulty p.difficulty)
    then err (errorf "problem: unknown difficulty %q" (str p.difficulty ∷ []))
    else if is_empty p.statement
    then err (errorf "problem: empty statement" [])
    else if is_empty p.solution
    then err (errorf "problem: empty solution" [])
    else bind (validate_statement 0 p.statement) (λ _. validate_solution 0 p.solution)

unfoldable pub difficulty_to_proto : String → DifficultyLevel
difficulty_to_proto d =
    if d == "easy"
    then easy
    else if d == "medium"
    then medium
    else if d == "hard"
    then hard
    else unspecified

unfoldable pub problem_to_proto : ProblemDraft → String → Problem
problem_to_proto p id = record {
  id = id;
  title = p.title;
  topic = p.topic;
  difficulty = difficulty_to_proto p.difficulty;
  statement = map block_to_proto p.statement;
  hints = p.hints;
  solution = map step_to_proto p.solution;
}

pub record MistakeDraft : Type 0 where
  pub description : String
  pub step_reference : String

unfoldable pub validate_mistake : MistakeDraft → Result (Unit {0})
validate_mistake m =
    if m.description == "" then err (errorf "mistake: empty description" []) else ok tt

unfoldable pub mistake_to_proto : MistakeDraft → String → Mistake
mistake_to_proto m id = record {
  id = id;
  description = m.description;
  step_reference = m.step_reference;
}

-- A problem that is left out is `none`.
pub record ExtractOutput : Type 0 where
  pub blank : Bool
  pub problem : Option ProblemDraft

unfoldable pub validate_extract : ExtractOutput → Result (Unit {0})
validate_extract o = if o.blank then ok tt else elim o.problem [
  | none ↦ err (errorf "model reported blank=false with no problem" [])
  | some p ↦ validate_problem p
]

pub record EvaluateOutput : Type 0 where
  pub problem : ProblemDraft
  pub mistakes : List MistakeDraft

unfoldable pub validate_mistakes : ℕ → List MistakeDraft → Result (Unit {0})
validate_mistakes i [] = ok tt
validate_mistakes i (m ∷ ms) =
    bind (map_err (wrapf "mistakes[%d]: %w" (num i ∷ [])) (validate_mistake m))
      λ _. validate_mistakes (i + 1) ms

unfoldable pub validate_evaluate : EvaluateOutput → Result (Unit {0})
validate_evaluate o = bind (validate_problem o.problem) λ _. validate_mistakes 0 o.mistakes
