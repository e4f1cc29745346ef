-- ===== src/Analysis/Draft/Valid.antt =====
-- What `Validate` accepts, stated without its order of tests, and what the messages of an accepted
-- draft show.
use tuti_server.Base.{ℕ, ◌+◌, ℤ, ◌≡◌, ◌≢◌, ◌↔◌, ◌⊎◌, refl, List, [], ◌∷◌, arith, eq_iff, All}
use tuti_server.Errors.{Result, ok}
use tuti_server.Analysis.Draft.{
  BlockDraft, StepDraft, ProblemDraft, validate_block, validate_content, validate_step,
  validate_statement, validate_solution, validate_problem,
}

abbrev pub IsKnownBlock : BlockDraft → Type 0
IsKnownBlock b = (b.kind ≡ "text") ⊎ (b.kind ≡ "math") ⊎ (b.kind ≡ "hint")

abbrev pub IsValidStep : StepDraft → Type 0
IsValidStep s = (s.label ≢ "") × All IsKnownBlock s.content

pub record IsValidProblem (p : ProblemDraft) : Type 0 where
  pub titled : p.title ≢ ""
  pub graded : (p.difficulty ≡ "easy") ⊎ (p.difficulty ≡ "medium") ⊎ (p.difficulty ≡ "hard")
  pub stated : p.statement ≢ []
  pub solved : p.solution ≢ []
  pub statement_known : All IsKnownBlock p.statement
  pub solution_known : All IsValidStep p.solution

abbrev pub IsOk : Result (Unit {0}) → Type 0
IsOk r = r ≡ ok tt

validate_block_iff : (b : BlockDraft) → IsOk (validate_block b) ↔ IsKnownBlock b
unfolding validate_block
validate_block_iff b =
    ground (arith, eq_iff b.kind "text", eq_iff b.kind "math", eq_iff b.kind "hint")

validate_content_iff :
    (number : ℤ) (i : ℕ) (bs : List BlockDraft)
    → IsOk (validate_content number i bs) ↔ All IsKnownBlock bs
unfolding validate_content
validate_content_iff number i [] = (λ _. tt, λ _. refl)
validate_content_iff number i (b ∷ bs) =
    ground (arith, validate_block_iff b, validate_content_iff number (i + 1) bs)

validate_step_iff : (s : StepDraft) → IsOk (validate_step s) ↔ IsValidStep s
unfolding validate_step
validate_step_iff s =
    ground (arith, eq_iff s.label "", validate_content_iff s.step_number 0 s.content)

validate_statement_iff :
    (i : ℕ) (bs : List BlockDraft) → IsOk (validate_statement i bs) ↔ All IsKnownBlock bs
unfolding validate_statement
validate_statement_iff i [] = (λ _. tt, λ _. refl)
validate_statement_iff i (b ∷ bs) =
    ground (arith, validate_block_iff b, validate_statement_iff (i + 1) bs)

validate_solution_iff :
    (i : ℕ) (ss : List StepDraft) → IsOk (validate_solution i ss) ↔ All IsValidStep ss
unfolding validate_solution
validate_solution_iff i [] = (λ _. tt, λ _. refl)
validate_solution_iff i (s ∷ ss) =
    ground (arith, validate_step_iff s, validate_solution_iff (i + 1) ss)

validate_problem_sound : (p : ProblemDraft) → IsOk (validate_problem p) → IsValidProblem p
unfolding validate_problem
validate_problem_sound p h = record {
  titled = ground (arith, eq_iff p.title "");
  graded =
      ground (
        arith,
        eq_iff p.difficulty "easy",
        eq_iff p.difficulty "medium",
        eq_iff p.difficulty "hard",
      );
  stated = ground arith;
  solved = ground arith;
  statement_known = (validate_statement_iff 0 p.statement).0 (ground arith);
  solution_known = (validate_solution_iff 0 p.solution).0 (ground arith);
}

validate_problem_complete : (p : ProblemDraft) → IsValidProblem p → IsOk (validate_problem p)
unfolding validate_problem
validate_problem_complete p v = ground (
  arith,
  eq_iff p.title "",
  eq_iff p.difficulty "easy",
  eq_iff p.difficulty "medium",
  eq_iff p.difficulty "hard",
  (validate_statement_iff 0 p.statement).1 v.statement_known,
  (validate_solution_iff 0 p.solution).1 v.solution_known,
)

-- Validate accepts a problem exactly when it has a title, a known difficulty, a statement and a
-- solution, each block is of a known kind, and each step of the solution has a label.
pub validate_problem_iff : (p : ProblemDraft) → IsOk (validate_problem p) ↔ IsValidProblem p
validate_problem_iff p = (validate_problem_sound p, validate_problem_complete p)
