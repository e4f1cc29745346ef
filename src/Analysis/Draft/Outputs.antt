-- ===== src/Analysis/Draft/Outputs.antt =====
-- The two outputs of the model: when they are accepted, and what their messages show.
use tuti_server.Base.{
  ℕ, ◌+◌, String, ◌≡◌, ◌≢◌, ◌↔◌, ◌⊎◌, refl, inl, inr, true, List, [], ◌∷◌, map, some, arith, ◌==◌,
  eq_iff, All, Bool-cases, Option-cases,
}
use tuti_server.Proto.{
  ContentBlock, math, hint, text, step, graph_2d, geometry, Blocks, nil, cons, blocks, unspecified,
}
use tuti_server.Analysis.Draft.{
  BlockDraft, StepDraft, ProblemDraft, MistakeDraft, ExtractOutput, EvaluateOutput,
  validate_mistake, validate_mistakes, validate_extract, validate_evaluate, block_to_proto,
  step_to_proto, problem_to_proto, difficulty_to_proto,
}
use tuti_server.Analysis.Draft.Valid.{
  IsKnownBlock, IsValidStep, IsValidProblem, IsOk, validate_problem_iff,
}

abbrev pub IsDescribed : MistakeDraft → Type 0
IsDescribed m = m.description ≢ ""

validate_mistakes_iff :
    (i : ℕ) (ms : List MistakeDraft) → IsOk (validate_mistakes i ms) ↔ All IsDescribed ms
unfolding validate_mistakes validate_mistake
validate_mistakes_iff i [] = (λ _. tt, λ _. refl)
validate_mistakes_iff i (m ∷ ms) =
    ground (arith, eq_iff m.description "", validate_mistakes_iff (i + 1) ms)

-- An evaluation is accepted exactly when its problem is valid and each mistake has a description.
pub validate_evaluate_iff :
    (o : EvaluateOutput)
    → IsOk (validate_evaluate o) ↔ (IsValidProblem o.problem × All IsDescribed o.mistakes)
unfolding validate_evaluate
validate_evaluate_iff o = (
  λ h. (
    (validate_problem_iff o.problem).0 (ground arith),
    (validate_mistakes_iff 0 o.mistakes).0 (ground arith),
  ),
  λ h.
      ground
        (arith, (validate_problem_iff o.problem).1 h.0, (validate_mistakes_iff 0 o.mistakes).1 h.1),
)

-- An extraction is accepted exactly when it reports a blank page, whatever else it holds, or a valid
-- problem.
pub validate_extract_iff :
    (o : ExtractOutput)
    → IsOk (validate_extract o)
      ↔ ((o.blank ≡ true) ⊎ ((p : ProblemDraft) × (o.problem ≡ some p) × IsValidProblem p))
unfolding validate_extract
validate_extract_iff o = (
  λ h. elim (Bool-cases o.blank) [
    | inl b ↦ inl b
    | inr w ↦ elim (Option-cases o.problem) [
      | inl missing ↦ ground arith
      | inr (p, found) ↦ inr (p, found, (validate_problem_iff p).0 (ground arith))
    ]
  ],
  λ c. elim c [
    | inl b ↦ ground arith
    | inr (p, found, v) ↦ elim (Bool-cases o.blank) [
      | inl b ↦ ground arith
      | inr w ↦ ground (arith, (validate_problem_iff p).1 v)
    ]
  ],
)

-- The block has the kind of the draft, and the draft's text of that kind.
abbrev pub Shows : ContentBlock → BlockDraft → Type 0
Shows (text t) b = (b.kind ≡ "text") × (t ≡ b.text)
Shows (math e) b = (b.kind ≡ "math") × (e ≡ b.expression)
Shows (hint h) b = (b.kind ≡ "hint") × (h ≡ b.hint)
Shows (graph_2d _) b = ⊥
Shows (geometry _) b = ⊥
Shows (step _ _ _) b = ⊥

abbrev pub ShowsContent : Blocks → List BlockDraft → Type 0
ShowsContent nil [] = Unit
ShowsContent (cons c cs) (b ∷ bs) = Shows c b × ShowsContent cs bs
ShowsContent nil (b ∷ bs) = ⊥
ShowsContent (cons c cs) [] = ⊥

abbrev pub ShowsStep : ContentBlock → StepDraft → Type 0
ShowsStep (step number label content) s =
    (number ≡ s.step_number) × (label ≡ s.label) × ShowsContent content s.content
ShowsStep (text _) s = ⊥
ShowsStep (math _) s = ⊥
ShowsStep (hint _) s = ⊥
ShowsStep (graph_2d _) s = ⊥
ShowsStep (geometry _) s = ⊥

abbrev pub ShowsSteps : List ContentBlock → List StepDraft → Type 0
ShowsSteps [] [] = Unit
ShowsSteps (c ∷ cs) (s ∷ ss) = ShowsStep c s × ShowsSteps cs ss
ShowsSteps [] (s ∷ ss) = ⊥
ShowsSteps (c ∷ cs) [] = ⊥

Shows-block : (b : BlockDraft) → IsKnownBlock b → Shows (block_to_proto b) b
unfolding block_to_proto
Shows-block b k = elim (Bool-cases (b.kind == "math")) [
  | inl m ↦ rw m (ground (arith, eq_iff b.kind "math"), refl)
  | inr n ↦ elim (Bool-cases (b.kind == "hint")) [
    | inl h ↦ rw (n, h) (ground (arith, eq_iff b.kind "hint"), refl)
    | inr o ↦ rw (n, o) (ground (arith, eq_iff b.kind "math", eq_iff b.kind "hint"), refl)
  ]
]

ShowsContent-blocks :
    (bs : List BlockDraft) → All IsKnownBlock bs → ShowsContent (blocks (map block_to_proto bs)) bs
ShowsContent-blocks [] h = tt
ShowsContent-blocks (b ∷ bs) (k, h) = (Shows-block b k, ShowsContent-blocks bs h)

ShowsSteps-map : (ss : List StepDraft) → All IsValidStep ss → ShowsSteps (map step_to_proto ss) ss
unfolding step_to_proto
ShowsSteps-map [] h = tt
ShowsSteps-map (s ∷ ss) ((labelled, k), h) =
    ((refl, refl, ShowsContent-blocks s.content k), ShowsSteps-map ss h)

-- The message of a valid problem has a known difficulty, and shows each block of the statement, and
-- each step of the solution with its number, its label and its blocks, in order and by their kinds.
pub problem_to_proto_shows :
    (p : ProblemDraft) (id : String)
    → IsValidProblem p
    → ((problem_to_proto p id).difficulty ≢ unspecified)
      × ShowsContent (blocks (problem_to_proto p id).statement) p.statement
      × ShowsSteps (problem_to_proto p id).solution p.solution
unfolding problem_to_proto difficulty_to_proto
problem_to_proto_shows p id v = (
  ground (
    arith,
    eq_iff p.difficulty "easy",
    eq_iff p.difficulty "medium",
    eq_iff p.difficulty "hard",
    v.graded,
  ),
  ShowsContent-blocks p.statement v.statement_known,
  ShowsSteps-map p.solution v.solution_known,
)
