-- ===== src/Catalog/Topics.antt =====
-- internal/catalog/topics.go: what goes with the topic that the model has named.
pub mod Laws
use Prim.Native.Char.{Char, code}
use Prim.Native.String
use Prim.Native.String.{char_at}
use tuti_server.Base.{
  trim_space, ℕ, ◌-◌, String, Bool, List, [], ◌∷◌, Option, none, some, ◌==◌, ◌&&◌, ◌||◌, eqb, leb,
  if◌then◌else◌,
}
use tuti_server.Proto.{TopicRecommendation, SnapOption, LessonReference, Problem}
use tuti_server.Catalog.Bank.{
  detected_linear_system, linear_substitution_practice, quadratic_problem, pythagorean_problem,
}

-- `Topics`
unfoldable pub topics : List TopicRecommendation
topics =
    record {
      id = "quadratic";
      title = "Quadratic Equations";
      description = "Solve equations of the form ax² + bx + c = 0";
      lesson_id = "quadratic_equations";
      icon_name = "functions";
    }
    ∷ record {
      id = "pythagoras";
      title = "Pythagorean Theorem";
      description = "Relate the sides of a right triangle: a² + b² = c²";
      lesson_id = "pythagorean_theorem";
      icon_name = "change_history";
    }
    ∷ record {
      id = "derivatives";
      title = "Derivatives";
      description = "Measure how functions change at each point";
      lesson_id = "intro_to_derivatives";
      icon_name = "show_chart";
    }
    ∷ record {
      id = "linear";
      title = "Linear Equations";
      description = "Find the value of x in equations like 3x + 5 = 11";
      lesson_id = "linear_equations";
      icon_name = "linear_scale";
    }
    ∷ []

-- `SnapOptions`
unfoldable pub snap_options : List SnapOption
snap_options =
    record {
      id = "check_work";
      label = "Check my work";
      description = "Find mistakes in my attempt and show me what went wrong.";
      icon_name = "rate_review_outlined";
    }
    ∷ record {
      id = "solve";
      label = "Solve this for me";
      description = "Walk me through a step-by-step solution.";
      icon_name = "auto_fix_high_outlined";
    }
    ∷ record {
      id = "explain";
      label = "Explain the concept";
      description = "Show me the underlying lesson so I can solve it myself.";
      icon_name = "school_outlined";
    }
    ∷ []

-- `lessonRefs`
unfoldable pub lesson_refs : String → Option LessonReference
lesson_refs id =
    if id == "linear_equations"
    then some (record {
      lesson_id = "linear_equations";
      title = "Linear Equations";
      description = "Solving equations of the form ax + b = c";
      icon_name = "linear_scale";
    })
    else if id == "quadratic_equations"
    then some (record {
      lesson_id = "quadratic_equations";
      title = "Quadratic Equations";
      description = "Factoring and the quadratic formula";
      icon_name = "functions";
    })
    else if id == "pythagorean_theorem"
    then some (record {
      lesson_id = "pythagorean_theorem";
      title = "Pythagorean Theorem";
      description = "Relating the sides of a right triangle";
      icon_name = "change_history";
    })
    else if id == "intro_to_derivatives"
    then some (record {
      lesson_id = "intro_to_derivatives";
      title = "Introduction to Derivatives";
      description = "Measuring how functions change at each point";
      icon_name = "show_chart";
    })
    else if id == "statistics_mean_median"
    then some (record {
      lesson_id = "statistics_mean_median";
      title = "Mean & Median";
      description = "Summarising a dataset with a single number";
      icon_name = "bar_chart";
    })
    else none

-- `Problems` of problems.go
unfoldable pub problems : String → Option Problem
problems id =
    if id == "detected_linear_1"
    then some detected_linear_system
    else if id == "prob_linear_2"
    then some linear_substitution_practice
    else if id == "prob_quad_1"
    then some quadratic_problem
    else if id == "prob_pyth_1"
    then some pythagorean_problem
    else none

-- `topicGroup`
pub record TopicGroup : Type 0 where
  pub lesson_ids : List String
  pub problem_ids : List String

abbrev pub algebra : TopicGroup
algebra = record {
  lesson_ids = "linear_equations" ∷ "quadratic_equations" ∷ [];
  problem_ids = "prob_linear_2" ∷ "prob_quad_1" ∷ [];
}

abbrev pub plane_geometry : TopicGroup
plane_geometry = record {
  lesson_ids = "pythagorean_theorem" ∷ [];
  problem_ids = "prob_pyth_1" ∷ [];
}

abbrev pub calculus : TopicGroup
calculus = record { lesson_ids = "intro_to_derivatives" ∷ []; problem_ids = [] }

abbrev pub statistics : TopicGroup
statistics = record { lesson_ids = "statistics_mean_median" ∷ []; problem_ids = [] }

-- `topicGroups`
unfoldable pub topic_groups : String → Option TopicGroup
topic_groups topic =
    if topic == "algebra"
    then some algebra
    else if topic == "geometry"
    then some plane_geometry
    else if topic == "calculus"
    then some calculus
    else if topic == "statistics"
    then some statistics
    else none

-- The loop over the lesson ids: an id with no reference is passed over.
unfoldable pub find_lessons : List String → List LessonReference
find_lessons [] = []
find_lessons (id ∷ ids) =
    let rest = find_lessons ids in elim (lesson_refs id) [ some ref ↦ ref ∷ rest | none ↦ rest ]

-- The loop over the problem ids.
unfoldable pub find_problems : List String → List Problem
find_problems [] = []
find_problems (id ∷ ids) =
    let rest = find_problems ids in elim (problems id) [ some p ↦ p ∷ rest | none ↦ rest ]

-- `unicode.ToLower` beyond ASCII is a parameter.
module _ (unicode_lower : Char → Char) where
  abbrev lower : Char → Char
  lower c =
      if leb 65 (code c) && leb (code c) 90
      then char_at "abcdefghijklmnopqrstuvwxyz" (code c - 65)
      else if leb (code c) 127
      then c
      else unicode_lower c

  -- `strings.ToLower`
  unfoldable pub to_lower : String → String
  to_lower String.[] = ""
  to_lower (String.◌∷◌ c s) = String.◌∷◌ (lower c) (to_lower s)

  -- The group of a topic, or the default group.
  unfoldable pub group_for : String → TopicGroup
  unfolding to_lower trim_space topic_groups
  group_for topic = elim (topic_groups (to_lower (trim_space topic))) [
    | some group ↦ group
    | none ↦ algebra
  ]

  -- `LessonsAndProblemsForTopic`
  unfoldable pub lessons_and_problems_for_topic : String → List LessonReference × List Problem
  unfolding group_for find_lessons find_problems
  lessons_and_problems_for_topic topic =
      let group = group_for topic in
      (find_lessons group.lesson_ids, find_problems group.problem_ids)
