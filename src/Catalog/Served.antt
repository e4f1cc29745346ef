-- ===== src/Catalog/Served.antt =====
-- What `GetLesson` serves, and the practice problems that the catalog hands out.
use tuti_server.Base.{
  ℕ, ◌+◌, pos, String, ◌≡◌, ◌≢◌, refl, sym, subst, inl, inr, Bool, List, [], ◌∷◌, Option, none,
  some, arith, ◌==◌, ◌&&◌, eq_iff, Bool-cases, if◌then◌else◌, is_some,
}
use tuti_server.Proto.{
  Problem, LessonContent, ContentBlock, step, text, math, hint, graph_2d, geometry, unspecified,
}
use tuti_server.Catalog.Lessons.{
  lessons, get_lesson, fallback_lesson, linear_equations_lesson, quadratic_equations_lesson,
  pythagorean_theorem_lesson, intro_to_derivatives_lesson, statistics_lesson, linear_equations_en,
  linear_equations_es, quadratic_equations_en, quadratic_equations_es, pythagorean_theorem_en,
  pythagorean_theorem_es, intro_to_derivatives_en, intro_to_derivatives_es, statistics_en,
  statistics_es,
}
use tuti_server.Catalog.Blocks
use tuti_server.Catalog.Bank.{
  detected_linear_system, linear_substitution_practice, quadratic_problem, pythagorean_problem,
}
use tuti_server.Catalog.Topics.{problems}

-- The lesson has the id that was asked for, and is in Spanish only if that was asked for and the
-- library has the lesson.
abbrev pub Answers : String → String → Bool → LessonContent → Type 0
Answers id lang known content =
    (content.id ≡ id) × (content.language ≡ (if known && lang == "es" then "es" else "en"))

-- GetLesson answers every request: the lesson has the id that was asked for, and it is in Spanish
-- exactly if Spanish was asked for and the library has the lesson, and otherwise in English.
pub get_lesson-Answers :
    (id lang : String) → Answers id lang (is_some (lessons id)) (get_lesson id lang)
unfolding get_lesson lessons fallback_lesson linear_equations_lesson quadratic_equations_lesson
    pythagorean_theorem_lesson intro_to_derivatives_lesson statistics_lesson linear_equations_en
    linear_equations_es quadratic_equations_en quadratic_equations_es pythagorean_theorem_en
    pythagorean_theorem_es intro_to_derivatives_en intro_to_derivatives_es statistics_en
    statistics_es
get_lesson-Answers id lang = ground (
  arith,
  eq_iff id "linear_equations",
  eq_iff id "quadratic_equations",
  eq_iff id "pythagorean_theorem",
  eq_iff id "intro_to_derivatives",
  eq_iff id "statistics_mean_median",
)

-- The steps of a solution, numbered in order, with nothing between them.
abbrev pub NumberedFrom : ℕ → List ContentBlock → Type 0
NumberedFrom n [] = Unit
NumberedFrom n (step number label content ∷ rest) = (number ≡ pos n) × NumberedFrom (n + 1) rest
NumberedFrom n (text _ ∷ rest) = ⊥
NumberedFrom n (math _ ∷ rest) = ⊥
NumberedFrom n (hint _ ∷ rest) = ⊥
NumberedFrom n (graph_2d _ ∷ rest) = ⊥
NumberedFrom n (geometry _ ∷ rest) = ⊥

abbrev Consistent : String → Problem → Type 0
Consistent id p = (p.id ≡ id) × (p.difficulty ≢ unspecified) × NumberedFrom 1 p.solution

abbrev Whenever : (Problem → Type 0) → Option Problem → Type 0
Whenever P none = Unit
Whenever P (some p) = P p

bank-Consistent : (id : String) → Whenever (Consistent id) (problems id)
unfolding problems detected_linear_system linear_substitution_practice quadratic_problem
    pythagorean_problem Blocks.step
bank-Consistent id = elim (Bool-cases (id == "detected_linear_1")) [
  | inl h ↦ rw h (sym ((eq_iff id _).0 h), λ e. cc, (refl, (refl, (refl, (refl, tt)))))
  | inr a ↦ elim (Bool-cases (id == "prob_linear_2")) [
    | inl h ↦ rw (a, h) (sym ((eq_iff id _).0 h), λ e. cc, (refl, (refl, (refl, (refl, tt)))))
    | inr b ↦ elim (Bool-cases (id == "prob_quad_1")) [
      | inl h ↦ rw (a, b, h) (sym ((eq_iff id _).0 h), λ e. cc, (refl, (refl, (refl, tt))))
      | inr c ↦ elim (Bool-cases (id == "prob_pyth_1")) [
        | inl h ↦ rw (a, b, c, h) (sym ((eq_iff id _).0 h), λ e. cc, (refl, (refl, (refl, tt))))
        | inr d ↦ rw (a, b, c, d) tt
      ]
    ]
  ]
]

-- A problem of the bank stands under its own id, has a difficulty, and its solution is a sequence of
-- steps numbered from one.
pub problems_consistent :
    (id : String) (p : Problem)
    → problems id ≡ some p
    → (p.id ≡ id) × (p.difficulty ≢ unspecified) × NumberedFrom 1 p.solution
problems_consistent id p h = subst (Whenever (Consistent id)) h (bank-Consistent id)
