-- ===== src/Catalog/Lessons.antt =====
-- internal/catalog/lessons.go: the lessons by their ids and languages.
mod Linear
mod Quadratic
mod Pythagorean
mod Derivatives
mod Statistics
unfoldable pub use Linear.{linear_equations_en, linear_equations_es}
unfoldable pub use Quadratic.{quadratic_equations_en, quadratic_equations_es}
unfoldable pub use Pythagorean.{pythagorean_theorem_en, pythagorean_theorem_es}
unfoldable pub use Derivatives.{intro_to_derivatives_en, intro_to_derivatives_es}
unfoldable pub use Statistics.{statistics_en, statistics_es}
use tuti_server.Base.{String, Option, none, some, [], ◌∷◌, ◌==◌, if◌then◌else◌}
use tuti_server.Proto.{LessonContent}
use tuti_server.Catalog.Blocks.{text}

abbrev in_language : LessonContent → LessonContent → String → LessonContent
in_language es en lang = if lang == "es" then es else en

unfoldable pub linear_equations_lesson : String → LessonContent
linear_equations_lesson lang = in_language linear_equations_es linear_equations_en lang

unfoldable pub quadratic_equations_lesson : String → LessonContent
quadratic_equations_lesson lang = in_language quadratic_equations_es quadratic_equations_en lang

unfoldable pub pythagorean_theorem_lesson : String → LessonContent
pythagorean_theorem_lesson lang = in_language pythagorean_theorem_es pythagorean_theorem_en lang

unfoldable pub intro_to_derivatives_lesson : String → LessonContent
intro_to_derivatives_lesson lang = in_language intro_to_derivatives_es intro_to_derivatives_en lang

unfoldable pub statistics_lesson : String → LessonContent
statistics_lesson lang = in_language statistics_es statistics_en lang

-- `Lessons`
unfoldable pub lessons : String → Option (String → LessonContent)
lessons id =
    if id == "linear_equations"
    then some linear_equations_lesson
    else if id == "quadratic_equations"
    then some quadratic_equations_lesson
    else if id == "pythagorean_theorem"
    then some pythagorean_theorem_lesson
    else if id == "intro_to_derivatives"
    then some intro_to_derivatives_lesson
    else if id == "statistics_mean_median"
    then some statistics_lesson
    else none

unfoldable pub fallback_lesson : String → LessonContent
fallback_lesson id = record {
  id = id;
  title = id;
  topic = "Mathematics";
  icon_name = "school_outlined";
  language = "en";
  context = text "Lesson content coming soon." ∷ [];
  sections = [];
  worked_example = record { heading = "Example"; content = text "No example available yet." ∷ [] };
}

-- `GetLesson`
unfoldable pub get_lesson : String → String → LessonContent
get_lesson id lang = elim (lessons id) [ some fn ↦ fn lang | none ↦ fallback_lesson id ]
