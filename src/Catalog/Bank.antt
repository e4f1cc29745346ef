-- ===== src/Catalog/Bank.antt =====
-- The problems of internal/catalog/problems.go, one by one.
use tuti_server.Base.{[], ◌∷◌, pos, negsuc, ◌+ℤ◌, ◌*ℤ◌, true, false}
use tuti_server.Proto.{Problem, easy, medium}
use tuti_server.Catalog.Blocks.{
  text, math_block, step, graph_2d, geometry, axis, view_box, line_series, segment, geo_angle,
  geo_label, line_points, parabola_points, square,
}

unfoldable pub detected_linear_system : Problem
detected_linear_system = record {
  id = "detected_linear_1";
  title = "Detected: System of linear equations";
  topic = "Algebra";
  difficulty = easy;
  statement =
      text "The following system was found on your page. Solve by substitution:"
      ∷ math_block "y = 2x + 1"
      ∷ math_block "y = -x + 4"
      ∷ graph_2d "Graph — find the intersection" (axis "x" (negsuc 9999) (pos 50000))
          (axis "y" (negsuc 19999) (pos 80000))
          (line_series "y = 2x + 1" "#6200EA"
              (line_points (negsuc 9999) (pos 30000) (pos 5000) (λ x. (pos 2 *ℤ x) +ℤ pos 10000))
              false
            ∷ line_series "y = −x + 4" "#E65100"
                (line_points (negsuc 9999) (pos 50000) (pos 5000)
                  (λ x. (negsuc 0 *ℤ x) +ℤ pos 40000))
                false
            ∷ [])
      ∷ [];
  hints =
      "Both equations are already solved for y — set the right-hand sides equal."
      ∷ "Once you find x, plug it back into either original equation to get y." ∷ [];
  solution =
      step (pos 1) "Set the expressions equal" (
        text "Both equations equal y, so substitute one into the other:"
        ∷ math_block "2x + 1 = -x + 4"
        ∷ [])
      ∷ step (pos 2) "Solve for x"
          (math_block "2x + x = 4 - 1" ∷ math_block "3x = 3" ∷ math_block "x = 1" ∷ [])
      ∷ step (pos 3) "Back-substitute to find y"
          (text "Substitute x = 1 into the first equation:" ∷ math_block "y = 2(1) + 1 = 3" ∷ [])
      ∷ step (pos 4) "Write the solution" (
          math_block "(x,\\, y) = (1,\\, 3)"
          ∷ text "The two lines intersect at the point (1, 3) — visible on the graph above."
          ∷ [])
      ∷ [];
}

unfoldable pub linear_substitution_practice : Problem
linear_substitution_practice = record {
  id = "prob_linear_2";
  title = "Solve by substitution";
  topic = "Algebra";
  difficulty = easy;
  statement =
      text "Solve the system using substitution:"
      ∷ math_block "y = x + 2"
      ∷ math_block "y = 3x - 4"
      ∷ [];
  hints =
      "Both equations are already isolated for y."
      ∷ "After finding x, substitute back into y = x + 2." ∷ [];
  solution =
      step (pos 1) "Set right-hand sides equal" (math_block "x + 2 = 3x - 4" ∷ [])
      ∷ step (pos 2) "Solve for x"
          (math_block "2 + 4 = 3x - x" ∷ math_block "6 = 2x" ∷ math_block "x = 3" ∷ [])
      ∷ step (pos 3) "Find y" (math_block "y = 3 + 2 = 5" ∷ [])
      ∷ step (pos 4) "Solution" (math_block "(x,\\, y) = (3,\\, 5)" ∷ [])
      ∷ [];
}

unfoldable pub quadratic_problem : Problem
quadratic_problem = record {
  id = "prob_quad_1";
  title = "Solve the quadratic";
  topic = "Algebra";
  difficulty = medium;
  statement =
      text "Solve for x:"
      ∷ math_block "x^2 - 4x + 3 = 0"
      ∷ graph_2d "Graph of f(x) = x² − 4x + 3" (axis "x" (negsuc 4999) (pos 45000))
          (axis "f(x)" (negsuc 14999) (pos 55000))
          (line_series "f(x) = x² − 4x + 3" "#6200EA"
              (parabola_points (negsuc 4999) (pos 45000) (pos 2500)
                (λ x. (square x +ℤ (negsuc 3 *ℤ x)) +ℤ pos 30000))
              false
            ∷ line_series "x-axis" "#888888"
                ((record { x = (negsuc 4999); y = (pos 0) })
                  ∷ (record { x = (pos 45000); y = (pos 0) })
                  ∷ [])
                true
            ∷ [])
      ∷ [];
  hints =
      "Can you spot the x-intercepts on the graph?"
      ∷ "Try to factor: find two numbers that multiply to 3 and add to −4." ∷ [];
  solution =
      step (pos 1) "Factor the expression" (
        text "Look for two numbers that multiply to c = 3 and add to b = −4."
        ∷ math_block "x^2 - 4x + 3 = (x - 1)(x - 3)"
        ∷ [])
      ∷ step (pos 2) "Apply the zero-product property" (
          text "If a product equals zero, at least one factor is zero."
          ∷ math_block "x - 1 = 0 \\quad \\text{or} \\quad x - 3 = 0"
          ∷ [])
      ∷ step (pos 3) "Solve each equation" (math_block "x_1 = 1, \\quad x_2 = 3" ∷ [])
      ∷ [];
}

unfoldable pub pythagorean_problem : Problem
pythagorean_problem = record {
  id = "prob_pyth_1";
  title = "Find the hypotenuse";
  topic = "Geometry";
  difficulty = easy;
  statement =
      text "A right triangle has legs a = 3 and b = 4. Find c."
      ∷ geometry "Right triangle" (view_box (negsuc 7999) (negsuc 6999) (pos 52000) (pos 44000)) (
          segment (pos 0) (pos 0) (pos 40000) (pos 0) "#000000"
          ∷ segment (pos 0) (pos 0) (pos 0) (pos 30000) "#000000"
          ∷ segment (pos 40000) (pos 0) (pos 0) (pos 30000) "#6200EA"
          ∷ geo_angle (pos 0) (pos 0) (pos 4000) (pos 0) (pos 900000) "#0055FF"
          ∷ geo_label (pos 20000) (negsuc 3499) "a = 4" "#000000"
          ∷ geo_label (negsuc 4499) (pos 15000) "b = 3" "#000000"
          ∷ geo_label (pos 24000) (pos 19000) "c = ?" "#6200EA"
          ∷ [])
      ∷ [];
  hints = "The Pythagorean theorem: a² + b² = c²" ∷ "\\sqrt{25} = 5" ∷ [];
  solution =
      step (pos 1) "Write the Pythagorean theorem" (math_block "a^2 + b^2 = c^2" ∷ [])
      ∷ step (pos 2) "Substitute the values"
          (math_block "3^2 + 4^2 = c^2" ∷ math_block "9 + 16 = c^2" ∷ math_block "c^2 = 25" ∷ [])
      ∷ step (pos 3) "Solve for c" (math_block "c = \\sqrt{25} = 5" ∷ [])
      ∷ [];
}
