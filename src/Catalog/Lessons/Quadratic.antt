-- ===== src/Catalog/Lessons/Quadratic.antt =====
-- A lesson of internal/catalog/lessons.go, in both languages.
use tuti_server.Base.{[], ◌∷◌, pos, negsuc, ◌+ℤ◌, ◌*ℤ◌, false}
use tuti_server.Proto.{LessonContent}
use tuti_server.Catalog.Blocks.{
  text, math_block, step, graph_2d, axis, line_series, parabola_points, square,
}

unfoldable pub quadratic_equations_en : LessonContent
quadratic_equations_en = record {
  id = "quadratic_equations";
  title = "Quadratic Equations";
  topic = "Algebra";
  icon_name = "functions";
  language = "en";
  context =
      text
        "Quadratic equations model projectile motion, areas, and profit curves. Any parabola you see on a graph is a quadratic relationship."
      ∷ [];
  sections =
      (record {
        heading = "Standard Form";
        content =
            math_block "ax^2 + bx + c = 0 \\quad (a \\neq 0)"
            ∷ text
                "The graph is a parabola. When a > 0 it opens upward; when a < 0 it opens downward."
            ∷ [];
      })
      ∷ (record {
        heading = "The Quadratic Formula";
        content =
            text "For any quadratic equation the solutions are:"
            ∷ math_block "x = \\frac{-b \\pm \\sqrt{b^2 - 4ac}}{2a}"
            ∷ text "The expression b² − 4ac is the discriminant (Δ):"
            ∷ math_block "\\Delta > 0 \\Rightarrow \\text{two real roots}"
            ∷ math_block "\\Delta = 0 \\Rightarrow \\text{one real root}"
            ∷ math_block "\\Delta < 0 \\Rightarrow \\text{no real roots}"
            ∷ graph_2d "f(x) = x² − 4x + 3  (roots at x = 1 and x = 3)"
                (axis "x" (negsuc 4999) (pos 45000)) (axis "f(x)" (negsuc 14999) (pos 55000))
                (line_series "f(x) = x² − 4x + 3" "#6200EA"
                    (parabola_points (negsuc 4999) (pos 45000) (pos 2500)
                      (λ x. (square x +ℤ (negsuc 3 *ℤ x)) +ℤ pos 30000))
                    false
                  ∷ [])
            ∷ [];
      })
      ∷ [];
  worked_example = record {
    heading = "Worked Example";
    content =
        text "Solve:"
        ∷ math_block "x^2 - 4x + 3 = 0"
        ∷ step (pos 1) "Identify a = 1, b = −4, c = 3"
            (math_block "\\Delta = (-4)^2 - 4(1)(3) = 16 - 12 = 4" ∷ [])
        ∷ step (pos 2) "Apply the formula"
            (math_block "x = \\frac{4 \\pm \\sqrt{4}}{2} = \\frac{4 \\pm 2}{2}" ∷ [])
        ∷ step (pos 3) "Two solutions" (math_block "x_1 = 3, \\quad x_2 = 1" ∷ [])
        ∷ [];
  };
}

unfoldable pub quadratic_equations_es : LessonContent
quadratic_equations_es = record {
  id = "quadratic_equations";
  title = "Ecuaciones Cuadráticas";
  topic = "Álgebra";
  icon_name = "functions";
  language = "es";
  context =
      text
        "Las ecuaciones cuadráticas modelan el movimiento de proyectiles, áreas y curvas de ganancia. Toda parábola que ves en una gráfica es una relación cuadrática."
      ∷ [];
  sections =
      (record {
        heading = "Forma Estándar";
        content =
            math_block "ax^2 + bx + c = 0 \\quad (a \\neq 0)"
            ∷ text
                "La gráfica es una parábola. Si a > 0 abre hacia arriba; si a < 0 abre hacia abajo."
            ∷ [];
      })
      ∷ (record {
        heading = "La Fórmula Cuadrática";
        content =
            text "Para cualquier ecuación cuadrática las soluciones son:"
            ∷ math_block "x = \\frac{-b \\pm \\sqrt{b^2 - 4ac}}{2a}"
            ∷ text "La expresión b² − 4ac es el discriminante (Δ):"
            ∷ math_block "\\Delta > 0 \\Rightarrow \\text{dos raíces reales}"
            ∷ math_block "\\Delta = 0 \\Rightarrow \\text{una raíz real}"
            ∷ math_block "\\Delta < 0 \\Rightarrow \\text{sin raíces reales}"
            ∷ [];
      })
      ∷ [];
  worked_example = record {
    heading = "Ejemplo Resuelto";
    content =
        text "Resuelve:"
        ∷ math_block "x^2 - 4x + 3 = 0"
        ∷ step (pos 1) "Identifica a = 1, b = −4, c = 3" (math_block "\\Delta = 16 - 12 = 4" ∷ [])
        ∷ step (pos 2) "Aplica la fórmula" (math_block "x = \\frac{4 \\pm 2}{2}" ∷ [])
        ∷ step (pos 3) "Dos soluciones" (math_block "x_1 = 3, \\quad x_2 = 1" ∷ [])
        ∷ [];
  };
}
