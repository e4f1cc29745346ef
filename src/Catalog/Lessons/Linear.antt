-- ===== src/Catalog/Lessons/Linear.antt =====
-- A lesson of internal/catalog/lessons.go, in both languages.
use tuti_server.Base.{[], ◌∷◌, pos, negsuc, ◌+ℤ◌, ◌*ℤ◌, false}
use tuti_server.Proto.{LessonContent}
use tuti_server.Catalog.Blocks.{text, math_block, step, graph_2d, axis, line_series, line_points}

unfoldable pub linear_equations_en : LessonContent
linear_equations_en = record {
  id = "linear_equations";
  title = "Linear Equations";
  topic = "Algebra";
  icon_name = "linear_scale";
  language = "en";
  context =
      text
        "Linear equations describe straight-line relationships between quantities. They appear constantly in daily life: splitting a bill, converting temperatures, calculating travel time."
      ∷ text
          "Any time you know two quantities are equal and one is unknown, you are facing a linear equation."
      ∷ [];
  sections =
      (record {
        heading = "What is a Linear Equation?";
        content =
            text "A linear equation in one variable has the standard form:"
            ∷ math_block "ax + b = c"
            ∷ text
                "where a ≠ 0 is the coefficient of the unknown x, and b and c are constants. Solving the equation means finding the value of x that makes the statement true."
            ∷ [];
      })
      ∷ (record {
        heading = "Solving by Isolation";
        content =
            text
              "The goal is to get x alone on one side. Apply the same operation to both sides to keep the equation balanced."
            ∷ step (pos 1) "Subtract b from both sides"
                (math_block "ax + b - b = c - b" ∷ math_block "ax = c - b" ∷ [])
            ∷ step (pos 2) "Divide both sides by a" (math_block "x = \\frac{c - b}{a}" ∷ [])
            ∷ [];
      })
      ∷ (record {
        heading = "Solving Systems by Substitution";
        content =
            text
              "When two equations share the same two unknowns, express one variable in terms of the other, then substitute."
            ∷ text "Example system:"
            ∷ math_block "y = 2x + 1"
            ∷ math_block "y = -x + 4"
            ∷ graph_2d "Both lines — where do they meet?" (axis "x" (negsuc 4999) (pos 45000))
                (axis "y" (negsuc 9999) (pos 70000))
                (line_series "y = 2x + 1" "#6200EA"
                    (line_points (negsuc 4999) (pos 25000) (pos 2500)
                      (λ x. (pos 2 *ℤ x) +ℤ pos 10000))
                    false
                  ∷ line_series "y = −x + 4" "#E65100"
                      (line_points (negsuc 4999) (pos 45000) (pos 2500)
                        (λ x. (negsuc 0 *ℤ x) +ℤ pos 40000))
                      false
                  ∷ [])
            ∷ step (pos 1) "Substitute — set the right-hand sides equal"
                (math_block "2x + 1 = -x + 4" ∷ [])
            ∷ step (pos 2) "Collect like terms"
                (math_block "3x = 3 \\quad\\Rightarrow\\quad x = 1" ∷ [])
            ∷ step (pos 3) "Back-substitute to find y" (
                math_block "y = 2(1) + 1 = 3"
                ∷ math_block "\\text{Solution: } (x,\\, y) = (1,\\, 3)"
                ∷ [])
            ∷ [];
      })
      ∷ [];
  worked_example = record {
    heading = "Worked Example";
    content =
        text "Solve for x:"
        ∷ math_block "5x - 3 = 12"
        ∷ step (pos 1) "Add 3 to both sides" (math_block "5x = 15" ∷ [])
        ∷ step (pos 2) "Divide both sides by 5" (math_block "x = \\frac{15}{5} = 3" ∷ [])
        ∷ text "Check: 5(3) − 3 = 15 − 3 = 12 ✓"
        ∷ [];
  };
}

unfoldable pub linear_equations_es : LessonContent
linear_equations_es = record {
  id = "linear_equations";
  title = "Ecuaciones Lineales";
  topic = "Álgebra";
  icon_name = "linear_scale";
  language = "es";
  context =
      text
        "Las ecuaciones lineales describen relaciones de línea recta entre cantidades. Aparecen constantemente en la vida diaria: dividir una cuenta, convertir temperaturas, calcular tiempos de viaje."
      ∷ text
          "Cada vez que sabes que dos cantidades son iguales y una es desconocida, estás frente a una ecuación lineal."
      ∷ [];
  sections =
      (record {
        heading = "¿Qué es una Ecuación Lineal?";
        content =
            text "Una ecuación lineal en una variable tiene la forma estándar:"
            ∷ math_block "ax + b = c"
            ∷ text
                "donde a ≠ 0 es el coeficiente de la incógnita x, y b y c son constantes. Resolver la ecuación significa encontrar el valor de x que hace verdadera la igualdad."
            ∷ [];
      })
      ∷ (record {
        heading = "Resolver por Aislamiento";
        content =
            text
              "El objetivo es dejar x solo en un lado. Aplica la misma operación a ambos lados para mantener el equilibrio."
            ∷ step (pos 1) "Restar b en ambos lados"
                (math_block "ax + b - b = c - b" ∷ math_block "ax = c - b" ∷ [])
            ∷ step (pos 2) "Dividir ambos lados entre a" (math_block "x = \\frac{c - b}{a}" ∷ [])
            ∷ [];
      })
      ∷ (record {
        heading = "Resolver Sistemas por Sustitución";
        content =
            text
              "Cuando dos ecuaciones comparten dos incógnitas, expresa una variable en términos de la otra y sustituye."
            ∷ text "Sistema de ejemplo:"
            ∷ math_block "y = 2x + 1"
            ∷ math_block "y = -x + 4"
            ∷ graph_2d "Las dos rectas — ¿dónde se cortan?" (axis "x" (negsuc 4999) (pos 45000))
                (axis "y" (negsuc 9999) (pos 70000))
                (line_series "y = 2x + 1" "#6200EA"
                    (line_points (negsuc 4999) (pos 25000) (pos 2500)
                      (λ x. (pos 2 *ℤ x) +ℤ pos 10000))
                    false
                  ∷ line_series "y = −x + 4" "#E65100"
                      (line_points (negsuc 4999) (pos 45000) (pos 2500)
                        (λ x. (negsuc 0 *ℤ x) +ℤ pos 40000))
                      false
                  ∷ [])
            ∷ step (pos 1) "Sustituir — igualar los lados derechos"
                (math_block "2x + 1 = -x + 4" ∷ [])
            ∷ step (pos 2) "Reunir términos semejantes"
                (math_block "3x = 3 \\quad\\Rightarrow\\quad x = 1" ∷ [])
            ∷ step (pos 3) "Retro-sustituir para hallar y" (
                math_block "y = 2(1) + 1 = 3"
                ∷ math_block "\\text{Solución: } (x,\\, y) = (1,\\, 3)"
                ∷ [])
            ∷ [];
      })
      ∷ [];
  worked_example = record {
    heading = "Ejemplo Resuelto";
    content =
        text "Resuelve para x:"
        ∷ math_block "5x - 3 = 12"
        ∷ step (pos 1) "Suma 3 a ambos lados" (math_block "5x = 15" ∷ [])
        ∷ step (pos 2) "Divide ambos lados entre 5" (math_block "x = \\frac{15}{5} = 3" ∷ [])
        ∷ text "Comprobación: 5(3) − 3 = 15 − 3 = 12 ✓"
        ∷ [];
  };
}
