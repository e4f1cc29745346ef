-- ===== src/Catalog/Lessons/Derivatives.antt =====
-- A lesson of internal/catalog/lessons.go, in both languages.
use tuti_server.Base.{[], ◌∷◌, pos, negsuc, ◌+ℤ◌, ◌*ℤ◌, true, false}
use tuti_server.Proto.{LessonContent}
use tuti_server.Catalog.Blocks.{
  text, math_block, step, graph_2d, axis, line_series, line_points, parabola_points, square,
}

unfoldable pub intro_to_derivatives_en : LessonContent
intro_to_derivatives_en = record {
  id = "intro_to_derivatives";
  title = "Introduction to Derivatives";
  topic = "Calculus";
  icon_name = "show_chart";
  language = "en";
  context =
      text
        "The derivative answers one question: how fast is this changing right now? Speedometers, weather models, and economic forecasts all depend on rates of change."
      ∷ [];
  sections =
      (record {
        heading = "Definition";
        content =
            text "The derivative of f at x is the slope of the tangent line:"
            ∷ math_block "f'(x) = \\lim_{h \\to 0} \\frac{f(x+h) - f(x)}{h}"
            ∷ graph_2d "f(x) = x² and its tangent at x = 1  (slope = 2)"
                (axis "x" (negsuc 19999) (pos 30000)) (axis "f(x)" (negsuc 9999) (pos 60000))
                (line_series "f(x) = x²" "#6200EA"
                    (parabola_points (negsuc 19999) (pos 30000) (pos 2000) (λ x. square x)) false
                  ∷ line_series "Tangent at x = 1  (f'(1) = 2)" "#E65100"
                      (line_points (negsuc 4999) (pos 25000) (pos 5000)
                        (λ x. (pos 2 *ℤ x) +ℤ negsuc 9999))
                      true
                  ∷ [])
            ∷ [];
      })
      ∷ (record {
        heading = "Power Rule";
        content =
            text "The most used differentiation rule: for f(x) = xⁿ,"
            ∷ math_block "f'(x) = n \\cdot x^{n-1}"
            ∷ text "Examples:"
            ∷ math_block "f(x) = x^3 \\Rightarrow f'(x) = 3x^2"
            ∷ math_block "f(x) = x^5 \\Rightarrow f'(x) = 5x^4"
            ∷ math_block "f(x) = x \\Rightarrow f'(x) = 1"
            ∷ [];
      })
      ∷ [];
  worked_example = record {
    heading = "Worked Example";
    content =
        text "Differentiate f(x) = 4x³ − 2x + 7."
        ∷ step (pos 1) "Apply the power rule term by term" (
            math_block "\\frac{d}{dx}[4x^3] = 12x^2"
            ∷ math_block "\\frac{d}{dx}[-2x] = -2"
            ∷ math_block "\\frac{d}{dx}[7] = 0"
            ∷ [])
        ∷ step (pos 2) "Combine" (math_block "f'(x) = 12x^2 - 2" ∷ [])
        ∷ [];
  };
}

unfoldable pub intro_to_derivatives_es : LessonContent
intro_to_derivatives_es = record {
  id = "intro_to_derivatives";
  title = "Introducción a las Derivadas";
  topic = "Cálculo";
  icon_name = "show_chart";
  language = "es";
  context =
      text
        "La derivada responde una pregunta: ¿qué tan rápido cambia esto ahora mismo? Los velocímetros, modelos meteorológicos y pronósticos económicos dependen de las tasas de cambio."
      ∷ [];
  sections =
      (record {
        heading = "Definición";
        content =
            text "La derivada de f en x es la pendiente de la recta tangente:"
            ∷ math_block "f'(x) = \\lim_{h \\to 0} \\frac{f(x+h) - f(x)}{h}"
            ∷ [];
      })
      ∷ (record {
        heading = "Regla de la Potencia";
        content =
            text "La regla de diferenciación más usada: para f(x) = xⁿ,"
            ∷ math_block "f'(x) = n \\cdot x^{n-1}"
            ∷ text "Ejemplos:"
            ∷ math_block "f(x) = x^3 \\Rightarrow f'(x) = 3x^2"
            ∷ math_block "f(x) = x^5 \\Rightarrow f'(x) = 5x^4"
            ∷ [];
      })
      ∷ [];
  worked_example = record {
    heading = "Ejemplo Resuelto";
    content =
        text "Deriva f(x) = 4x³ − 2x + 7."
        ∷ step (pos 1) "Aplica la regla de la potencia término a término"
            (math_block "f'(x) = 12x^2 - 2" ∷ [])
        ∷ [];
  };
}
