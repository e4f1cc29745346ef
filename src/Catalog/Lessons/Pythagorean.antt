-- ===== src/Catalog/Lessons/Pythagorean.antt =====
-- A lesson of internal/catalog/lessons.go, in both languages.
use tuti_server.Base.{[], ◌∷◌, pos, negsuc}
use tuti_server.Proto.{LessonContent}
use tuti_server.Catalog.Blocks.{
  text, math_block, step, geometry, view_box, segment, geo_angle, geo_label,
}

unfoldable pub pythagorean_theorem_en : LessonContent
pythagorean_theorem_en = record {
  id = "pythagorean_theorem";
  title = "Pythagorean Theorem";
  topic = "Geometry";
  icon_name = "change_history";
  language = "en";
  context =
      text
        "Builders, sailors, and engineers use the Pythagorean theorem daily. It is the mathematical reason a 3-4-5 rope trick guarantees a right angle on a construction site."
      ∷ [];
  sections =
      (record {
        heading = "The Theorem";
        content =
            text "In any right triangle with legs a, b and hypotenuse c:"
            ∷ math_block "a^2 + b^2 = c^2"
            ∷ geometry "Right triangle"
                (view_box (negsuc 7999) (negsuc 6999) (pos 52000) (pos 44000))
                (segment (pos 0) (pos 0) (pos 40000) (pos 0) "#000000"
                  ∷ segment (pos 0) (pos 0) (pos 0) (pos 30000) "#000000"
                  ∷ segment (pos 40000) (pos 0) (pos 0) (pos 30000) "#6200EA"
                  ∷ geo_angle (pos 0) (pos 0) (pos 4000) (pos 0) (pos 900000) "#0055FF"
                  ∷ geo_label (pos 20000) (negsuc 3499) "a" "#000000"
                  ∷ geo_label (negsuc 2999) (pos 15000) "b" "#000000"
                  ∷ geo_label (pos 24000) (pos 19000) "c" "#6200EA"
                  ∷ [])
            ∷ [];
      })
      ∷ (record {
        heading = "Finding the Hypotenuse";
        content =
            text "Rearrange to isolate c:"
            ∷ math_block "c = \\sqrt{a^2 + b^2}"
            ∷ text "Finding a leg when the other two sides are known:"
            ∷ math_block "a = \\sqrt{c^2 - b^2}"
            ∷ [];
      })
      ∷ [];
  worked_example = record {
    heading = "Worked Example";
    content =
        text "A right triangle has legs a = 5 and b = 12. Find c."
        ∷ step (pos 1) "Square the legs" (math_block "5^2 + 12^2 = 25 + 144 = 169" ∷ [])
        ∷ step (pos 2) "Take the square root" (math_block "c = \\sqrt{169} = 13" ∷ [])
        ∷ [];
  };
}

unfoldable pub pythagorean_theorem_es : LessonContent
pythagorean_theorem_es = record {
  id = "pythagorean_theorem";
  title = "Teorema de Pitágoras";
  topic = "Geometría";
  icon_name = "change_history";
  language = "es";
  context =
      text
        "Constructores, marineros e ingenieros usan el teorema de Pitágoras a diario. Es la razón matemática por la que el truco de la cuerda 3-4-5 garantiza un ángulo recto."
      ∷ [];
  sections =
      (record {
        heading = "El Teorema";
        content =
            text "En todo triángulo rectángulo con catetos a, b e hipotenusa c:"
            ∷ math_block "a^2 + b^2 = c^2"
            ∷ geometry "Triángulo rectángulo"
                (view_box (negsuc 7999) (negsuc 6999) (pos 52000) (pos 44000))
                (segment (pos 0) (pos 0) (pos 40000) (pos 0) "#000000"
                  ∷ segment (pos 0) (pos 0) (pos 0) (pos 30000) "#000000"
                  ∷ segment (pos 40000) (pos 0) (pos 0) (pos 30000) "#6200EA"
                  ∷ geo_angle (pos 0) (pos 0) (pos 4000) (pos 0) (pos 900000) "#0055FF"
                  ∷ geo_label (pos 20000) (negsuc 3499) "a" "#000000"
                  ∷ geo_label (negsuc 2999) (pos 15000) "b" "#000000"
                  ∷ geo_label (pos 24000) (pos 19000) "c" "#6200EA"
                  ∷ [])
            ∷ [];
      })
      ∷ [];
  worked_example = record {
    heading = "Ejemplo Resuelto";
    content =
        text "Un triángulo rectángulo tiene catetos a = 5 y b = 12. Halla c."
        ∷ step (pos 1) "Elevar al cuadrado los catetos"
            (math_block "5^2 + 12^2 = 25 + 144 = 169" ∷ [])
        ∷ step (pos 2) "Sacar la raíz cuadrada" (math_block "c = \\sqrt{169} = 13" ∷ [])
        ∷ [];
  };
}
