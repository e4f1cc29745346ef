-- ===== src/Catalog/Lessons/Statistics.antt =====
-- A lesson of internal/catalog/lessons.go, in both languages.
use tuti_server.Base.{[], ◌∷◌, pos}
use tuti_server.Proto.{LessonContent}
use tuti_server.Catalog.Blocks.{text, math_block, step}

unfoldable pub statistics_en : LessonContent
statistics_en = record {
  id = "statistics_mean_median";
  title = "Mean & Median";
  topic = "Statistics";
  icon_name = "bar_chart";
  language = "en";
  context =
      text
        "Averages summarise data. News headlines, sports statistics, and scientific studies all rely on mean and median to tell the story of a dataset."
      ∷ [];
  sections =
      (record {
        heading = "Mean (Average)";
        content =
            text "Add all values and divide by the count:"
            ∷ math_block "\\bar{x} = \\frac{x_1 + x_2 + \\cdots + x_n}{n}"
            ∷ [];
      })
      ∷ (record {
        heading = "Median";
        content =
            text
              "The middle value when data are sorted. If n is even, the median is the mean of the two middle values."
            ∷ [];
      })
      ∷ (record {
        heading = "When to Use Each";
        content =
            text
              "The mean is sensitive to outliers. Use the median when the data contains extreme values (e.g. income data)."
            ∷ [];
      })
      ∷ [];
  worked_example = record {
    heading = "Worked Example";
    content =
        text "Dataset: 4, 7, 2, 9, 4, 6"
        ∷ step (pos 1) "Mean"
            (math_block "\\bar{x} = \\frac{4+7+2+9+4+6}{6} = \\frac{32}{6} \\approx 5.33" ∷ [])
        ∷ step (pos 2) "Median — sort first: 2, 4, 4, 6, 7, 9"
            (math_block "\\text{Median} = \\frac{4 + 6}{2} = 5" ∷ [])
        ∷ [];
  };
}

unfoldable pub statistics_es : LessonContent
statistics_es = record {
  id = "statistics_mean_median";
  title = "Media y Mediana";
  topic = "Estadística";
  icon_name = "bar_chart";
  language = "es";
  context =
      text
        "Los promedios resumen datos. Titulares de noticias, estadísticas deportivas y estudios científicos dependen de la media y la mediana para contar la historia de un conjunto de datos."
      ∷ [];
  sections =
      (record {
        heading = "Media (Promedio)";
        content =
            text "Suma todos los valores y divide entre la cantidad:"
            ∷ math_block "\\bar{x} = \\frac{x_1 + x_2 + \\cdots + x_n}{n}"
            ∷ [];
      })
      ∷ (record {
        heading = "Mediana";
        content =
            text
              "El valor central al ordenar los datos. Si n es par, la mediana es el promedio de los dos valores centrales."
            ∷ [];
      })
      ∷ [];
  worked_example = record {
    heading = "Ejemplo Resuelto";
    content =
        text "Datos: 4, 7, 2, 9, 4, 6"
        ∷ step (pos 1) "Media" (math_block "\\bar{x} = \\frac{32}{6} \\approx 5.33" ∷ [])
        ∷ step (pos 2) "Mediana — ordenar: 2, 4, 4, 6, 7, 9"
            (math_block "\\text{Mediana} = \\frac{4 + 6}{2} = 5" ∷ [])
        ∷ [];
  };
}
