-- ===== src/Catalog/Blocks.antt =====
-- internal/catalog/blocks.go. A `float64` is an integer number of ten-thousandths, which is exact for
-- the arguments of the catalog and the precision of `roundTo4`.
use tuti_server.Base.{
  ℕ, zero, suc, ◌*◌, ◌/◌, ℤ, pos, abs, ◌+ℤ◌, ◌*ℤ◌, negsuc, leb_ℤ, String, Bool, List, [], ◌∷◌,
  if◌then◌else◌,
}
use tuti_server.Proto
use tuti_server.Proto.{
  ContentBlock, blocks, AxisConfig, Series2D, Point2D, ViewBox2D, GeometryElement,
}

unfoldable pub text : String → ContentBlock
text s = Proto.text s

unfoldable pub math_block : String → ContentBlock
math_block expr = Proto.math expr

unfoldable pub step : ℤ → String → List ContentBlock → ContentBlock
step number label content = Proto.step number label (blocks content)

unfoldable pub axis : String → ℤ → ℤ → AxisConfig
axis label min max = record { label = label; min = min; max = max }

unfoldable pub graph_2d : String → AxisConfig → AxisConfig → List Series2D → ContentBlock
graph_2d title x_axis y_axis series =
    Proto.graph_2d (record { title = title; series = series; x_axis = x_axis; y_axis = y_axis })

unfoldable pub view_box : ℤ → ℤ → ℤ → ℤ → ViewBox2D
view_box x y width height = record { x = x; y = y; width = width; height = height }

unfoldable pub geometry : String → ViewBox2D → List GeometryElement → ContentBlock
geometry title view_box elements =
    Proto.geometry (record { title = title; elements = elements; view_box = view_box })

unfoldable pub line_series : String → String → List Point2D → Bool → Series2D
line_series label color points dashed = record {
  label = label;
  color = color;
  points = points;
  dashed = dashed;
}

unfoldable pub segment : ℤ → ℤ → ℤ → ℤ → String → GeometryElement
segment x1 y1 x2 y2 color = Proto.geo_segment x1 y1 x2 y2 color

unfoldable pub geo_angle : ℤ → ℤ → ℤ → ℤ → ℤ → String → GeometryElement
geo_angle cx cy radius start_deg end_deg color =
    Proto.geo_angle cx cy radius start_deg end_deg color

unfoldable pub geo_label : ℤ → ℤ → String → String → GeometryElement
geo_label x y text color = Proto.geo_label x y text color

-- The square of a number of ten-thousandths.
abbrev pub square : ℤ → ℤ
square x = pos (abs x * abs x / 10000)

-- The loop `for x := start; x <= end+step*0.01; x += step` with fuel.
unfoldable pub sample : ℕ → ℤ → ℤ → ℕ → (ℤ → ℤ) → List Point2D
sample zero x end step f = []
sample (suc fuel) x end step f =
    let later = sample fuel (x +ℤ pos step) end step f in
    if leb_ℤ x (end +ℤ pos (step / 100)) then record { x = x; y = f x } ∷ later else []

-- The fuel is one more than the steps that fit between the ends.
unfoldable pub parabola_points : ℤ → ℤ → ℤ → (ℤ → ℤ) → List Point2D
unfolding sample
parabola_points start end step f =
    sample (suc (suc (abs (end +ℤ (negsuc 0 *ℤ start)) / abs step))) start end (abs step) f

unfoldable pub line_points : ℤ → ℤ → ℤ → (ℤ → ℤ) → List Point2D
unfolding parabola_points
line_points start end step f = parabola_points start end step f
