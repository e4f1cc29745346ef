-- ===== src/Catalog/Topics/Laws.antt =====
-- The catalog's tables fit together.
use Prim.Native.Char.{Char}
use Prim.Native.String
use text.Mathlib.TextLemmas.{nil-append, cons-append}
use tuti_server.Base.{
  is_space, trim_left, trim_right, trim_space, String, ◌≡◌, ◌≢◌, ◌⊎◌, inl, inr, refl, ap, true,
  List, [], map, none, some, arith, ◌==◌, All, Bool-cases,
}
use tuti_server.Proto.{LessonReference, Problem}
use tuti_server.Catalog.Lessons.{lessons}
use tuti_server.Catalog.Bank.{linear_substitution_practice, quadratic_problem, pythagorean_problem}
use tuti_server.Catalog.Topics.{
  TopicGroup, algebra, plane_geometry, calculus, statistics, to_lower, lesson_refs, problems,
  topic_groups, find_lessons, find_problems, group_for, lessons_and_problems_for_topic,
}

abbrev IsGroup : TopicGroup → Type 0
IsGroup g =
    (find_lessons g.lesson_ids ≢ [])
    × (map (λ r. r.lesson_id) (find_lessons g.lesson_ids) ≡ g.lesson_ids)
    × (map (λ p. p.id) (find_problems g.problem_ids) ≡ g.problem_ids)
    × All (λ id. lessons id ≢ none) g.lesson_ids

-- What holds of each group, and of the default group, holds of the group of any topic.
in_group :
    (P : TopicGroup → Type 0) (t : String)
    → P algebra
    → P plane_geometry
    → P calculus
    → P statistics
    → P (elim (topic_groups t) [ some group ↦ group | none ↦ algebra ])
unfolding topic_groups
in_group P t a g c s = elim (Bool-cases (t == "algebra")) [
  | inl h ↦ rw h a
  | inr n ↦ elim (Bool-cases (t == "geometry")) [
    | inl h ↦ rw (n, h) g
    | inr m ↦ elim (Bool-cases (t == "calculus")) [
      | inl h ↦ rw (n, m, h) c
      | inr l ↦ elim (Bool-cases (t == "statistics")) [
        | inl h ↦ rw (n, m, l, h) s
        | inr k ↦ rw (n, m, l, k) a
      ]
    ]
  ]
]

groups-IsGroup : IsGroup algebra × IsGroup plane_geometry × IsGroup calculus × IsGroup statistics
unfolding find_lessons find_problems lesson_refs problems lessons linear_substitution_practice
    quadratic_problem pythagorean_problem
groups-IsGroup = (
  (λ e. cc, refl, refl, (λ e. cc, (λ e. cc, tt))),
  (λ e. cc, refl, refl, (λ e. cc, tt)),
  (λ e. cc, refl, refl, (λ e. cc, tt)),
  (λ e. cc, refl, refl, (λ e. cc, tt)),
)

module _ (unicode_lower : Char → Char) where
  -- For every topic there is a lesson to review; every lesson and every problem of the topic's group is
  -- returned, in order, with none passed over; and each lesson has contents in the library.
  pub topic_content_found :
      (topic : String)
      → ((lessons_and_problems_for_topic unicode_lower topic).0 ≢ [])
        × (map (λ r. r.lesson_id) (lessons_and_problems_for_topic unicode_lower topic).0
            ≡ (group_for unicode_lower topic).lesson_ids)
        × (map (λ p. p.id) (lessons_and_problems_for_topic unicode_lower topic).1
            ≡ (group_for unicode_lower topic).problem_ids)
        × All (λ id. lessons id ≢ none) (group_for unicode_lower topic).lesson_ids
  unfolding lessons_and_problems_for_topic group_for
  topic_content_found topic =
      let (a, g, c, s) = groups-IsGroup in
      in_group IsGroup (to_lower unicode_lower (trim_space topic)) a g c s

-- A blank in front of a text, or behind it, is trimmed off.
trim_right-blank :
    (s : String) (c : Char)
    → is_space c ≡ true
    → trim_right (String.◌++◌ s (String.◌∷◌ c "")) ≡ trim_right s
unfolding trim_right
trim_right-blank String.[] c h = rw nil-append (ground arith)
trim_right-blank (String.◌∷◌ d s) c h = rw cons-append (rw (trim_right-blank s c h) refl)

trim_left-blank :
    (s : String) (c : Char)
    → is_space c ≡ true
    → ((trim_left s ≡ "") × (trim_left (String.◌++◌ s (String.◌∷◌ c "")) ≡ ""))
      ⊎ (trim_left (String.◌++◌ s (String.◌∷◌ c "")) ≡ String.◌++◌ (trim_left s) (String.◌∷◌ c ""))
unfolding trim_left
trim_left-blank String.[] c h = inl (refl, rw nil-append (ground arith))
trim_left-blank (String.◌∷◌ d s) c h = elim (Bool-cases (is_space d)) [
  | inl blank ↦ rw cons-append (rw blank (trim_left-blank s c h))
  | inr other ↦ rw cons-append (rw other (inr (rw cons-append refl)))
]

trim_space-front :
    (s : String) (c : Char) → is_space c ≡ true → trim_space (String.◌∷◌ c s) ≡ trim_space s
unfolding trim_space
trim_space-front s c h = rw h

trim_space-blank :
    (s : String) (c : Char)
    → is_space c ≡ true
    → trim_space (String.◌++◌ s (String.◌∷◌ c "")) ≡ trim_space s
unfolding trim_space
trim_space-blank s c h = elim (trim_left-blank s c h) [
  | inl both ↦ rw (both.1, both.0)
  | inr moved ↦ rw moved (trim_right-blank (trim_left s) c h)
]

module _ (unicode_lower : Char → Char) where
  same_trimmed :
      (a b : String)
      → trim_space a ≡ trim_space b
      → lessons_and_problems_for_topic unicode_lower a
        ≡ lessons_and_problems_for_topic unicode_lower b
  unfolding lessons_and_problems_for_topic group_for
  same_trimmed a b e =
      ap
        (λ (t : String).
          let g : TopicGroup = elim (topic_groups (to_lower unicode_lower t)) [
            | some group ↦ group
            | none ↦ algebra
          ] in
          let r : List LessonReference × List Problem =
            (find_lessons g.lesson_ids, find_problems g.problem_ids) in
          r)
        e

  -- White space in front of a topic, or behind it, does not change what goes with it.
  pub topic_padding :
      (c : Char) (topic : String)
      → is_space c ≡ true
      → (lessons_and_problems_for_topic unicode_lower (String.◌∷◌ c topic)
          ≡ lessons_and_problems_for_topic unicode_lower topic)
        × (lessons_and_problems_for_topic unicode_lower (String.◌++◌ topic (String.◌∷◌ c ""))
            ≡ lessons_and_problems_for_topic unicode_lower topic)
  topic_padding c topic h = (
    same_trimmed (String.◌∷◌ c topic) topic (trim_space-front topic c h),
    same_trimmed (String.◌++◌ topic (String.◌∷◌ c "")) topic (trim_space-blank topic c h),
  )
