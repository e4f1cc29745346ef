-- ===== src/Storage/Order.antt =====
-- The order of `List`.
use mathlib.Core.List.{Perm}
use mathlib.Core.List.Perm
use tuti_server.Base.{ℕ, ◌≤◌, List, [], ◌∷◌, arith, ltb, Bool-cases, inl, inr}
use tuti_server.Dict
use tuti_server.Storage.{Object, LocalFs, insert_newest, newest_first, list}

insert_newest-perm : (o : Object) (objs : List Object) → Perm (insert_newest o objs) (o ∷ objs)
unfolding insert_newest
insert_newest-perm o [] = Perm.refl _
insert_newest-perm o (p ∷ rest) = elim (Bool-cases (ltb o.uploaded_at p.uploaded_at)) [
  | inl older ↦ rw older (Perm.trans (Perm.cons p (insert_newest-perm o rest)) (Perm.swap o p rest))
  | inr newer ↦ rw newer (Perm.refl _)
]

newest_first-perm : (objs : List Object) → Perm (newest_first objs) objs
unfolding newest_first
newest_first-perm [] = Perm.refl _
newest_first-perm (o ∷ objs) =
    Perm.trans (insert_newest-perm o (newest_first objs)) (Perm.cons o (newest_first-perm objs))

-- No object of the list was uploaded after this time.
abbrev pub NoneAfter : ℕ → List Object → Type 0
NoneAfter t [] = Unit
NoneAfter t (o ∷ objs) = (o.uploaded_at ≤ t) × NoneAfter t objs

-- Each object was uploaded no later than the ones in front of it.
abbrev pub IsNewestFirst : List Object → Type 0
IsNewestFirst [] = Unit
IsNewestFirst (o ∷ objs) = NoneAfter o.uploaded_at objs × IsNewestFirst objs

NoneAfter-mono : (a b : ℕ) (objs : List Object) → a ≤ b → NoneAfter a objs → NoneAfter b objs
NoneAfter-mono a b [] h n = tt
NoneAfter-mono a b (o ∷ objs) h (n, ns) = (omega arith, NoneAfter-mono a b objs h ns)

NoneAfter-insert :
    (t : ℕ) (o : Object) (objs : List Object)
    → o.uploaded_at ≤ t
    → NoneAfter t objs
    → NoneAfter t (insert_newest o objs)
unfolding insert_newest
NoneAfter-insert t o [] h n = (h, tt)
NoneAfter-insert t o (p ∷ rest) h (n, ns) = ground (arith, NoneAfter-insert t o rest h ns)

insert_newest-IsNewestFirst :
    (o : Object) (objs : List Object) → IsNewestFirst objs → IsNewestFirst (insert_newest o objs)
unfolding insert_newest
insert_newest-IsNewestFirst o [] h = (tt, tt)
insert_newest-IsNewestFirst o (p ∷ rest) (n, h) = ground (
  arith,
  insert_newest-IsNewestFirst o rest h,
  NoneAfter-insert p.uploaded_at o rest,
  NoneAfter-mono p.uploaded_at o.uploaded_at rest,
)

newest_first-IsNewestFirst : (objs : List Object) → IsNewestFirst (newest_first objs)
unfolding newest_first
newest_first-IsNewestFirst [] = tt
newest_first-IsNewestFirst (o ∷ objs) =
    insert_newest-IsNewestFirst o (newest_first objs) (newest_first-IsNewestFirst objs)

-- List returns every stored object, each as often as it is stored, the most recently uploaded first.
pub list_sorted :
    {D : Type 0} (st : LocalFs D)
    → Perm (list st) (Dict.values st.objects) × IsNewestFirst (list st)
unfolding list
list_sorted st = (
  newest_first-perm (Dict.values st.objects),
  newest_first-IsNewestFirst (Dict.values st.objects),
)
