-- ===== src/Model/Order/Laws.antt =====
-- Sorting keeps the elements and orders them, in tracing-console/src/model.
use mathlib.Core.List.{Perm}
use mathlib.Core.List.Perm
use tracing_console.Base.{
  ℕ, ◌≤◌, ◌≡◌, refl, true, false, Bool, Bool-cases, inl, inr, List, [], ◌∷◌, leb, leb→le, arith,
}
use tracing_console.Base.Text.{Text}
use tracing_console.Aggregate.State.Keys.{text_le}
use tracing_console.Model.Order.{insert_by, sort_by}

module _ {A : Type 0} (not_after : A → A → Bool) where
  insert_by-Perm : (a : A) (bs : List A) → Perm (insert_by not_after a bs) (a ∷ bs)
  unfolding insert_by
  insert_by-Perm a [] = Perm.refl (a ∷ [])
  insert_by-Perm a (b ∷ bs) = elim (Bool-cases (not_after a b)) [
    | inl e ↦ rw e (Perm.refl (a ∷ b ∷ bs))
    | inr e ↦ rw e (Perm.trans (Perm.cons b (insert_by-Perm a bs)) (Perm.swap a b bs))
  ]

  pub sort_by-Perm : (as' : List A) → Perm (sort_by not_after as') as'
  unfolding sort_by
  sort_by-Perm [] = Perm.refl []
  sort_by-Perm (a ∷ bs) =
      Perm.trans (insert_by-Perm a (sort_by not_after bs)) (Perm.cons a (sort_by-Perm bs))

module _ {A : Type 0} (key : A → ℕ) where
  -- Each key is at most the next one.
  abbrev pub IsAscending : List A → Type 0
  IsAscending [] = Unit {0}
  IsAscending (a ∷ []) = Unit {0}
  IsAscending (a ∷ b ∷ bs) = (key a ≤ key b) × IsAscending (b ∷ bs)

  abbrev IsAbove : A → List A → Type 0
  IsAbove b [] = Unit {0}
  IsAbove b (a ∷ bs) = key b ≤ key a

  IsAscending-cons : (b : A) (bs : List A) → IsAbove b bs → IsAscending bs → IsAscending (b ∷ bs)
  IsAscending-cons b [] h v = tt
  IsAscending-cons b (a ∷ bs) h v = (h, v)

  IsAscending-head : (b : A) (bs : List A) → IsAscending (b ∷ bs) → IsAbove b bs × IsAscending bs
  IsAscending-head b [] v = (tt, tt)
  IsAscending-head b (a ∷ bs) v = (v.0, v.1)

  abbrev by_key : A → A → Bool
  by_key x y = leb (key x) (key y)

  insert_by-IsAbove :
      (b a : A) (bs : List A) → key b ≤ key a → IsAbove b bs → IsAbove b (insert_by by_key a bs)
  unfolding insert_by
  insert_by-IsAbove b a [] h v = h
  insert_by-IsAbove b a (c ∷ bs) h v = elim (Bool-cases (leb (key a) (key c))) [
    | inl e ↦ rw e h
    | inr e ↦ rw e v
  ]

  insert_by-IsAscending :
      (a : A) (bs : List A) → IsAscending bs → IsAscending (insert_by by_key a bs)
  unfolding insert_by
  insert_by-IsAscending a [] h = tt
  insert_by-IsAscending a (b ∷ bs) h = elim (Bool-cases (leb (key a) (key b))) [
    | inl e ↦ rw e (leb→le (key a) (key b) e, h)
    | inr e ↦
        let (above, rest) = IsAscending-head b bs h in
        rw e (
          IsAscending-cons b (insert_by by_key a bs) (insert_by-IsAbove b a bs (ground arith) above)
            (insert_by-IsAscending a bs rest))
  ]

  pub sort_by-IsAscending : (bs : List A) → IsAscending (sort_by (λ x y. leb (key x) (key y)) bs)
  unfolding sort_by
  sort_by-IsAscending [] = tt
  sort_by-IsAscending (a ∷ bs) =
      insert_by-IsAscending a (sort_by (λ x y. leb (key x) (key y)) bs) (sort_by-IsAscending bs)

pub text_le_total : (a b : Text) → text_le a b ≡ false → text_le b a ≡ true
unfolding text_le
text_le_total [] b h = cc
text_le_total (x ∷ a) [] h = refl
text_le_total (x ∷ a) (y ∷ b) h = ground (arith, text_le_total a b)

-- A list sorted by a comparison.
module _ {A : Type 0} (not_after : A → A → Bool) where
  -- Each element is not after the next one.
  abbrev pub IsInOrder : List A → Type 0
  IsInOrder [] = Unit {0}
  IsInOrder (a ∷ []) = Unit {0}
  IsInOrder (a ∷ b ∷ bs) = (not_after a b ≡ true) × IsInOrder (b ∷ bs)

  abbrev IsBelow : A → List A → Type 0
  IsBelow b [] = Unit {0}
  IsBelow b (a ∷ bs) = not_after b a ≡ true

  IsInOrder-cons : (b : A) (bs : List A) → IsBelow b bs → IsInOrder bs → IsInOrder (b ∷ bs)
  IsInOrder-cons b [] h v = tt
  IsInOrder-cons b (a ∷ bs) h v = (h, v)

  IsInOrder-head : (b : A) (bs : List A) → IsInOrder (b ∷ bs) → IsBelow b bs × IsInOrder bs
  IsInOrder-head b [] v = (tt, tt)
  IsInOrder-head b (a ∷ bs) v = (v.0, v.1)

  module _ (total : (a b : A) → not_after a b ≡ false → not_after b a ≡ true) where
    insert_by-IsBelow :
        (b a : A) (bs : List A)
        → not_after b a ≡ true
        → IsBelow b bs
        → IsBelow b (insert_by not_after a bs)
    unfolding insert_by
    insert_by-IsBelow b a [] h v = h
    insert_by-IsBelow b a (c ∷ bs) h v = elim (Bool-cases (not_after a c)) [
      | inl e ↦ rw e h
      | inr e ↦ rw e v
    ]

    insert_by-IsInOrder :
        (a : A) (bs : List A) → IsInOrder bs → IsInOrder (insert_by not_after a bs)
    unfolding insert_by
    insert_by-IsInOrder a [] h = tt
    insert_by-IsInOrder a (b ∷ bs) h = elim (Bool-cases (not_after a b)) [
      | inl e ↦ rw e (e, h)
      | inr e ↦
          let (below, rest) = IsInOrder-head b bs h in
          rw e (
            IsInOrder-cons b (insert_by not_after a bs)
              (insert_by-IsBelow b a bs (total a b e) below) (insert_by-IsInOrder a bs rest))
    ]

    pub sort_by-IsInOrder : (bs : List A) → IsInOrder (sort_by not_after bs)
    unfolding sort_by
    sort_by-IsInOrder [] = tt
    sort_by-IsInOrder (a ∷ bs) = insert_by-IsInOrder a (sort_by not_after bs) (sort_by-IsInOrder bs)
