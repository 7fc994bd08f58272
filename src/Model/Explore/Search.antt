-- ===== src/Model/Explore/Search.antt =====
-- What the search of tracing-console/src/model/explore.rs finds, described by the occurrences of the query,
-- and the order of a sorted list.
use tracing_console.Base.{
  ℕ, ◌≡◌, ◌↔◌, ◌⊎◌, inl, inr, refl, ap, ◌∙◌, Bool, Bool-cases, true, false, ◌||◌, any, List, [],
  ◌∷◌, ◌++◌, arith,
}
use tracing_console.Base.Text.{Text, starts_with, contains}
use tracing_console.Host.Protocol.{WireFieldValue, WireEvent, WireSpan, to_string_value}
use tracing_console.Model.Graph.Inputs.{to_lower}
use tracing_console.Model.Explore.{field_matches, span_matches_query, query_keeps}

module _ {A : Type 0} where
  -- Some element of the list has the property.
  abbrev pub Among : (A → Type 0) → List A → Type 0
  Among P [] = ⊥
  Among P (x ∷ xs) = P x ⊎ Among P xs

  any-Among :
      (P : A → Type 0) (p : A → Bool)
      → ((x : A) → (p x ≡ true) ↔ P x)
      → (xs : List A) → (any p xs ≡ true) ↔ Among P xs
  any-Among P p same [] = (λ e. cc, λ h. absurd h)
  any-Among P p same (x ∷ xs) =
      let rest = any-Among P p same xs in
      (
        λ e. elim (Bool-cases (p x)) [
          | inl holds ↦ inl ((same x).0 holds)
          | inr fails ↦ inr (rest.0 (ground (arith, fails)))
        ],
        λ h. elim h [
          | inl here ↦ let holds = (same x).1 here in ground (arith, holds)
          | inr later ↦ let holds = rest.1 later in ground (arith, holds)
        ],
      )

either-true :
    (a b : Bool) (P Q : Type 0) → (a ≡ true) ↔ P → (b ≡ true) ↔ Q → ((a || b) ≡ true) ↔ (P ⊎ Q)
either-true true b P Q p q = (λ e. inl (p.0 refl), λ h. refl)
either-true false b P Q p q =
    (λ e. inr (q.0 e), λ h. elim h [ inl x ↦ absurd (let e = p.1 x in cc) | inr y ↦ q.1 y ])

-- The query stands somewhere in the text.
abbrev pub Occurs : Text → Text → Type 0
Occurs q text = (before : Text) × (after : Text) × (text ≡ before ++ q ++ after)

starts_with_sound :
    (hay needle : Text) → starts_with hay needle ≡ true → (after : Text) × (hay ≡ needle ++ after)
unfolding starts_with
starts_with_sound hay [] e = (hay, refl)
starts_with_sound [] (c ∷ needle) e = absurd (cc)
starts_with_sound (d ∷ hay) (c ∷ needle) e =
    let (after, same) = starts_with_sound hay needle (ground (arith, e)) in
    let first : d ≡ c = ground (arith, e) in
    (after, ap (λ t. d ∷ t) same ∙ ap (λ x. x ∷ (needle ++ after)) first)

starts_with-append : (needle after : Text) → starts_with (needle ++ after) needle ≡ true
unfolding starts_with
starts_with-append [] after = ground arith
starts_with-append (c ∷ needle) after = ground (arith, starts_with-append needle after)

contains_sound : (hay q : Text) → contains hay q ≡ true → Occurs q hay
unfolding contains
contains_sound [] q e = let (after, same) = starts_with_sound [] q e in ([], after, same)
contains_sound (d ∷ hay) q e = elim (Bool-cases (starts_with (d ∷ hay) q)) [
  | inl holds ↦ let (after, same) = starts_with_sound (d ∷ hay) q holds in ([], after, same)
  | inr fails ↦
      let (before, after, same) = contains_sound hay q (ground (arith, fails)) in
      (d ∷ before, after, ap (λ t. d ∷ t) same)
]

contains-append : (before q after : Text) → contains (before ++ q ++ after) q ≡ true
unfolding contains
contains-append [] [] [] = unfold starts_with in refl
contains-append [] [] (d ∷ after) = unfold starts_with in refl
contains-append [] (c ∷ q) after = ground (arith, starts_with-append (c ∷ q) after)
contains-append (d ∷ before) q after = ground (arith, contains-append before q after)

contains-Occurs : (hay q : Text) → (contains hay q ≡ true) ↔ Occurs q hay
contains-Occurs hay q = (
  contains_sound hay q,
  λ o. let (before, after, same) = o in rw same (contains-append before q after),
)

module _ (show_f64 : ℕ → Text) where
  -- The query stands in a key or in a value, in lower case.
  abbrev pub InFields : Text → List (Text × WireFieldValue) → Type 0
  InFields q fields =
      Among
        (λ (kv : Text × WireFieldValue).
          Occurs q (to_lower kv.0) ⊎ Occurs q (to_lower (to_string_value show_f64 kv.1)))
        fields

  -- The query is blank, or stands in the name or the fields of the span or of one of its events.
  abbrev pub Found : Text → WireSpan → Type 0
  Found q s =
      (q ≡ [])
      ⊎ ((Occurs q (to_lower s.name) ⊎ InFields q s.fields)
          ⊎ Among (λ (e : WireEvent). Occurs q (to_lower e.name) ⊎ InFields q e.fields) s.events)

  field_matches-InFields :
      (q : Text) (fields : List (Text × WireFieldValue))
      → (field_matches show_f64 q fields ≡ true) ↔ InFields q fields
  unfolding field_matches
  field_matches-InFields q fields =
      any-Among _ _
        (λ kv.
          either-true _ _ _ _ (contains-Occurs (to_lower kv.0) q)
            (contains-Occurs (to_lower (to_string_value show_f64 kv.1)) q))
        fields

  pub query_keeps-Found : (q : Text) (s : WireSpan) → (query_keeps show_f64 q s ≡ true) ↔ Found q s
  unfolding query_keeps span_matches_query
  query_keeps-Found [] s = (λ e. inl refl, λ h. refl)
  query_keeps-Found (c ∷ q) s =
      let spoken =
        either-true _ _ _ _
          (either-true _ _ _ _ (contains-Occurs (to_lower s.name) (c ∷ q))
            (field_matches-InFields (c ∷ q) s.fields))
          (any-Among _ _
            (λ e.
              either-true _ _ _ _ (contains-Occurs (to_lower e.name) (c ∷ q))
                (field_matches-InFields (c ∷ q) e.fields))
            s.events) in
      (λ e. inr (spoken.0 e), λ h. elim h [ inl blank ↦ absurd (cc) | inr found ↦ spoken.1 found ])
