-- ===== src/Python/Names.antt =====
-- A `dict` with text keys as an association list, in insertion order.
use growatt_datalogger.Base.{
  Bool-cases, List, Option, [], ap, ap₂, arith, false, if◌then◌else◌, inl, inr, none, refl, some,
  subst, sym, true, ◌∙◌, ◌∷◌, ◌≡◌,
}
use growatt_datalogger.Python.Text.{Str, str_eq}

pub str_eq→eq : (s t : Str) → str_eq s t ≡ true → s ≡ t
str_eq→eq [] [] h = refl
str_eq→eq [] (y ∷ ys) h = cc
str_eq→eq (x ∷ xs) [] h = cc
str_eq→eq (x ∷ xs) (y ∷ ys) h = ap₂ ◌∷◌ (ground arith) (str_eq→eq xs ys (ground arith))

pub str_eq_refl : (s : Str) → str_eq s s ≡ true
str_eq_refl [] = refl
str_eq_refl (x ∷ xs) = ground (arith, str_eq_refl xs)

pub str_eq_sym : (s t : Str) → str_eq s t ≡ str_eq t s
str_eq_sym [] [] = refl
str_eq_sym [] (y ∷ ys) = refl
str_eq_sym (x ∷ xs) [] = refl
str_eq_sym (x ∷ xs) (y ∷ ys) = ground (arith, str_eq_sym xs ys)

module _ {ℓ} {V : Type ℓ} where
  -- `d.get(name)`
  unfoldable pub lookup_name : Str → List (Str × V) → Option V
  lookup_name k [] = none
  lookup_name k ((j, v) ∷ d) = if str_eq j k then some v else lookup_name k d

  -- `d[name] = v`: a key that is there keeps its place
  unfoldable pub insert_name : Str → V → List (Str × V) → List (Str × V)
  insert_name k v [] = (k, v) ∷ []
  insert_name k v ((j, w) ∷ d) = if str_eq j k then (j, v) ∷ d else (j, w) ∷ insert_name k v d

  pub lookup_name-insert_name :
      (k j : Str) (v : V) (d : List (Str × V))
      → lookup_name j (insert_name k v d) ≡ (if str_eq k j then some v else lookup_name j d)
  unfolding lookup_name insert_name
  lookup_name-insert_name k j v [] = refl
  lookup_name-insert_name k j v ((i, w) ∷ d) = elim (Bool-cases (str_eq i k)) [
    | inl e ↦
        subst
          (λ t.
            lookup_name j (if str_eq t k then (t, v) ∷ d else (t, w) ∷ insert_name k v d)
            ≡ (if str_eq k j then some v else if str_eq t j then some w else lookup_name j d))
          (sym (str_eq→eq i k e)) (rw (str_eq_refl k) (ground arith))
    | inr e ↦
        rw (e, lookup_name-insert_name k j v d)
          (elim (Bool-cases (str_eq k j)) [
            | inl f ↦
                let g : str_eq i j ≡ false = ap (str_eq i) (sym (str_eq→eq k j f)) ∙ e in
                rw (f, g) refl
            | inr f ↦ rw (f) refl
          ])
  ]
