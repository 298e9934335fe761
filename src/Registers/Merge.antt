-- ===== src/Registers/Merge.antt =====
-- Composing a profile: no value name at two registers, and what an override can take away.
use growatt_datalogger.Base.{
  ==_iff, Bool-cases, List, Option, [], ap, arith, false, inl, inr, none, some, subst, sym, true, ℕ,
  ◌==◌, ◌∙◌, ◌∷◌, ◌≡◌, ◌⊎◌,
}
use growatt_datalogger.Base.Dict.{insert, lookup, lookup-insert, lookup-remove, remove}
use growatt_datalogger.Python.{>>=-eq-ok, ok, str_eq}
use growatt_datalogger.Python.Names.{
  insert_name, lookup_name, lookup_name-insert_name, str_eq_refl, str_eq→eq,
}
use growatt_datalogger.Registers.Spec.{
  Merging, RegisterSpec, delete, forget, merge, merge_spec, merge_table, merge_tables, no_specs,
}

pub same_ok {ℓ} : {A : Type ℓ} {a b : A} → ok a ≡ ok b → a ≡ b
same_ok h = cc h

pub some_inj {ℓ} : {A : Type ℓ} {a b : A} → some a ≡ some b → a ≡ b
some_inj h = cc h

==_refl : (n : ℕ) → (n == n) ≡ true
==_refl n = ground arith

module _ {F : Type 0} where
  -- Each entry stands at its own register, and the name's register is this one.
  pub record IsNamed (m : Merging F) : Type 0 where
    pub at :
        (k : ℕ) (s : RegisterSpec F)
        → lookup k m.specs ≡ some s
        → (s.register ≡ k) × (lookup_name s.name m.register_for_name ≡ some k)

  -- What `forget` leaves: entries of before, and none that stands elsewhere under this name.
  pub record Forgotten (previous : Option ℕ) (register : ℕ) (specs : List (ℕ × RegisterSpec F))
      (left : List (ℕ × RegisterSpec F)) : Type 0 where
    pub old : (k : ℕ) (s : RegisterSpec F) → lookup k left ≡ some s → lookup k specs ≡ some s
    pub gone :
        (k : ℕ) (s : RegisterSpec F) → previous ≡ some k → lookup k left ≡ some s → k ≡ register

  remove-old :
      (p k : ℕ) (specs : List (ℕ × RegisterSpec F)) (s : RegisterSpec F)
      → lookup k (remove p specs) ≡ some s
      → (lookup k specs ≡ some s) × ((p == k) ≡ false)
  remove-old p k specs s h = ground (arith, lookup-remove p k specs)

  delete-ok :
      (p : ℕ) (specs left : List (ℕ × RegisterSpec F))
      → delete p specs ≡ ok left
      → left ≡ remove p specs
  unfolding delete
  delete-ok p specs left h = ground arith

  Forgotten-delete :
      (p register : ℕ) (specs : List (ℕ × RegisterSpec F))
      → Forgotten (some p) register specs (remove p specs)
  Forgotten-delete p register specs = record {
    old = λ k s h. (remove-old p k specs s h).0;
    gone = λ k s e h.
        let same : p ≡ k = cc e in
        let apart : (p == k) ≡ false = (remove-old p k specs s h).1 in absurd (ground arith);
  }

  forget-Forgotten :
      (previous : Option ℕ) (register : ℕ) (specs left : List (ℕ × RegisterSpec F))
      → forget previous register specs ≡ ok left
      → Forgotten previous register specs left
  unfolding forget
  forget-Forgotten none register specs left h = record {
    old = λ k s e. subst (λ l. lookup k l ≡ some s) (sym (same_ok h)) e;
    gone = λ k s e f. cc e;
  }
  forget-Forgotten (some p) register specs left h = elim (Bool-cases (p == register)) [
    | inl e ↦
        let unchanged : ok specs ≡ ok left = rw e at h in
        let kept : left ≡ specs = sym (same_ok unchanged) in
        record {
          old = λ k s f. subst (λ l. lookup k l ≡ some s) kept f;
          gone = λ k s f g. let same : p ≡ k = cc f in ground arith;
        }
    | inr e ↦
        subst (Forgotten (some p) register specs) (sym (delete-ok p specs left (rw e at h)))
          (Forgotten-delete p register specs)
  ]

  IsNamed-no_specs : IsNamed (no_specs {F = F})
  unfolding lookup
  IsNamed-no_specs = record { at = λ k s h. cc h }

  added_at :
      (m : Merging F) (spec : RegisterSpec F) (left : List (ℕ × RegisterSpec F))
      → IsNamed m
      → Forgotten (lookup_name spec.name m.register_for_name) spec.register m.specs left
      → (k : ℕ) (s : RegisterSpec F) → lookup k (insert spec.register spec left) ≡ some s
      → ((spec.register == k) ≡ true) ⊎ ((spec.register == k) ≡ false)
      → (s.register ≡ k)
        × (lookup_name s.name (insert_name spec.name spec.register m.register_for_name) ≡ some k)
  added_at m spec left named x k s h (inl e) =
      let same : spec ≡ s =
        some_inj (rw e at (sym (lookup-insert spec.register k spec left) ∙ h)) in
      let here : spec.register ≡ k = (==_iff _ k).0 e in
      subst
        (λ z.
          (z.register ≡ k)
          × (lookup_name z.name (insert_name spec.name spec.register m.register_for_name) ≡ some k))
        same
        (
          here,
          lookup_name-insert_name spec.name spec.name spec.register m.register_for_name
              ∙ (rw (str_eq_refl spec.name) (ap some here)),
        )
  added_at m spec left named x k s h (inr e) =
      let there : lookup k left ≡ some s =
        rw e at (sym (lookup-insert spec.register k spec left) ∙ h) in
      let before = named.at k s (x.old k s there) in
      (
        before.0,
        elim (Bool-cases (str_eq spec.name s.name)) [
          | inl f ↦
              let n : spec.name ≡ s.name = str_eq→eq spec.name s.name f in
              let moved : k ≡ spec.register =
                x.gone k s (ap (λ z. lookup_name z m.register_for_name) n ∙ before.1) there in
              absurd (ground arith)
          | inr f ↦
              lookup_name-insert_name spec.name s.name spec.register m.register_for_name
              ∙ (rw f before.1)
        ],
      )

  IsNamed-added :
      (m : Merging F) (spec : RegisterSpec F) (left : List (ℕ × RegisterSpec F))
      → IsNamed m
      → Forgotten (lookup_name spec.name m.register_for_name) spec.register m.specs left
      → IsNamed (record {
        specs = insert spec.register spec left;
        register_for_name = insert_name spec.name spec.register m.register_for_name;
      })
  IsNamed-added m spec left named x = record {
    at = λ k s h. added_at m spec left named x k s h (Bool-cases (spec.register == k));
  }

  merge_spec-IsNamed :
      (m m' : Merging F) (spec : RegisterSpec F)
      → IsNamed m
      → merge_spec m spec ≡ ok m'
      → IsNamed m'
  unfolding merge_spec
  merge_spec-IsNamed m m' spec named h =
      let (left, e, f) =
        >>=-eq-ok (forget (lookup_name spec.name m.register_for_name) spec.register m.specs) _ h in
      subst IsNamed (same_ok f)
        (IsNamed-added m spec left named (forget-Forgotten _ spec.register m.specs left e))

  merge_table-IsNamed :
      (table : List (RegisterSpec F)) (m m' : Merging F)
      → IsNamed m
      → merge_table m table ≡ ok m'
      → IsNamed m'
  unfolding merge_table
  merge_table-IsNamed [] m m' named h = subst IsNamed (same_ok h) named
  merge_table-IsNamed (spec ∷ table) m m' named h =
      let (mid, e, f) = >>=-eq-ok (merge_spec m spec) _ h in
      merge_table-IsNamed table mid m' (merge_spec-IsNamed m mid spec named e) f

  merge_tables-IsNamed :
      (tables : List (List (RegisterSpec F))) (m m' : Merging F)
      → IsNamed m
      → merge_tables m tables ≡ ok m'
      → IsNamed m'
  unfolding merge_tables
  merge_tables-IsNamed [] m m' named h = subst IsNamed (same_ok h) named
  merge_tables-IsNamed (table ∷ tables) m m' named h =
      let (mid, e, f) = >>=-eq-ok (merge_table m table) _ h in
      merge_tables-IsNamed tables mid m' (merge_table-IsNamed table m mid named e) f

  -- In the specs that composing any tables gives, two entries with the same value name stand at
  -- one register, which is also the register that the spec itself names.
  pub merge-one_register :
      (tables : List (List (RegisterSpec F))) (specs : List (ℕ × RegisterSpec F)) (k j : ℕ)
      (s t : RegisterSpec F)
      → merge tables ≡ ok specs
      → lookup k specs ≡ some s
      → lookup j specs ≡ some t
      → s.name ≡ t.name
      → (k ≡ j) × (s.register ≡ k)
  unfolding merge
  merge-one_register tables specs k j s t h hs ht n =
      let (m, e, f) = >>=-eq-ok (merge_tables no_specs tables) _ h in
      let named = merge_tables-IsNamed tables no_specs m IsNamed-no_specs e in
      let same : m.specs ≡ specs = same_ok f in
      let x = named.at k s (ap (lookup k) same ∙ hs) in
      let y = named.at j t (ap (lookup j) same ∙ ht) in
      (some_inj (sym x.1 ∙ ap (λ z. lookup_name z m.register_for_name) n ∙ y.1), x.0)
