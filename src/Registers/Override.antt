-- ===== src/Registers/Override.antt =====
-- What a later table can take away from a composed profile.
use growatt_datalogger.Base.{
  inl, inr, Bool-cases, ==_iff, arith, List, Option, [], ap, false, if◌then◌else◌, none, refl, some,
  sym, ℕ, ◌++◌, ◌==◌, ◌∙◌, ◌∷◌, ◌≡◌,
}
use growatt_datalogger.Base.Dict.{insert, lookup, lookup-insert, lookup-remove, remove}
use growatt_datalogger.Python.{>>=-eq-ok, Str, err, key_error, ok, str_eq, ◌>>=◌}
use growatt_datalogger.Python.Names.{insert_name, lookup_name, lookup_name-insert_name}
use growatt_datalogger.Registers.Merge.{merge-one_register, same_ok, some_inj}
use growatt_datalogger.Registers.Spec.{
  Merging, RegisterSpec, delete, forget, merge, merge_spec, merge_table, merge_tables, no_specs,
}

module _ {F : Type 0} where
  -- The register that a name was given last, where it had been given `before` so far.
  abbrev pub last_in : Str → Option ℕ → List (RegisterSpec F) → Option ℕ
  last_in name before [] = before
  last_in name before (spec ∷ table) =
      last_in name (if str_eq spec.name name then some spec.register else before) table

  abbrev pub last_of : Str → Option ℕ → List (List (RegisterSpec F)) → Option ℕ
  last_of name before [] = before
  last_of name before (table ∷ tables) = last_of name (last_in name before table) tables

  merge_spec-last :
      (name : Str) (spec : RegisterSpec F) (m m' : Merging F)
      → merge_spec m spec ≡ ok m'
      → lookup_name name m'.register_for_name ≡ (
          if str_eq spec.name name
          then some spec.register
          else lookup_name name m.register_for_name)
  unfolding merge_spec
  merge_spec-last name spec m m' h =
      let (left, e, f) =
        >>=-eq-ok (forget (lookup_name spec.name m.register_for_name) spec.register m.specs) _ h in
      ap (λ (x : Merging F). lookup_name name x.register_for_name) (sym (same_ok f))
      ∙ lookup_name-insert_name spec.name name spec.register m.register_for_name

  merge_table-last :
      (name : Str) (table : List (RegisterSpec F)) (m m' : Merging F)
      → merge_table m table ≡ ok m'
      → lookup_name name m'.register_for_name
        ≡ last_in name (lookup_name name m.register_for_name) table
  unfolding merge_table
  merge_table-last name [] m m' h =
      ap (λ (x : Merging F). lookup_name name x.register_for_name) (sym (same_ok h))
  merge_table-last name (spec ∷ table) m m' h =
      let (mid, e, f) = >>=-eq-ok (merge_spec m spec) _ h in
      merge_table-last name table mid m' f
      ∙ ap (λ (before : Option ℕ). last_in name before table) (merge_spec-last name spec m mid e)

  merge_tables-last :
      (name : Str) (tables : List (List (RegisterSpec F))) (m m' : Merging F)
      → merge_tables m tables ≡ ok m'
      → lookup_name name m'.register_for_name
        ≡ last_of name (lookup_name name m.register_for_name) tables
  unfolding merge_tables
  merge_tables-last name [] m m' h =
      ap (λ (x : Merging F). lookup_name name x.register_for_name) (sym (same_ok h))
  merge_tables-last name (table ∷ tables) m m' h =
      let (mid, e, f) = >>=-eq-ok (merge_table m table) _ h in
      merge_tables-last name tables mid m' f
      ∙ ap (λ (before : Option ℕ). last_of name before tables) (merge_table-last name table m mid e)

  merge_tables-append :
      (tables more : List (List (RegisterSpec F))) (m m' : Merging F)
      → merge_tables m tables ≡ ok m'
      → merge_tables m (tables ++ more) ≡ merge_tables m' more
  unfolding merge_tables
  merge_tables-append [] more m m' h = ap (λ (x : Merging F). merge_tables x more) (same_ok h)
  merge_tables-append (table ∷ tables) more m m' h =
      let (mid, e, f) = >>=-eq-ok (merge_table m table) _ h in
      rw (e) (merge_tables-append tables more mid m' f)

  forget-moved :
      (register r : ℕ) (specs : List (ℕ × RegisterSpec F)) (b : RegisterSpec F)
      → lookup r specs ≡ some b
      → (r == register) ≡ false
      → forget (some r) register specs ≡ ok (remove r specs)
  unfolding forget delete
  forget-moved register r specs b held moved = rw (moved) (
      ap
        (λ (o : Option (RegisterSpec F)). elim o [
          | none ↦ err key_error
          | some s ↦ ok (remove r specs)
        ])
        held)

  -- What is there when a spec is added, for what was left before.
  abbrev added : RegisterSpec F → List (Str × ℕ) → List (ℕ × RegisterSpec F) → Merging F
  added spec names left = record {
    specs = insert spec.register spec left;
    register_for_name = insert_name spec.name spec.register names;
  }

  -- The name's last register is given up, whatever stands at it.
  merge_spec-moved :
      (m : Merging F) (again b : RegisterSpec F) (r : ℕ)
      → lookup_name again.name m.register_for_name ≡ some r
      → lookup r m.specs ≡ some b
      → (r == again.register) ≡ false
      → merge_spec m again ≡ ok (added again m.register_for_name (remove r m.specs))
  unfolding merge_spec
  merge_spec-moved m again b r named held moved =
      ap
        (λ (o : Option ℕ).
          forget o again.register m.specs >>= λ left. ok (added again m.register_for_name left))
        named
      ∙ ap (λ left. left >>= λ l. ok (added again m.register_for_name l))
          (forget-moved again.register r m.specs b held moved)

  merge_tables-one :
      (m m' : Merging F) (spec : RegisterSpec F)
      → merge_spec m spec ≡ ok m'
      → merge_tables m ((spec ∷ []) ∷ []) ≡ ok m'
  unfolding merge_tables merge_table
  merge_tables-one m m' spec h = rw (h) refl

  moved_away :
      (register r : ℕ) (spec : RegisterSpec F) (specs : List (ℕ × RegisterSpec F))
      → (r == register) ≡ false
      → lookup r (insert register spec (remove r specs)) ≡ none
  moved_away register r spec specs h =
      ground (arith, lookup-insert register r spec (remove r specs), lookup-remove r r specs)

  now_there :
      (register r : ℕ) (spec : RegisterSpec F) (specs : List (ℕ × RegisterSpec F))
      → lookup register (insert register spec (remove r specs)) ≡ some spec
  now_there register r spec specs =
      ground (arith, lookup-insert register register spec (remove r specs))

  elsewhere :
      (register r k : ℕ) (spec : RegisterSpec F) (specs : List (ℕ × RegisterSpec F))
      → (r == k) ≡ false
      → (register == k) ≡ false
      → lookup k (insert register spec (remove r specs)) ≡ lookup k specs
  elsewhere register r k spec specs p q =
      ground (arith, lookup-insert register k spec (remove r specs), lookup-remove r k specs)

  -- No entry has a name that stood at the register that is given up, and is not the moved one.
  nameless :
      (tables : List (List (RegisterSpec F))) (specs : List (ℕ × RegisterSpec F))
      (again b : RegisterSpec F) (r : ℕ) (out : List (ℕ × RegisterSpec F))
      → merge tables ≡ ok specs
      → lookup r specs ≡ some b
      → ¬ (b.name ≡ again.name)
      → lookup r out ≡ none
      → lookup again.register out ≡ some again
      → ((k : ℕ) → (r == k) ≡ false → (again.register == k) ≡ false → lookup k out ≡ lookup k specs)
      → (k : ℕ) (s : RegisterSpec F) → lookup k out ≡ some s
      → ¬ (s.name ≡ b.name)
  nameless tables specs again b r out h held other away moved kept k s found n =
      elim (Bool-cases (r == k)) [
        | inl e ↦
            let same : r ≡ k = (==_iff r k).0 e in
            let nothing : none ≡ some s = sym away ∙ ap (λ j. lookup j out) same ∙ found in
            absurd (cc)
        | inr e ↦ elim (Bool-cases (again.register == k)) [
          | inl f ↦
              let same : again.register ≡ k = (==_iff again.register k).0 f in
              let one : again ≡ s = some_inj (sym moved ∙ ap (λ j. lookup j out) same ∙ found) in
              other (sym n ∙ ap (λ (x : RegisterSpec F). x.name) (sym one))
          | inr f ↦
              let there = sym (kept k e f) ∙ found in
              let same : k ≡ r = (merge-one_register tables specs k r s b h there held n).0 in
              absurd (ground (arith, same, e))
        ]
      ]

  -- Where any tables compose, a name was last given a register, and the spec that stands at this
  -- register is of another name, composing one more table that only gives the first name another
  -- register succeeds and loses that spec: nothing stands at its register any more and no spec
  -- has its name, although nothing replaces it. The moved spec stands at its new register, and
  -- the entries at all others are as before.
  pub merge-loses_override :
      (tables : List (List (RegisterSpec F))) (specs : List (ℕ × RegisterSpec F))
      (again b : RegisterSpec F) (r : ℕ)
      → merge tables ≡ ok specs
      → last_of again.name none tables ≡ some r
      → lookup r specs ≡ some b
      → ¬ (b.name ≡ again.name)
      → (r == again.register) ≡ false
      → (out : List (ℕ × RegisterSpec F)) × (merge (tables ++ (again ∷ []) ∷ []) ≡ ok out)
        × (lookup r out ≡ none)
        × (lookup again.register out ≡ some again)
        × ((k : ℕ)
            → (r == k) ≡ false
            → (again.register == k) ≡ false
            → lookup k out ≡ lookup k specs)
        × ((k : ℕ) (s : RegisterSpec F) → lookup k out ≡ some s → ¬ (s.name ≡ b.name))
  unfolding merge lookup_name
  merge-loses_override tables specs again b r h last held other moved =
      let (m, e, f) = >>=-eq-ok (merge_tables no_specs tables) _ h in
      let same : m.specs ≡ specs = same_ok f in
      let named : lookup_name again.name m.register_for_name ≡ some r =
        merge_tables-last again.name tables no_specs m e ∙ last in
      let there : lookup r m.specs ≡ some b = ap (lookup r) same ∙ held in
      let out : List (ℕ × RegisterSpec F) = insert again.register again (remove r m.specs) in
      let kept : (k : ℕ)
          → (r == k) ≡ false
          → (again.register == k) ≡ false
          → lookup k out ≡ lookup k specs =
        λ k p q. elsewhere again.register r k again m.specs p q ∙ ap (lookup k) same in
      (
        out,
        ap (λ x. x >>= λ y. ok y.specs)
            (merge_tables-append tables ((again ∷ []) ∷ []) no_specs m e
              ∙ merge_tables-one m _ again (merge_spec-moved m again b r named there moved)),
        moved_away again.register r again m.specs moved,
        now_there again.register r again m.specs,
        kept,
        nameless tables specs again b r out h held other
            (moved_away again.register r again m.specs moved)
            (now_there again.register r again m.specs) kept,
      )
