-- ===== src/Packages/Fluxes.antt =====
-- The flux fields that AddFieldImpl of src/interface/state_descriptor.cpp adds, in the resolution.
use parthenon.Base.{
  ℕ, ◌+◌, ◌≤◌, ◌==◌, ◌&&◌, not, if◌then◌else◌, Bool, true, false, List, [], ◌∷◌, ◌++◌, Result, ok,
  err, ◌>>=◌, >>=-eq-ok, ◌≡◌, refl, ap, sym, ◌∙◌, arith, contains, Bool-cases, inl, inr, if-elim,
}
use parthenon.Base.Chars.{eqb_refl}
use parthenon.Metadata.{
  Metadata, MetadataFlag, is_set, is_set-do_bit, set_flag, role, construct, construct-IsValid,
  asked, roles, is_empty, has_refinement_ops, provides, private_flag, sparse, with_fluxes, max_flag,
}
use parthenon.Packages.Tracker.{Error, bad_metadata, sparse_field, Entry, dependency}
use parthenon.Packages.Plan.{role_of, count_provided}
use parthenon.Packages.Consistent.{resolve_sound}
use parthenon.Packages.Tracker.{Overridable}
use parthenon.Packages.Descriptor.{
  Field, StateDescriptor, field_present, flux_label, flux_flags, associate, insert_field, add_flux,
  flux_metadata, add_field_impl, add_field, field_provider, dense_fields, all_fields,
  create_resolved,
}

contains-flux_flags :
    (bits : List Bool)
    → (contains private_flag (flux_flags bits) ≡ false)
      × (asked roles (flux_flags bits) ≡ 0)
      × (contains sparse (flux_flags bits) ≡ is_set bits sparse)
unfolding flux_flags asked
contains-flux_flags bits = (ground arith, ground arith, ground arith)

role_provides :
    (bits : List Bool)
    → is_set bits private_flag ≡ false
    → is_set bits provides ≡ true
    → role bits ≡ ok provides
unfolding role
role_provides bits h k = rw (h, k) refl

module _ (default_ops : List ℕ) where
  flux_metadata-role :
      (m mf : Metadata)
      → flux_metadata default_ops m ≡ ok mf
      → (role mf.bits ≡ ok provides) × (is_set mf.bits sparse ≡ is_set m.bits sparse)
  unfolding flux_metadata
  flux_metadata-role m mf h =
      let ops = if is_empty m.refinement_funcs then default_ops else m.refinement_funcs in
      let made : construct (flux_flags m.bits) m.shape [] [] ops ≡ ok mf = ground arith in
      let (valid, same, set) = construct-IsValid (flux_flags m.bits) m.shape [] [] ops mf made in
      let (no_private, no_role, same_sparse) = contains-flux_flags m.bits in
      (
        role_provides mf.bits (ground (arith, set private_flag, no_private))
            (ground (arith, set provides, no_role)),
        ground (arith, set sparse, same_sparse),
      )

count_provided-append :
    (x : List ℕ) (es ds : List Entry)
    → count_provided x (es ++ ds) ≡ count_provided x es + count_provided x ds
unfolding count_provided
count_provided-append x [] ds = ground arith
count_provided-append x (e ∷ es) ds = ground (arith, count_provided-append x es ds)

dense_fields-append :
    (p : List ℕ) (fs gs : List Field)
    → dense_fields p (fs ++ gs) ≡ dense_fields p fs ++ dense_fields p gs
unfolding dense_fields
dense_fields-append p [] gs = refl
dense_fields-append p (f ∷ fs) gs = elim (Bool-cases (is_set f.metadata.bits sparse)) [
  | inl e ↦ rw e (dense_fields-append p fs gs)
  | inr e ↦ rw (e, dense_fields-append p fs gs) refl
]

-- A field that is dense and provided counts once more.
count_provided-field :
    (p : List ℕ) (f : Field)
    → is_set f.metadata.bits sparse ≡ false
    → role f.metadata.bits ≡ ok provides
    → count_provided f.name (dense_fields p (f ∷ [])) ≡ 1
unfolding dense_fields count_provided dependency
count_provided-field p f h k = rw (h, role_of, dependency, k) (ground (arith, eqb_refl f.name))

associate-bits : (n : List ℕ) (m : Metadata) → (associate n m).bits ≡ m.bits
associate-bits n m =
    if-elim (λ (a : Metadata). a.bits ≡ m.bits) (is_empty m.associated)
      (record m { associated = n }) m refl refl

associate-flux_var : (n : List ℕ) (m : Metadata) → (associate n m).flux_var ≡ m.flux_var
associate-flux_var n m =
    if-elim (λ (a : Metadata). a.flux_var ≡ m.flux_var) (is_empty m.associated)
      (record m { associated = n }) m refl refl

insert_field-ok :
    (n : List ℕ) (m : Metadata) (c : List ℕ) (sd sd2 : StateDescriptor)
    → insert_field n m c sd ≡ ok sd2
    → sd2.fields ≡ sd.fields ++ record { name = n; metadata = m; controller = c } ∷ []
insert_field-ok n m c sd sd2 h =
    elim (Bool-cases (has_refinement_ops m.bits && is_empty m.refinement_funcs)) [
      | inl e ↦ let failed : err bad_metadata ≡ ok sd2 = rw e at h in absurd cc
      | inr e ↦
          let fields = sd.fields ++ record { name = n; metadata = m; controller = c } ∷ [] in
          let done : ok (record sd { fields = fields }) ≡ ok sd2 = rw e at h in
          let same : record sd { fields = fields } ≡ sd2 = cc in sym (ap (λ d. d.fields) same)
    ]

-- A field at the end adds what it counts itself.
count-inserted :
    (x l n : List ℕ) (m : Metadata) (c : List ℕ) (sd sd2 : StateDescriptor)
    → insert_field n m c sd ≡ ok sd2
    → count_provided x (dense_fields l sd2.fields)
      ≡ count_provided x (dense_fields l sd.fields)
        + count_provided x (dense_fields l (record { name = n; metadata = m; controller = c } ∷ []))
count-inserted x l n m c sd sd2 h =
    rw (insert_field-ok n m c sd sd2 h, dense_fields-append l)
      (count_provided-append x (dense_fields l sd.fields) _)

not_both :
    {P : Type 0} (r : Result Error (Bool × StateDescriptor)) (sd sd2 : StateDescriptor)
    → r ≡ ok (false, sd)
    → r ≡ ok (true, sd2)
    → P
not_both r sd sd2 h k = absurd cc

flux_placed :
    (n : List ℕ) (mf : Metadata) (c : List ℕ) (sd sd2 : StateDescriptor)
    → field_present n sd ≡ false
    → add_flux n mf c sd ≡ ok sd2
    → insert_field n (associate n mf) c sd ≡ ok sd2
unfolding add_flux
flux_placed n mf c sd sd2 absent h = rw absent at h

flux_counted :
    (default_ops name : List ℕ) (own mf : Metadata) (c : List ℕ)
    (p0 with_flux added : StateDescriptor) (m2 : Metadata) (l : List ℕ)
    → flux_metadata default_ops own ≡ ok mf
    → insert_field (flux_label name) (associate (flux_label name) mf) c p0 ≡ ok with_flux
    → insert_field name m2 c with_flux ≡ ok added
    → is_set own.bits sparse ≡ false
    → 1 ≤ count_provided (flux_label name) (dense_fields l added.fields)
flux_counted default_ops name own mf c p0 with_flux added m2 l made placed placed2 dense =
    let flux_m = associate (flux_label name) mf in
    let flux_bits = associate-bits (flux_label name) mf in
    let (flux_role, flux_dense) = flux_metadata-role default_ops own mf made in
    let one =
      count_provided-field l (record { name = flux_label name; metadata = flux_m; controller = c })
        (ap (λ b. is_set b sparse) flux_bits ∙ flux_dense ∙ dense)
        (ap role flux_bits ∙ flux_role) in
    omega (
      arith,
      one,
      count-inserted (flux_label name) l (flux_label name) flux_m c p0 with_flux placed,
      count-inserted (flux_label name) l name m2 c with_flux added placed2,
    )

-- The flux that AddFieldImpl adds is provided by the package.
flux_provided :
    (default_ops name : List ℕ) (m : Metadata) (c : List ℕ) (p0 p : StateDescriptor) (l : List ℕ)
    → add_field_impl default_ops name m c p0 ≡ ok (true, p)
    → is_set m.bits with_fluxes ≡ true
    → is_set m.bits sparse ≡ false
    → is_empty m.flux_var ≡ true
    → field_present (flux_label name) p0 ≡ false
    → 1 ≤ count_provided (flux_label name) (dense_fields l p.fields)
unfolding add_field_impl add_flux
flux_provided default_ops name m c p0 p l h fluxes dense unnamed absent =
    elim (Bool-cases (field_present name p0)) [
      | inl e ↦ not_both (add_field_impl default_ops name m c p0) p0 p (rw e refl) h
      | inr e ↦
          let own = associate name m in
          let same_bits = associate-bits name m in
          let asks : (is_set own.bits with_fluxes && is_empty own.flux_var) ≡ true =
            rw (same_bits, associate-flux_var name m, fluxes, unnamed) refl in
          let chain : (flux_metadata default_ops own >>= λ mf.
          add_flux (flux_label name) mf c p0 >>= λ with_flux.
          insert_field name (record own { flux_var = flux_label name }) c with_flux >>= λ added.
          ok (true, added))
              ≡ ok (true, p) =
            rw (e, asks) at h in
          let (mf, made, r1) = >>=-eq-ok (flux_metadata default_ops own) _ chain in
          let (with_flux, inserted, r2) = >>=-eq-ok (add_flux (flux_label name) mf c p0) _ r1 in
          let (added, inserted2, r3) =
            >>=-eq-ok (insert_field name (record own { flux_var = flux_label name }) c with_flux) _
              r2 in
          let same : added ≡ p = cc in
          rw (sym same) (
            flux_counted default_ops name own mf c p0 with_flux added
              (record own { flux_var = flux_label name }) l made
              (flux_placed (flux_label name) mf c p0 with_flux absent inserted) inserted2
              (ap (λ b. is_set b sparse) same_bits ∙ dense))
    ]

-- What the caller of AddField gives for a dense field with fluxes.
pub record IsFluxed (name : List ℕ) (m : Metadata) (p : StateDescriptor) : Type 0 where
  pub fluxes : is_set m.bits with_fluxes ≡ true
  pub unnamed : is_empty m.flux_var ≡ true
  pub new_flux : field_present (flux_label name) p ≡ false
  pub user_flag : max_flag ≤ p.package_flag

flagged-is_set :
    (g f : MetadataFlag) (m : Metadata)
    → (g == f) ≡ false
    → is_set (if not (is_set m.bits f) then set_flag f true m else m).bits g ≡ is_set m.bits g
unfolding set_flag
flagged-is_set g f m h = elim (Bool-cases (is_set m.bits f)) [
  | inl e ↦ rw e refl
  | inr e ↦ rw e (ground (arith, is_set-do_bit f g true m.bits))
]

flagged-flux_var :
    (f : MetadataFlag) (m : Metadata)
    → (if not (is_set m.bits f) then set_flag f true m else m).flux_var ≡ m.flux_var
unfolding set_flag
flagged-flux_var f m =
    if-elim (λ (a : Metadata). a.flux_var ≡ m.flux_var) (not (is_set m.bits f)) (set_flag f true m)
      m refl refl

refused :
    {P : Type 0} (r : Result Error (Bool × StateDescriptor)) (sd : StateDescriptor)
    → r ≡ err sparse_field
    → r ≡ ok (true, sd)
    → P
refused r sd h k = absurd cc

fluxed_provided :
    (default_ops name : List ℕ) (m : Metadata) (c : List ℕ) (p0 p : StateDescriptor) (l : List ℕ)
    → IsFluxed name m p0
    → add_field default_ops name m c p0 ≡ ok (true, p)
    → 1 ≤ count_provided (flux_label name) (dense_fields l p.fields)
unfolding add_field
fluxed_provided default_ops name m c p0 p l h k = elim (Bool-cases (is_set m.bits sparse)) [
  | inl e ↦ refused (add_field default_ops name m c p0) p (rw e refl) k
  | inr e ↦
      let f = p0.package_flag in
      let flagged = if not (is_set m.bits f) then set_flag f true m else m in
      flux_provided default_ops name flagged (if is_empty c then name else c) p0 p l (rw e at k)
        (flagged-is_set with_fluxes f m (ground (arith, h.user_flag)) ∙ h.fluxes)
        (flagged-is_set sparse f m (ground (arith, h.user_flag)) ∙ e)
        (ap is_empty (flagged-flux_var f m) ∙ h.unnamed) h.new_flux
]

-- A list of packages of which the first two each have added, last, a field of the same name with
-- fluxes, private ones included, does not resolve, since both provide the flux field that AddField
-- adds beside it under one name. The fields are given with no flux name, before them neither
-- package has a field of that name of a flux, and the flags of the two packages are not built-in
-- flags.
pub create_resolved-flux_label :
    (visit : List Overridable → List Overridable) (default_ops name : List ℕ) (m1 m2 : Metadata)
    (c1 c2 : List ℕ) (p0 p q0 q : StateDescriptor) (others : List StateDescriptor)
    (state resolved : StateDescriptor)
    → IsFluxed name m1 p0
    → add_field default_ops name m1 c1 p0 ≡ ok (true, p)
    → IsFluxed name m2 q0
    → add_field default_ops name m2 c2 q0 ≡ ok (true, q)
    → ¬ (create_resolved visit default_ops (p ∷ q ∷ others) state ≡ ok resolved)
unfolding create_resolved all_fields
create_resolved-flux_label visit default_ops name m1 m2 c1 c2 p0 p q0 q others state resolved h1 a1
      h2 a2 r =
    let x = flux_label name in
    let ps = dense_fields p.label p.fields in
    let qs = dense_fields q.label q.fields in
    let packages = p ∷ q ∷ others in
    let (consistent, made) =
      resolve_sound visit (field_provider default_ops packages) (all_fields packages) state resolved
        r in
    absurd (
      omega (
        arith,
        consistent.once x,
        count_provided-append x ps (qs ++ all_fields others),
        count_provided-append x qs (all_fields others),
        fluxed_provided default_ops name m1 c1 p0 p p.label h1 a1,
        fluxed_provided default_ops name m2 c2 q0 q q.label h2 a2,
      ))
