-- ===== src/Resources/Registry/Registered.antt =====
-- `register` and `unregister` of core/resources/registry.py, and the entries of
-- core/organization/engine.py that come and go with them.
use core_host.Base.{
  ◌≡◌, refl, sym, ap, ◌∙◌, subst, Bool, true, false, String, Option, none, some, [], ◌∷◌, All, ok,
  err, ◌>>=◌, if◌then◌else◌, inl, inr, Bool-cases, ◌==◌, arith, eq_refl,
}
use core_host.Base.Dict.{Dict, lookup, insert, erase, has, values, lookup-insert}
use core_host.Resources.Models.{Resource}
use core_host.Resources.Organization.{
  OrganizationEngine, OrganizationEntry, Check, candidate, entry_id_for, is_linked, merged,
  categorize_if, categorize_resource, drop_linked, remove_resource, validate_categorized_resource,
  validate_organization_entry,
}
use core_host.Resources.Registry.{
  ResourceRegistry, finish_register, categorize_with, register_if, register, forget_in,
  unregister_found, unregister,
}

-- A key that was not there goes as it came.
erase-insert {ℓ} :
    {V : Type ℓ} (k : String) (v : V) (d : Dict V) → has k d ≡ false → erase k (insert k v d) ≡ d
unfolding insert erase has lookup
erase-insert k v [] h = rw (eq_refl k) refl
erase-insert k v ((j, w) ∷ d) h = elim (Bool-cases (j == k)) [
  | inl same ↦ absurd (ground (arith, h, same))
  | inr other ↦
      ap (λ b. erase k (if b then (j, v) ∷ d else (j, w) ∷ insert k v d)) other
      ∙ ap (λ b. if b then erase k (insert k v d) else (j, w) ∷ erase k (insert k v d)) other
      ∙ ap (λ x. (j, w) ∷ x) (erase-insert k v d (ground (arith, h, other)))
]

-- No entry links the resource, and none stands where its own would.
abbrev pub IsFree : String → Option OrganizationEngine → Type 0
IsFree id none = Unit
IsFree id (some o) =
    (lookup (entry_id_for id) o.entries ≡ none)
    × All (λ e. is_linked id e.resource_id ≡ false) (values o.entries)

drop-none :
    (id : String) (d : Dict OrganizationEntry)
    → All (λ e. is_linked id e.resource_id ≡ false) (values d)
    → drop_linked id d ≡ d
unfolding drop_linked
drop-none id [] h = refl
drop-none id ((k, e) ∷ d) (apart, h) =
    ap (λ b. if b then drop_linked id d else (k, e) ∷ drop_linked id d) apart
    ∙ ap (λ x. (k, e) ∷ x) (drop-none id d h)

drop-insert :
    (id k : String) (e : OrganizationEntry) (d : Dict OrganizationEntry)
    → is_linked id e.resource_id ≡ true
    → lookup k d ≡ none
    → All (λ x. is_linked id x.resource_id ≡ false) (values d)
    → drop_linked id (insert k e d) ≡ d
unfolding drop_linked insert lookup
drop-insert id k e [] linked absent h = ap (λ b. if b then [] else (k, e) ∷ []) linked
drop-insert id k e ((j, x) ∷ d) linked absent (apart, h) = elim (Bool-cases (j == k)) [
  | inl same ↦ absurd (ground (arith, absent, same))
  | inr other ↦
      ap (λ b. drop_linked id (if b then (j, e) ∷ d else (j, x) ∷ insert k e d)) other
      ∙ ap
          (λ b. if b then drop_linked id (insert k e d) else (j, x) ∷ drop_linked id (insert k e d))
          apart
      ∙ ap (λ y. (j, x) ∷ y) (drop-insert id k e d linked (ground (arith, absent, other)) h)
]

forget_free : (id : String) (o : Option OrganizationEngine) → IsFree id o → forget_in id o ≡ o
unfolding remove_resource
forget_free id none h = refl
forget_free id (some o) (_, h) =
    ap (λ es. some (record o { entries = es })) (drop-none id o.entries h)

module _ (r : Resource) (g : ResourceRegistry) (new : has r.resource_id g.resources ≡ false) where
  -- The registry with the resource, and with the engine that it then has.
  abbrev grown : Option OrganizationEngine → ResourceRegistry
  grown o = record { resources = insert r.resource_id r g.resources; organization = o }

  grown_back :
      (o : Option OrganizationEngine)
      → forget_in r.resource_id o ≡ g.organization
      → unregister r.resource_id (grown o) ≡ (ok r, g)
  unfolding unregister
  grown_back o back =
      let id = r.resource_id in
      let here : lookup id (insert id r g.resources) ≡ some r =
        ground (arith, lookup-insert id id r g.resources, eq_refl id) in
      ap (λ f. unregister_found id f (grown o)) here
      ∙ ap (λ rs. (ok r, record { resources = rs; organization = forget_in id o }))
          (erase-insert id r g.resources new)
      ∙ ap (λ x. (ok r, record { resources = g.resources; organization = x })) back

  -- The engine after it has taken the resource.
  abbrev indexed : OrganizationEngine → OrganizationEntry → OrganizationEngine
  indexed o e = record o { entries = insert (entry_id_for r.resource_id) e o.entries }

  indexed_back :
      (o : OrganizationEngine)
      → IsFree r.resource_id (some o)
      → forget_in r.resource_id
          (some (indexed o (merged r (lookup (entry_id_for r.resource_id) o.entries))))
        ≡ some o
  unfolding remove_resource
  indexed_back o (absent, apart) =
      let id = r.resource_id in
      ap (λ f. forget_in id (some (indexed o (merged r f)))) absent
      ∙ ap (λ es. some (record o { entries = es }))
          (drop-insert id (entry_id_for id) (candidate r) o.entries (eq_refl id) absent apart)

  checked_back :
      (check : Check) (o : OrganizationEngine) (h : ResourceRegistry)
      → g.organization ≡ some o
      → IsFree r.resource_id (some o)
      → finish_register r (categorize_if check r o) (grown g.organization) ≡ (ok r, h)
      → unregister r.resource_id h ≡ (ok r, g)
  checked_back (err x) o h has_one free done = absurd cc
  checked_back (ok u) o h has_one free done =
      let after = some (indexed o (merged r (lookup (entry_id_for r.resource_id) o.entries))) in
      ap (λ x. unregister r.resource_id x.1) (sym done)
      ∙ grown_back after (indexed_back o free ∙ sym has_one)

  with_back :
      (categorize : Bool) (o : Option OrganizationEngine) (h : ResourceRegistry)
      → g.organization ≡ o
      → IsFree r.resource_id o
      → categorize_with categorize o r (grown g.organization) ≡ (ok r, h)
      → unregister r.resource_id h ≡ (ok r, g)
  unfolding categorize_resource
  with_back false o h same free done =
      ap (λ x. unregister r.resource_id x.1) (sym done)
      ∙ grown_back g.organization (
          forget_free r.resource_id g.organization
            (subst (λ x. IsFree r.resource_id x) (sym same) free))
  with_back true none h same free done =
      ap (λ x. unregister r.resource_id x.1) (sym done)
      ∙ grown_back g.organization (ap (forget_in r.resource_id) same ∙ sym same)
  with_back true (some o) h same free done =
      checked_back
        (validate_categorized_resource r >>= (λ _. validate_organization_entry (candidate r))) o h
        same free done

back :
    (known categorize : Bool) (r : Resource) (g h : ResourceRegistry)
    → has r.resource_id g.resources ≡ known
    → IsFree r.resource_id g.organization
    → register_if known categorize r g ≡ (ok r, h)
    → unregister r.resource_id h ≡ (ok r, g)
back true categorize r g h here free done = absurd cc
back false categorize r g h here free done =
    with_back r g here categorize g.organization h refl free done

-- If the registry has no engine, or one that links the resource in no entry and has no entry in the
-- place of the resource's own, and `register` of the resource returns: then `unregister` of its id
-- returns it, and the registry and its engine are as they were before.
pub unregister-register :
    (categorize : Bool) (r : Resource) (g h : ResourceRegistry)
    → IsFree r.resource_id g.organization
    → register categorize r g ≡ (ok r, h)
    → unregister r.resource_id h ≡ (ok r, g)
unfolding register
unregister-register categorize r g h free done =
    back (has r.resource_id g.resources) categorize r g h refl free done
