-- ===== src/Identity/Rbac/Laws.antt =====
-- rbac/index.ts and bridge.ts: the two implementations agree, and the roles are ordered.
use Prim.Native.Nat.{bit_and}
use intellibiz.Shared.{
  ℕ, String, ◌≡◌, ◌↔◌, refl, Bool, true, false, not, none, some, [], ◌∷◌, ◌==◌, eqb, eq_iff, arith,
  inl, inr, Bool-cases, ap, subst, or_else,
}
use intellibiz.Shared.Table
use intellibiz.Shared.Table.{Table}
use intellibiz.Identity.Rbac.{
  permissions, role_mask, can, includes, role_permissions, inherited, permission_check,
}

-- The body of `can` at a mask.
grants : ℕ → String → Bool
grants mask permission = elim (Table.get permission permissions) [
  | none ↦ false
  | some bit ↦ not (eqb (bit_and mask bit) 0)
]

module _ (p : String) where
  owner_grants : includes p (or_else (Table.get "owner" role_permissions) []) ≡ grants 0b1111_1111 p
  unfolding grants includes Table.get
  owner_grants = ground arith

  admin_grants : includes p (or_else (Table.get "admin" role_permissions) []) ≡ grants 0b0011_1111 p
  unfolding grants includes Table.get
  admin_grants = ground arith

  billing_grants :
      includes p (or_else (Table.get "billing" role_permissions) []) ≡ grants 0b0010_1001 p
  unfolding grants includes Table.get
  billing_grants = elim (Bool-cases ("export" == p)) [
    | inl e ↦ at_billing "export" ((eq_iff "export" p).0 e) refl
    | inr e ↦ elim (Bool-cases ("billing" == p)) [
      | inl b ↦ at_billing "billing" ((eq_iff "billing" p).0 b) refl
      | inr b ↦ ground arith
    ]
  ]
    where
      at_billing :
          (q : String)
          → q ≡ p
          → includes q ("read" ∷ "billing" ∷ "export" ∷ []) ≡ grants 0b0010_1001 q
          → includes p ("read" ∷ "billing" ∷ "export" ∷ []) ≡ grants 0b0010_1001 p
      at_billing q e h =
          subst (λ r. includes r ("read" ∷ "billing" ∷ "export" ∷ []) ≡ grants 0b0010_1001 r) e h

  member_grants :
      includes p (or_else (Table.get "member" role_permissions) []) ≡ grants 0b0000_0011 p
  unfolding grants includes Table.get
  member_grants = ground arith

  viewer_grants :
      includes p (or_else (Table.get "viewer" role_permissions) []) ≡ grants 0b0000_0001 p
  unfolding grants includes Table.get
  viewer_grants = ground arith

  nothing_grants : includes p [] ≡ grants 0 p
  unfolding grants includes Table.get
  nothing_grants = ground arith

  -- The tables are walked by the role alone.
  roles_agree :
      (role : String)
      → includes p (or_else (Table.get role role_permissions) []) ≡ grants (role_mask role) p
  unfolding role_mask Table.get
  roles_agree role = ground (
    arith, owner_grants, admin_grants, billing_grants, member_grants, viewer_grants, nothing_grants,
  )

-- For every role name that is not an inherited property's, and every permission name, the
-- fallback's list of names and the bitmask give the same answer.
pub permission_check-can :
    (role permission : String)
    → includes role inherited ≡ false
    → permission_check role permission ≡ some (can role permission)
unfolding permission_check can grants
permission_check-can role permission h = rw h (ap some (roles_agree permission role))

-- Only an owner may escalate: `sudo` and `impersonate` are held by the role `owner` alone.
pub can_escalate :
    (role : String)
    → ((can role "sudo" ≡ true) ↔ (role ≡ "owner"))
      × ((can role "impersonate" ≡ true) ↔ (role ≡ "owner"))
unfolding can Table.get
can_escalate role = ground (arith, eq_iff "owner" role)

-- Each role holds every permission of the roles below it: an owner those of an admin, an admin
-- those of a billing user and of a member, and both of these those of a viewer.
pub can_mono :
    (p : String)
    → (can "admin" p ≡ true → can "owner" p ≡ true)
      × (can "billing" p ≡ true → can "admin" p ≡ true)
      × (can "member" p ≡ true → can "admin" p ≡ true)
      × (can "viewer" p ≡ true → can "billing" p ≡ true)
      × (can "viewer" p ≡ true → can "member" p ≡ true)
unfolding can Table.get
can_mono p = ground arith
