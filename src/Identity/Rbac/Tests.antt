-- ===== src/Identity/Rbac/Tests.antt =====
-- rbac/index.ts and bridge.ts at concrete inputs.
use intellibiz.Shared.{◌≡◌, refl, true, false, none, some, [], ◌∷◌}
use intellibiz.Shared.Table
use intellibiz.Identity.Rbac.{
  can, can_all, can_any, get_role_mask, includes, permission_check, role_mask,
}
use intellibiz.Identity.Rbac.Laws.{permission_check-can}

rbac : Unit {0}
unfolding can can_all can_any includes permission_check role_mask Table.get
rbac = tt

role_tests :
    (can "admin" "billing" ≡ true)
    × (can "admin" "sudo" ≡ false)
    × (can "member" "nothing" ≡ false)
    × (can_all "member" ("read" ∷ "write" ∷ []) ≡ true)
    × (can_any "viewer" ("write" ∷ "delete" ∷ []) ≡ false)
    × (get_role_mask "billing" ≡ 41)
    × (permission_check "toString" "read" ≡ none)
unfolding rbac
role_tests = (refl, refl, refl, refl, refl, refl, refl)

permission_check-can_example : permission_check "billing" "export" ≡ some (can "billing" "export")
unfolding rbac
permission_check-can_example = permission_check-can "billing" "export" refl
