-- ===== src/Identity/Accounts/Status.antt =====
-- What a change of status leaves in the tables.
use shared_integration.Prelude.{
  String, ◌≡◌, refl, some, arith, find, Option-cases, inl, inr, find-update, find-true,
}
use shared_integration.Result.{ok}
use shared_integration.Identity.Tables.{
  Tenant, Membership, Db, Draw, get_tenant, find_membership, is_tenant, is_membership,
}
use shared_integration.Identity.Accounts.{set_tenant_status, set_membership_status}

-- The tenant after a change of its status.
pub tenant_after :
    (t status actor : String) (d : Draw) (db : Db) (row : Tenant)
    → (set_tenant_status t status actor d db).0 ≡ ok row
    → get_tenant t (set_tenant_status t status actor d db).1 ≡ some row × (row.status ≡ status)
unfolding set_tenant_status get_tenant
tenant_after t status actor d db row h = elim (Option-cases (find (is_tenant t) db.tenants)) [
  | inl e ↦ absurd (ground (arith, h, e))
  | inr (x, e) ↦
      let change : Tenant → Tenant = λ y. record y { status = status; updated_at = d.now } in
      let here = find-true (is_tenant t) db.tenants x e in
      let moved = find-update (is_tenant t) (is_tenant t) change db.tenants (λ y. refl) in
      ground (arith, h, e, here, moved)
]

-- The membership after a change of its status.
pub membership_after :
    (t u status actor : String) (d : Draw) (db : Db) (row : Membership)
    → (set_membership_status t u status actor d db).0 ≡ ok row
    → find_membership t u (set_membership_status t u status actor d db).1 ≡ some row
      × (row.status ≡ status)
unfolding set_membership_status find_membership
membership_after t u status actor d db row h =
    elim (Option-cases (find (is_membership t u) db.memberships)) [
      | inl e ↦ absurd (ground (arith, h, e))
      | inr (x, e) ↦
          let change : Membership → Membership = λ y. record y { status = status } in
          let here = find-true (is_membership t u) db.memberships x e in
          let moved =
            find-update (is_membership t u) (is_membership t u) change db.memberships (λ y. refl) in
          ground (arith, h, e, here, moved)
    ]
