-- ===== src/Org/Members/Rules.antt =====
-- The protection rules of RemoveMember (backend/internal/service/user_service.go), and what
-- UpdateMember does to them.
use suzuran.Prelude.{
  ℕ, suc, ◌+◌, ◌≤◌, ◌≡◌, ◌≢◌, ◌⊎◌, inl, inr, refl, ap, Bool, false, not, ◌&&◌, ◌||◌, List, [], ◌∷◌,
  filter, filter-holds, All, All-map, Bool-cases, arith, ◌==◌, ==_iff, if◌then◌else◌,
}
use suzuran.Prelude.Result.{ok}
use suzuran.Prelude.Exec.{◌>>=◌}
use suzuran.Gorm.{IsGorm, delete_where}
use suzuran.Org.Model.{OrgUserBond}
use suzuran.Org.Members.{tally, is_last_admin, remove_member}
use suzuran.Org.Tables.{Env, Db, in_bond, get_user, get_bonds_of_org, delete_bond}

-- The unique index of the table: one bond for a user in an organisation.
abbrev pub DistinctBonds : List OrgUserBond → Type 0
DistinctBonds [] = Unit
DistinctBonds (b ∷ t) = All (λ x. in_bond b.org_id b.user_id x ≡ false) t × DistinctBonds t

abbrev pub admin_count : ℕ → List OrgUserBond → ℕ
admin_count org [] = 0
admin_count org (b ∷ t) =
    let rest = admin_count org t in if b.org_id == org && b.is_admin then suc rest else rest

-- one of the admins of the organisation is the user
abbrev is_admin_of : ℕ → ℕ → List OrgUserBond → Bool
is_admin_of org user [] = false
is_admin_of org user (b ∷ t) = (in_bond org user b && b.is_admin) || is_admin_of org user t

tally_lem :
    (org user : ℕ) (t : List OrgUserBond) (x : Bool) (n : ℕ)
    → tally user (filter (λ b. b.org_id == org) t) x n
      ≡ (x || is_admin_of org user t, n + admin_count org t)
unfolding tally
tally_lem org user [] x n = ground arith
tally_lem org user (b ∷ t) x n =
    ground (arith, tally_lem org user t x n, tally_lem org user t (x || b.user_id == user) (suc n))

delete_where_same :
    (org user : ℕ) (t : List OrgUserBond)
    → All (λ b. in_bond org user b ≡ false) t
    → delete_where (in_bond org user) t ≡ t
delete_where_same org user [] h = refl
delete_where_same org user (b ∷ t) h = rw h.0 (ap (λ l. b ∷ l) (delete_where_same org user t h.1))

admin_count-delete_where :
    (org user : ℕ) (t : List OrgUserBond)
    → DistinctBonds t
    → admin_count org t
      ≤ admin_count org (delete_where (in_bond org user) t)
        + (if is_admin_of org user t then 1 else 0)
admin_count-delete_where org user [] h = omega arith
admin_count-delete_where org user (b ∷ t) h = elim (Bool-cases (in_bond org user b)) [
  | inl e ↦
      let of_org : b.org_id ≡ org = ground arith in
      let of_user : b.user_id ≡ user = ground arith in
      let same = delete_where_same org user t (rw (← of_org, ← of_user) h.0) in ground (arith, same)
  | inr e ↦ ground (arith, admin_count-delete_where org user t h.1)
]

module _ (e : Env) (law : IsGorm e.gorm) (org user current : ℕ) where
  -- RemoveMember ends with the store as it was, or with the bond deleted after both rules passed.
  remove_member-cases :
      (s : Db)
      → ((remove_member e org user current s).1 ≡ s)
        ⊎ ((user ≢ current)
            × (is_last_admin (tally user (filter (λ b. b.org_id == org) s.bonds) false 0) ≡ false)
            × ((remove_member e org user current s).1
                ≡ record s { bonds = delete_where (in_bond org user) s.bonds }))
  unfolding remove_member get_user get_bonds_of_org delete_bond ◌>>=◌
  remove_member-cases s = ground (
    arith,
    law.find_law (λ b. b.org_id == org) s.bonds,
    law.delete_law (in_bond org user) s.bonds,
    ==_iff user current,
  )

  -- An organisation that has an admin still has one after RemoveMember, whether it succeeds or
  -- fails, provided that a user has at most one bond with an organisation.
  pub remove_member_leaves_admin :
      (s : Db)
      → DistinctBonds s.bonds
      → 1 ≤ admin_count org s.bonds
      → 1 ≤ admin_count org (remove_member e org user current s).1.bonds
  remove_member_leaves_admin s distinct some_admin = elim (remove_member-cases s) [
    | inl q ↦ rw q some_admin
    | inr (ne, allowed, q) ↦ rw q (
        ground (
          arith,
          tally_lem org user s.bonds false 0,
          admin_count-delete_where org user s.bonds distinct,
        ))
  ]

  delete_where-gone :
      (p : OrgUserBond → Bool) (t : List OrgUserBond) → All (λ b. p b ≡ false) (delete_where p t)
  delete_where-gone p t = All-map _ _ _ (λ r h. ground (arith, h)) (filter-holds (λ r. not (p r)) t)

  remove_member-ok :
      (s : Db)
      → (remove_member e org user current s).0 ≡ ok tt
      → (user ≢ current)
        × ((remove_member e org user current s).1
            ≡ record s { bonds = delete_where (in_bond org user) s.bonds })
  unfolding remove_member get_user get_bonds_of_org delete_bond ◌>>=◌
  remove_member-ok s h = ground (
    arith,
    law.find_law (λ b. b.org_id == org) s.bonds,
    law.delete_law (in_bond org user) s.bonds,
    ==_iff user current,
  )

  -- RemoveMember that succeeds was not called by the member; the member has no bond with the
  -- organisation afterwards, and every other bond and every user is as before.
  pub remove_member_removes :
      (s : Db)
      → (remove_member e org user current s).0 ≡ ok tt
      → (user ≢ current)
        × All (λ b. in_bond org user b ≡ false) (remove_member e org user current s).1.bonds
        × ((remove_member e org user current s).1
            ≡ record s { bonds = delete_where (in_bond org user) s.bonds })
  remove_member_removes s h =
      let (ne, q) = remove_member-ok s h in
      (ne, rw q (delete_where-gone (in_bond org user) s.bonds), q)
