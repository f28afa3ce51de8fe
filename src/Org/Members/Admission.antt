-- ===== src/Org/Members/Admission.antt =====
-- CreateMember (backend/internal/service/user_service.go).
use suzuran.Prelude.{
  ℕ, ◌≡◌, refl, subst, inl, inr, ◌++◌, String, Bool, true, Option, none, some, [], ◌∷◌, find?,
  str_eq, arith, ==_refl,
}
use suzuran.Prelude.Result.{Result-cases, ok, ok-injective}
use suzuran.Prelude.Exec.{◌>>=◌}
use suzuran.Prelude.Exec.Rules.{>>=-ok}
use suzuran.Gorm.{IsGorm}
use suzuran.Gorm.Rows.{Unique, row_at, row_at-find?, row_at-append_one, find?-holds}
use suzuran.Org.Model.{User, OrgUserBond}
use suzuran.Org.Members.{MemberView, add_bond, create_new_user, join_org, create_member}
use suzuran.Org.Tables.{Env, Db, in_bond, get_user_by_phone, get_bond, create_bond}

-- The view is that of a bond in the table, of its user with the organisation.
pub record IsMemberView (org : ℕ) (s : Db) (v : MemberView) : Type 0 where
  pub bond : OrgUserBond
  pub kept : row_at (λ (b : OrgUserBond). b.id) v.bond_id s.bonds ≡ some bond
  pub of_user : in_bond org v.user_id bond ≡ true
  pub same_admin : v.is_admin ≡ bond.is_admin
  pub same_manager : v.is_department_manager ≡ bond.is_department_manager
  pub same_department : v.department_id ≡ bond.department_id

module _ (e : Env) (law : IsGorm e.gorm) (org : ℕ) (is_admin : Bool) (dept : Option ℕ)
    (is_manager : Bool) where
  add_bond-ok :
      (user : User) (s : Db) (v : MemberView)
      → (add_bond e org is_admin dept is_manager user s).0 ≡ ok v
      → IsMemberView org (add_bond e org is_admin dept is_manager user s).1 v
  unfolding add_bond create_bond ◌>>=◌
  add_bond-ok user s v h =
      let mk : ℕ → OrgUserBond = λ n. record {
        id = n;
        org_id = org;
        user_id = user.id;
        department_id = dept;
        is_admin = is_admin;
        is_department_manager = is_manager;
      } in
      let bond = mk (e.gorm.next_id (λ b. b.id) s.bonds) in
      elim (law.create_law (λ b. b.id) mk s.bonds) [
        | inl q ↦ absurd (let bad : ⊥ = ground arith in bad)
        | inr q ↦ rw q (
            subst (IsMemberView org (record s { bonds = s.bonds ++ bond ∷ [] }))
              (ok-injective (rw q at h))
              (record {
                bond = bond;
                kept =
                    row_at-append_one (λ (b : OrgUserBond). b.id) bond.id s.bonds bond
                      (law.next_id_fresh (λ b. b.id) s.bonds) refl;
                of_user = rw (==_refl org, ==_refl user.id) refl;
                same_admin = refl;
                same_manager = refl;
                same_department = refl;
              }))
      ]

  join_org-ok :
      (user : User) (s : Db) (v : MemberView)
      → Unique (λ (b : OrgUserBond). b.id) s.bonds
      → ((get_bond e org user.id >>= join_org e org is_admin dept is_manager user) s).0 ≡ ok v
      → IsMemberView org
          ((get_bond e org user.id >>= join_org e org is_admin dept is_manager user) s).1
          v
  unfolding join_org get_bond ◌>>=◌
  join_org-ok user s v unique h = elim (Result-cases (e.gorm.first (in_bond org user.id) s.bonds)) [
    | inr (x, q) ↦ absurd (let bad : ⊥ = ground arith in bad)
    | inl (none, q) ↦ rw q (add_bond-ok user s v (rw q at h))
    | inl (some b, q) ↦
        let hit : find? (in_bond org user.id) s.bonds ≡ some b =
          ground (arith, law.first_law (in_bond org user.id) s.bonds) in
        rw q (
          subst (IsMemberView org s) (ok-injective (rw q at h)) (record {
            bond = b;
            kept = row_at-find? (λ (b : OrgUserBond). b.id) _ s.bonds b unique hit;
            of_user = find?-holds (in_bond org user.id) s.bonds b hit;
            same_admin = refl;
            same_manager = refl;
            same_department = refl;
          }))
  ]

  enters :
      (phone name email username plaintext position : String) (s : Db) (v : MemberView)
      → ((create_new_user e phone name email username plaintext position
            >>= add_bond e org is_admin dept is_manager)
          s).0
        ≡ ok v
      → IsMemberView org
          ((create_new_user e phone name email username plaintext position
              >>= add_bond e org is_admin dept is_manager)
            s).1
          v
  enters phone name email username plaintext position s v h =
      let (user, one, rest) =
        >>=-ok (create_new_user e phone name email username plaintext position)
          (add_bond e org is_admin dept is_manager) s h in
      rw rest (add_bond-ok user _ v (rw (← rest) h))

  -- A member view that CreateMember returns is that of a bond in the table, which ties its user to
  -- the organisation, provided that bonds had distinct keys.
  pub create_member-IsMemberView :
      (phone name email username plaintext position : String) (s : Db) (v : MemberView)
      → Unique (λ (b : OrgUserBond). b.id) s.bonds
      → (create_member e org phone name email username plaintext position is_admin dept is_manager
          s).0
        ≡ ok v
      → IsMemberView org
          (create_member e org phone name email username plaintext position is_admin dept is_manager
            s).1
          v
  unfolding create_member get_user_by_phone ◌>>=◌
  create_member-IsMemberView phone name email username plaintext position s v unique h =
      elim (Result-cases (e.gorm.first (λ u. str_eq u.phone phone) s.users)) [
        | inr (x, q) ↦ absurd (let bad : ⊥ = ground arith in bad)
        | inl (some user, q) ↦ rw q (join_org-ok user s v unique (rw q at h))
        | inl (none, q) ↦ rw q (enters phone name email username plaintext position s v (rw q at h))
      ]
