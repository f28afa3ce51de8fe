-- ===== src/Org/Members/Demotion.antt =====
-- What UpdateMember (backend/internal/service/user_service.go) does to the last admin.
use suzuran.Prelude.{
  ℕ, ◌≡◌, ◌≢◌, ◌⊎◌, inl, inr, refl, String, Bool, true, false, ◌&&◌, Option, none, some, List, [],
  ◌∷◌, find?, All, All-map, All-zip, Bool-cases, arith, ◌==◌, ==_iff,
}
use suzuran.Prelude.Error.{Error}
use suzuran.Prelude.Result.{Result-cases, ok, err}
use suzuran.Prelude.Exec.{◌>>=◌}
use suzuran.Gorm.{IsGorm, upsert}
use suzuran.Gorm.Rows.{Unique, row_at}
use suzuran.Org.Model.{User, OrgUserBond}
use suzuran.Org.Members.{MemberView, update_member, or_old, or_kept, or_text, member_view}
use suzuran.Org.Tables.{Env, Db, in_bond, get_user, get_bond, save_user, save_bond}
use suzuran.Org.Members.Rules.{DistinctBonds, admin_count}

abbrev pub is_org_admin : ℕ → OrgUserBond → Bool
is_org_admin org b = b.org_id == org && b.is_admin

-- no row of a table in which nobody is admin counts
admin_count-none :
    (org : ℕ) (t : List OrgUserBond)
    → All (λ x. is_org_admin org x ≡ false) t
    → admin_count org t ≡ 0
admin_count-none org [] h = refl
admin_count-none org (b ∷ t) h = ground (arith, admin_count-none org t h.1)

-- The row that a search finds is the only one of its user in the organisation.
only_bond :
    (org user : ℕ) (t : List OrgUserBond) (r : OrgUserBond)
    → DistinctBonds t
    → find? (in_bond org user) t ≡ some r
    → All (λ x. in_bond org user x ≡ true → x.id ≡ r.id) t
only_bond org user [] r d h = tt
only_bond org user (b ∷ t) r d h = elim (Bool-cases (in_bond org user b)) [
  | inl q ↦
      let of_org : b.org_id ≡ org = ground arith in
      let of_user : b.user_id ≡ user = ground arith in
      let others : All (λ x. in_bond org user x ≡ false) t = rw (← of_org, ← of_user) d.0 in
      let it : b.id ≡ r.id = ground arith in
      (
        (λ _. it),
        All-map _ _ t (λ x n y. absurd (let bad : ⊥ = ground (arith, n, y) in bad)) others,
      )
  | inr q ↦ (
    (λ y. absurd (let bad : ⊥ = ground (arith, y) in bad)),
    only_bond org user t r d.1 (rw q at h),
  )
]

no_admin :
    (org : ℕ) (x b : OrgUserBond) (t : List OrgUserBond)
    → All (λ (y : OrgUserBond). y.id ≢ x.id) t
    → All (λ y. is_org_admin org y ≡ true → y.id ≡ b.id) t
    → x.id ≡ b.id
    → All (λ y. is_org_admin org y ≡ false) t
no_admin org x b t a c same = All-map _ _ t (λ y h. ground (arith, h.0, h.1)) (All-zip _ _ t a c)

admin_count-upsert :
    (org : ℕ) (b : OrgUserBond) (t : List OrgUserBond)
    → b.is_admin ≡ false
    → Unique (λ (x : OrgUserBond). x.id) t
    → All (λ x. is_org_admin org x ≡ true → x.id ≡ b.id) t
    → admin_count org (upsert (λ (x : OrgUserBond). x.id) b t) ≡ 0
admin_count-upsert org b [] low u h = ground arith
admin_count-upsert org b (x ∷ t) low u h = elim (Bool-cases (x.id == b.id)) [
  | inl q ↦
      let same : x.id ≡ b.id = (==_iff _ _).0 q in
      let none_left = admin_count-none org t (no_admin org x b t u.0 h.1 same) in
      rw q (ground (arith, none_left))
  | inr q ↦
      let rest = admin_count-upsert org b t low u.1 h.1 in
      let not_admin : is_org_admin org x ≡ false = ground (arith, h.0) in
      rw q (ground (arith, rest, not_admin))
]

module _ (e : Env) (law : IsGorm e.gorm) (org user : ℕ) where
  -- the bond that UpdateMember writes
  abbrev written : OrgUserBond → Option Bool → Option ℕ → Option Bool → OrgUserBond
  written r is_admin dept is_manager = record r {
    is_admin = or_old r.is_admin is_admin;
    is_department_manager = or_old r.is_department_manager is_manager;
    department_id = or_kept r.department_id dept;
  }

  update_member-ok :
      (name email position : String) (is_admin : Option Bool) (dept : Option ℕ)
      (is_manager : Option Bool) (s : Db) (v : MemberView)
      → (update_member e org user name email position is_admin dept is_manager s).0 ≡ ok v
      → (r : OrgUserBond) × (find? (in_bond org user) s.bonds ≡ some r)
        × ((update_member e org user name email position is_admin dept is_manager s).1.bonds
            ≡ upsert (λ (b : OrgUserBond). b.id) (written r is_admin dept is_manager) s.bonds)
  unfolding update_member get_bond get_user save_user save_bond ◌>>=◌
  update_member-ok name email position is_admin dept is_manager s v h =
      elim (Result-cases (e.gorm.first (in_bond org user) s.bonds)) [
        | inl (none, q) ↦ absurd (let bad : ⊥ = ground arith in bad)
        | inr (x, q) ↦ absurd (let bad : ⊥ = ground arith in bad)
        | inl (some r, q) ↦ (
          r,
          ground (arith, law.first_law (in_bond org user) s.bonds),
          ground (
            arith,
            law.save_law (λ (b : OrgUserBond). b.id) (written r is_admin dept is_manager) s.bonds,
          ),
        )
      ]

  -- Of a member whose bond and user are stored, UpdateMember fails on the database's refusal only.
  update_member-done :
      (name email position : String) (is_admin : Option Bool) (dept : Option ℕ)
      (is_manager : Option Bool) (s : Db) (r : OrgUserBond) (u : User)
      → find? (in_bond org user) s.bonds ≡ some r
      → row_at (λ (x : User). x.id) user s.users ≡ some u
      → ((update_member e org user name email position is_admin dept is_manager s).0 ≡ err Error.db)
        ⊎ ((v : MemberView) × ((update_member e org user name email position is_admin dept
                is_manager s).0
              ≡ ok v))
  unfolding update_member get_bond get_user save_user save_bond ◌>>=◌
  update_member-done name email position is_admin dept is_manager s r u bonded held =
      let changed = record u {
        name = or_text u.name name;
        email = or_text u.email email;
        position = or_text u.position position;
      } in
      elim (law.first_law (in_bond org user) s.bonds) [
        | inl q ↦ inl (rw q refl)
        | inr q ↦ elim (law.first_law (λ (x : User). x.id == user) s.users) [
          | inl p ↦ inl (rw (q, bonded, p) refl)
          | inr p ↦ elim (law.save_law (λ (x : User). x.id) changed s.users) [
            | inl w ↦ inl (rw (q, bonded, p, held, w) refl)
            | inr w ↦
                elim (law.save_law (λ (b : OrgUserBond). b.id) (written r is_admin dept is_manager)
                  s.bonds) [
                    | inl z ↦ inl (rw (q, bonded, p, held, w, z) refl)
                    | inr z ↦ inr (
                      member_view e (written r is_admin dept is_manager) changed,
                      rw (q, bonded, p, held, w, z) refl,
                    )
                  ]
          ]
        ]
      ]

  -- UpdateMember that takes the admin flag from the only admin of an organisation, whose bond and
  -- user are stored, fails on the database's refusal only; otherwise it succeeds and leaves the
  -- organisation with no admin, if bonds have distinct keys and a user has at most one bond with an
  -- organisation.
  pub update_member_demotes :
      (name email position : String) (dept : Option ℕ) (is_manager : Option Bool) (s : Db)
      (r : OrgUserBond) (u : User)
      → Unique (λ (b : OrgUserBond). b.id) s.bonds
      → DistinctBonds s.bonds
      → All (λ b. is_org_admin org b ≡ true → b.user_id ≡ user) s.bonds
      → find? (in_bond org user) s.bonds ≡ some r
      → row_at (λ (x : User). x.id) user s.users ≡ some u
      → ((update_member e org user name email position (some false) dept is_manager s).0
          ≡ err Error.db)
        ⊎ ((v : MemberView) × ((update_member e org user name email position
                (some false)
                dept
                is_manager
                s).0
              ≡ ok v)
            × (admin_count org
                  (update_member e org user name email position
                    (some false)
                    dept
                    is_manager
                    s).1.bonds
                ≡ 0))
  update_member_demotes name email position dept is_manager s r u unique distinct only bonded held =
      elim (update_member-done name email position (some false) dept is_manager s r u bonded held) [
        | inl refused ↦ inl refused
        | inr (v, h) ↦
            let (b, found, q) =
              update_member-ok name email position (some false) dept is_manager s v h in
            let same =
              All-map _ (λ x. is_org_admin org x ≡ true → x.id ≡ b.id) s.bonds
                (λ x (o, f) y. f (ground (arith, o y, ==_iff x.user_id user)))
                (All-zip _ _ s.bonds only (only_bond org user s.bonds b distinct found)) in
            inr (
              v,
              h,
              rw q (
                  admin_count-upsert org (written b (some false) dept is_manager) s.bonds refl
                    unique same),
            )
      ]
