-- ===== src/App/Distribution/Withdrawal.antt =====
-- What UndistributeApp and RemoveAppAdmin take away.
use suzuran.Prelude.{
  ℕ, ◌≡◌, ◌⊎◌, inl, inr, refl, subst, ◌∙◌, String, Bool, true, false, not, none, some, List, [],
  ◌∷◌, All, All-map, filter-holds, filter-kept, filter-dropped, find?, filter, Bool-cases, arith,
}
use suzuran.Prelude.Result.{ok}
use suzuran.Prelude.Exec.{◌>>=◌}
use suzuran.Prelude.Exec.Rules.{>>=-ok}
use suzuran.Gorm.{Gorm, IsGorm, delete_where}
use suzuran.Org.Model.{OrgUserBond}
use suzuran.App.Model.{ApplicationAdmin}
use suzuran.App.Distribution.{
  Db, is_dist, is_app_org, is_admin_row, get_bond, get_admin, delete_distribution, delete_admin,
  list_admins, delete_admins, undistribute_app, remove_app_admin, is_app_admin, is_member,
}

-- the user of one of the rows
abbrev HasUser : List ApplicationAdmin → ℕ → Type 0
HasUser [] user = ⊥
HasUser (a ∷ l) user = (a.user_id ≡ user) ⊎ HasUser l user

module _ (g : Gorm) (law : IsGorm g) (app : String) (org : ℕ) where
  abbrev others : ApplicationAdmin → Bool
  others a = not (is_app_org app org a)

  -- All rows of the application in the organisation have a user of the list.
  abbrev Covered : List ApplicationAdmin → List ApplicationAdmin → Type 0
  Covered l t = All (λ a. is_app_org app org a ≡ true → HasUser l a.user_id) t

  Covered-delete :
      (a : ApplicationAdmin) (l t : List ApplicationAdmin)
      → Covered (a ∷ l) t
      → Covered l (delete_where (is_admin_row app org a.user_id) t)
  Covered-delete a l [] h = tt
  Covered-delete a l (x ∷ t) h = elim (Bool-cases (is_admin_row app org a.user_id x)) [
    | inl e ↦ rw e (Covered-delete a l t h.1)
    | inr e ↦ rw e ((λ mine. ground (arith, h.0)), Covered-delete a l t h.1)
  ]

  others-delete :
      (user : ℕ) (t : List ApplicationAdmin)
      → filter others (delete_where (is_admin_row app org user) t) ≡ filter others t
  others-delete user [] = refl
  others-delete user (x ∷ t) = ground (arith, others-delete user t)

  Covered-self : (t : List ApplicationAdmin) → Covered (filter (is_app_org app org) t) t
  Covered-self [] = tt
  Covered-self (x ∷ t) = elim (Bool-cases (is_app_org app org x)) [
    | inl e ↦
        subst (λ l. Covered l (x ∷ t)) (filter-kept _ x t e)
          ((λ mine. inl refl), All-map _ _ t (λ y c mine. inr (c mine)) (Covered-self t))
    | inr e ↦
        subst (λ l. Covered l (x ∷ t)) (filter-dropped _ x t e)
          ((λ mine. absurd (let bad : ⊥ = ground arith in bad)), Covered-self t)
  ]

  Covered-none :
      (t : List ApplicationAdmin) → Covered [] t → All (λ a. is_app_org app org a ≡ false) t
  Covered-none t h = All-map _ _ t (λ y c. ground (arith, c)) h

  -- what is left when the admins of the application in the organisation are gone
  record Cleared (s t : Db) : Type 0 where
    gone : All (λ a. is_app_org app org a ≡ false) t.admins
    kept : filter others t.admins ≡ filter others s.admins
    same_distributions : t.distributions ≡ s.distributions
    same_rows : (t.apps ≡ s.apps) × (t.orgs ≡ s.orgs) × (t.users ≡ s.users) × (t.bonds ≡ s.bonds)

  delete_admin-ok :
      (user : ℕ) (s : Db)
      → (delete_admin g app org user s).0 ≡ ok tt
      → (delete_admin g app org user s).1
        ≡ record s { admins = delete_where (is_admin_row app org user) s.admins }
  unfolding delete_admin
  delete_admin-ok user s h = ground (arith, law.delete_law (is_admin_row app org user) s.admins)

  delete_admins-nil : (s : Db) → delete_admins g app org [] s ≡ (ok tt, s)
  unfolding delete_admins ◌>>=◌
  delete_admins-nil s = refl

  delete_admins-ok :
      (l : List ApplicationAdmin) (s : Db)
      → (delete_admins g app org l s).0 ≡ ok tt
      → Covered l s.admins
      → Cleared s (delete_admins g app org l s).1
  unfolding delete_admins
  delete_admins-ok [] s h c = rw (delete_admins-nil s) (record {
    gone = Covered-none s.admins c;
    kept = refl;
    same_distributions = refl;
    same_rows = (refl, refl, refl, refl);
  })
  delete_admins-ok (a ∷ l) s h c =
      let (x, one, rest) = >>=-ok (delete_admin g app org a.user_id) _ s h in
      let step = delete_admin-ok a.user_id s one in
      let tail =
        delete_admins-ok l (delete_admin g app org a.user_id s).1 (rw (← rest) h)
          (rw step (Covered-delete a l s.admins c)) in
      rw rest (record {
        gone = tail.gone;
        kept = tail.kept ∙ rw step (others-delete a.user_id s.admins);
        same_distributions = tail.same_distributions ∙ rw step refl;
        same_rows = (
          tail.same_rows.0 ∙ rw step refl,
          tail.same_rows.1 ∙ rw step refl,
          tail.same_rows.2 ∙ rw step refl,
          tail.same_rows.3 ∙ rw step refl,
        );
      })

  -- the rows of an application and an organisation are gone, and no others are
  pub record Withdrawn (s t : Db) : Type 0 where
    no_distribution : All (λ d. is_dist app org d ≡ false) t.distributions
    no_admin : All (λ a. is_app_org app org a ≡ false) t.admins
    other_distributions : t.distributions ≡ delete_where (is_dist app org) s.distributions
    other_admins : filter others t.admins ≡ filter others s.admins
    other_rows : (t.apps ≡ s.apps) × (t.orgs ≡ s.orgs) × (t.users ≡ s.users) × (t.bonds ≡ s.bonds)

  delete_where-gone :
      {Row : Type 0} (p : Row → Bool) (t : List Row) → All (λ r. p r ≡ false) (delete_where p t)
  delete_where-gone p t = All-map _ _ _ (λ r h. ground (arith, h)) (filter-holds (λ r. not (p r)) t)

  -- UndistributeApp that reports success leaves no distribution of the application to the
  -- organisation and no admin of the application there, keeps the other distributions and admins,
  -- and leaves the applications, organisations, users and bonds as they are.
  pub undistribute_app_clears :
      (s : Db)
      → (undistribute_app g app org s).0 ≡ ok tt
      → Withdrawn s (undistribute_app g app org s).1
  unfolding undistribute_app delete_distribution list_admins ◌>>=◌
  undistribute_app_clears s h = elim (law.delete_law (is_dist app org) s.distributions) [
    | inl q ↦ absurd (let bad : ⊥ = ground arith in bad)
    | inr q ↦ elim (law.find_law (is_app_org app org) s.admins) [
      | inl r ↦ absurd (let bad : ⊥ = ground arith in bad)
      | inr r ↦
          let left = record s { distributions = delete_where (is_dist app org) s.distributions } in
          let cleared =
            delete_admins-ok (filter (is_app_org app org) s.admins) left (rw (q, r) at h)
              (Covered-self s.admins) in
          rw (q, r)
            (record {
              no_distribution =
                  rw cleared.same_distributions
                    (delete_where-gone (is_dist app org) s.distributions);
              no_admin = cleared.gone;
              other_distributions = cleared.same_distributions;
              other_admins = cleared.kept;
              other_rows = cleared.same_rows;
            })
    ]
  ]

  find?-none-gone :
      {Row : Type 0} (p : Row → Bool) (t : List Row) → find? p (delete_where p t) ≡ none
  find?-none-gone p [] = refl
  find?-none-gone p (x ∷ t) = ground (arith, find?-none-gone p t)

  -- After RemoveAppAdmin reports success, the user counts as an admin of the application there only
  -- if the query for a bond with organisation 1 finds one.
  pub remove_app_admin_revokes :
      (user : ℕ) (s : Db)
      → (remove_app_admin g app org user s).0 ≡ ok tt
      → (is_app_admin g user org app (remove_app_admin g app org user s).1).0 ≡ ok true
      → (b : OrgUserBond) × (g.first (is_member 1 user) s.bonds ≡ ok (some b))
  unfolding remove_app_admin delete_admin is_app_admin get_bond get_admin ◌>>=◌
  remove_app_admin_revokes user s h admin =
      elim (law.delete_law (is_admin_row app org user) s.admins) [
        | inl q ↦ absurd (let bad : ⊥ = ground arith in bad)
        | inr q ↦
            let none_left = find?-none-gone (is_admin_row app org user) s.admins in
            ground (
              arith,
              none_left,
              law.first_law (is_admin_row app org user)
                  (delete_where (is_admin_row app org user) s.admins),
            )
      ]
