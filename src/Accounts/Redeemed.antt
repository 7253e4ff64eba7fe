-- ===== src/Accounts/Redeemed.antt =====
-- What RegisterFirstUser and RedeemInvite do to users and invites (server/internal/storage/register.go
-- and invite_redeem.go).
use household_objects_srv.Prelude.{
  ℕ, String, ◌≡◌, refl, sym, ap, ◌∙◌, true, inl, inr, arith, Bool-cases, Option-cases, some, [],
  ◌∷◌, ◌++◌, ok, map_err, >>=-eq-ok, ok-injective, ◌==◌, select, length, find?, update_where,
}
use household_objects_srv.Push.Storage.{alloc_change_seq}
use household_objects_srv.Accounts.{
  SameName, UserRow, InviteRow, Accounts, in_store, alloc, new_user, insert_user, name_taken,
  user_exists,
}
use household_objects_srv.Accounts.Invites.{
  RedeemInviteParams, RedeemedInvite, invite_is, open_invite, valid_redemption, redeemed,
  mark_redeemed, redeem_found, redeem_invite,
}

pub alloc-invites :
    (a : Accounts) (group : String) (seq : ℕ) (a' : Accounts)
    → alloc a group ≡ ok (seq, a')
    → (a'.invites ≡ a.invites) × (a'.users ≡ a.users)
unfolding alloc
alloc-invites a group seq a' h =
    let ((n, s), allocated, rest) =
      >>=-eq-ok (map_err in_store (alloc_change_seq a.store group)) _ h in
    let same : record a { store = s } ≡ a' = (ok-injective rest).1 in rw (← same) (refl, refl)

pub insert_user-ok :
    (same_name : SameName) (a : Accounts) (row : UserRow) (a' : Accounts)
    → insert_user same_name a row ≡ ok a'
    → a' ≡ record a { users = a.users ++ row ∷ [] }
unfolding insert_user
insert_user-ok same_name a row a' h = elim (Bool-cases (user_exists a row.id)) [
  | inl e ↦ absurd (ground (arith, rw (e, insert_user) at h))
  | inr e ↦ elim (Bool-cases (name_taken same_name a row.username)) [
    | inl t ↦ absurd (ground (arith, rw (e, t, insert_user) at h))
    | inr t ↦
        let same : record a { users = a.users ++ row ∷ [] } ≡ a' =
          ground (arith, rw (e, t, insert_user) at h) in
        sym same
  ]
]

-- A redemption without error: one invite was open, and it is marked.
pub record Redemption (a : Accounts) (p : RedeemInviteParams) (r : RedeemedInvite) (a' : Accounts)
    : Type 0 where
  pub seq : ℕ
  pub current : InviteRow
  pub counted : Accounts
  pub found : find? (invite_is p.token_hash) a.invites ≡ some current
  pub one_open :
      (length (select (open_invite current.group_id p.token_hash p.now) a.invites) == 1) ≡ true
  pub marked :
      a'.invites
      ≡ update_where (open_invite current.group_id p.token_hash p.now) (redeemed p seq) a.invites
  pub joined :
      a'.users
      ≡ a.users
        ++ new_user p.user_id current.group_id p.username p.password_hash "member" p.now seq ∷ []
  pub answer :
      r ≡ record { group_id = current.group_id; user_id = p.user_id; username = p.username }

mark_redeemed-ok :
    (a : Accounts) (group : String) (p : RedeemInviteParams) (seq : ℕ) (r : RedeemedInvite)
    (a' : Accounts)
    → mark_redeemed a group p seq ≡ ok (r, a')
    → ((length (select (open_invite group p.token_hash p.now) a.invites) == 1) ≡ true)
      × (r ≡ record { group_id = group; user_id = p.user_id; username = p.username })
      × (a' ≡ record a {
        invites = update_where (open_invite group p.token_hash p.now) (redeemed p seq) a.invites;
      })
unfolding mark_redeemed
mark_redeemed-ok a group p seq r a' h =
    elim (Bool-cases (length (select (open_invite group p.token_hash p.now) a.invites) == 1)) [
      | inl e ↦ let same = ok-injective (rw (e, mark_redeemed) at h) in (e, sym same.0, sym same.1)
      | inr e ↦ absurd (ground (arith, rw (e, mark_redeemed) at h))
    ]

redeem_found-ok :
    (same_name : SameName) (a : Accounts) (p : RedeemInviteParams) (current : InviteRow)
    (r : RedeemedInvite) (a' : Accounts)
    → find? (invite_is p.token_hash) a.invites ≡ some current
    → redeem_found same_name a p current ≡ ok (r, a')
    → Redemption a p r a'
unfolding redeem_found
redeem_found-ok same_name a p current r a' found h =
    let ((seq, a₁), allocated, rest) = >>=-eq-ok (alloc a current.group_id) _ h in
    let (a₂, inserted, last) = >>=-eq-ok (insert_user same_name a₁ _) _ rest in
    let (invites, users) = alloc-invites a current.group_id seq a₁ allocated in
    let made = insert_user-ok same_name a₁ _ a₂ inserted in
    let same = ap (λ (x : Accounts). x.invites) made ∙ invites in
    let (one_open, answer, written) = mark_redeemed-ok a₂ current.group_id p seq r a' last in
    record {
      seq = seq;
      current = current;
      counted = a₁;
      found = found;
      one_open = rw same at one_open;
      marked =
          ap (λ (x : Accounts). x.invites) written
          ∙ ap (update_where (open_invite current.group_id p.token_hash p.now) (redeemed p seq))
              same;
      joined =
          ap (λ (x : Accounts). x.users) written
          ∙ ap (λ (x : Accounts). x.users) made
          ∙ ap
              (λ us.
                us
                ++ new_user p.user_id current.group_id p.username p.password_hash "member" p.now seq
                  ∷ [])
              users;
      answer = answer;
    }

pub redeem_invite-Redemption :
    (same_name : SameName) (a : Accounts) (p : RedeemInviteParams) (r : RedeemedInvite)
    (a' : Accounts)
    → redeem_invite same_name a p ≡ ok (r, a')
    → Redemption a p r a'
unfolding redeem_invite
redeem_invite-Redemption same_name a p r a' h = elim (Bool-cases (valid_redemption p)) [
  | inl v ↦ elim (Option-cases (find? (invite_is p.token_hash) a.invites)) [
    | inl e ↦ absurd (ground (arith, rw (v, e, redeem_invite) at h))
    | inr (current, e) ↦
        redeem_found-ok same_name a p current r a' e (rw (v, e, redeem_invite) at h)
  ]
  | inr v ↦ absurd (ground (arith, rw (v, redeem_invite) at h))
]
