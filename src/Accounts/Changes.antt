-- ===== src/Accounts/Changes.antt =====
-- What the operations on invites may do to the rows of `invites` (server/internal/storage/invites.go,
-- invite_redeem.go and invites_admin.go).
use mathlib.Core.Path.{subst}
use household_objects_srv.Prelude.{
  ℕ, String, str_eq, ◌≡◌, refl, sym, Bool, true, ◌&&◌, ◌||◌, inl, inr, arith, Bool-cases,
  Option-cases, none, List, [], ◌∷◌, ◌++◌, ok, >>=-eq-ok, ◌==◌, leb, find?, update_where,
}
use household_objects_srv.Push.Storage.{is_some}
use household_objects_srv.Accounts.{SameName, UserRow, InviteRow, Accounts, alloc}
use household_objects_srv.Accounts.Invites.{
  InviteParams, RedeemInviteParams, RedeemedInvite, open_invite, redeemed, redeem_invite,
  valid_invite, new_invite, token_is, insert_invite, create_invite, invite_named, revocable,
  revoked, revoke_found, revoke_invite,
}
use household_objects_srv.Accounts.Redeemed.{alloc-invites, redeem_invite-Redemption}

-- What an operation may do to the rows of `invites`: tokens stay, and so does it that an invite is
-- redeemed.
pub data InviteChange (rows : List InviteRow) : List InviteRow → Type 0 where
  kept : InviteChange rows rows
  added :
      (new : InviteRow)
      → find? (token_is new.token_hash) rows ≡ none
      → InviteChange rows (rows ++ new ∷ [])
  updated :
      (q : InviteRow → Bool) (f : InviteRow → InviteRow)
      → ((r : InviteRow)
          → ((f r).token_hash ≡ r.token_hash)
            × (is_some r.redeemed_at ≡ true → is_some (f r).redeemed_at ≡ true))
      → InviteChange rows (update_where q f rows)

pub insert_invite-ok :
    (a : Accounts) (row : InviteRow) (a' : Accounts)
    → insert_invite a row ≡ ok a'
    → (find? (token_is row.token_hash) a.invites ≡ none)
      × (a' ≡ record a { invites = a.invites ++ row ∷ [] })
unfolding insert_invite
insert_invite-ok a row a' h =
    elim (Bool-cases (is_some (find? (λ (r : InviteRow). str_eq r.id row.id) a.invites))) [
      | inl e ↦ absurd (ground (arith, rw (e, insert_invite) at h))
      | inr e ↦ elim (Option-cases (find? (token_is row.token_hash) a.invites)) [
        | inl free ↦
            elim (Bool-cases (
              is_some (
                find?
                  (λ (u : UserRow).
                    str_eq u.group_id row.group_id && str_eq u.id row.created_by_user_id)
                  a.users))) [
                    | inl known ↦
                        let same : record a { invites = a.invites ++ row ∷ [] } ≡ a' =
                          ground (arith, rw (e, free, known, insert_invite) at h) in
                        (free, sym same)
                    | inr unknown ↦
                        absurd (ground (arith, rw (e, free, unknown, insert_invite) at h))
                  ]
        | inr (r, taken) ↦ absurd (ground (arith, rw (e, taken, insert_invite) at h))
      ]
    ]

insert_invite-InviteChange :
    (a : Accounts) (row : InviteRow) (a' : Accounts)
    → insert_invite a row ≡ ok a'
    → InviteChange a.invites a'.invites
insert_invite-InviteChange a row a' h =
    let (free, written) = insert_invite-ok a row a' h in
    subst (λ (x : Accounts). InviteChange a.invites x.invites) (sym written) (added row free)

pub create_invite-InviteChange :
    (a : Accounts) (p : InviteParams) (a' : Accounts)
    → create_invite a p ≡ ok a'
    → InviteChange a.invites a'.invites
unfolding create_invite
create_invite-InviteChange a p a' h = elim (Bool-cases (valid_invite p)) [
  | inl v ↦
      let ((seq, a₁), allocated, rest) =
        >>=-eq-ok (alloc a p.group_id) _ (rw (v, create_invite) at h) in
      subst (λ rows. InviteChange rows a'.invites) (alloc-invites a p.group_id seq a₁ allocated).0
        (insert_invite-InviteChange a₁ (new_invite p seq) a' rest)
  | inr v ↦ absurd (ground (arith, rw (v, create_invite) at h))
]

revoke_found-InviteChange :
    (a : Accounts) (group id : String) (now : ℕ) (current : InviteRow) (a' : Accounts)
    → revoke_found a group id now current ≡ ok a'
    → InviteChange a.invites a'.invites
unfolding revoke_found
revoke_found-InviteChange a group id now current a' h =
    elim (Bool-cases (is_some current.redeemed_at)) [
      | inl spent ↦
          let same : a ≡ a' = ground (arith, rw (spent, revoke_found) at h) in
          subst (λ (x : Accounts). InviteChange a.invites x.invites) same kept
      | inr fresh ↦ elim (Bool-cases (leb current.expires_at now)) [
        | inl past ↦
            let same : a ≡ a' = ground (arith, rw (fresh, past, revoke_found) at h) in
            subst (λ (x : Accounts). InviteChange a.invites x.invites) same kept
        | inr ahead ↦
            let ((seq, a₁), allocated, rest) =
              >>=-eq-ok (alloc a group) _ (rw (fresh, ahead, revoke_found) at h) in
            let same : record a₁ {
              invites = update_where (revocable group id now) (revoked now seq) a₁.invites;
            }
                ≡ a' =
              ground (arith, rest) in
            subst (λ rows. InviteChange rows a'.invites) (alloc-invites a group seq a₁ allocated).0
              (subst (λ (x : Accounts). InviteChange a₁.invites x.invites) same
                (updated (revocable group id now) (revoked now seq) (λ r. (refl, λ spent. spent))))
      ]
    ]

pub revoke_invite-InviteChange :
    (a : Accounts) (group id : String) (now : ℕ) (a' : Accounts)
    → revoke_invite a group id now ≡ ok a'
    → InviteChange a.invites a'.invites
unfolding revoke_invite
revoke_invite-InviteChange a group id now a' h =
    elim (Bool-cases (str_eq group "" || (str_eq id "" || now == 0))) [
      | inl e ↦ absurd (ground (arith, rw (e, revoke_invite) at h))
      | inr e ↦ elim (Option-cases (find? (invite_named group id) a.invites)) [
        | inl gone ↦ absurd (ground (arith, rw (e, gone, revoke_invite) at h))
        | inr (current, found) ↦
            revoke_found-InviteChange a group id now current a' (rw (e, found, revoke_invite) at h)
      ]
    ]

pub redeem_invite-InviteChange :
    (same_name : SameName) (a : Accounts) (p : RedeemInviteParams) (r : RedeemedInvite)
    (a' : Accounts)
    → redeem_invite same_name a p ≡ ok (r, a')
    → InviteChange a.invites a'.invites
redeem_invite-InviteChange same_name a p r a' h =
    let done = redeem_invite-Redemption same_name a p r a' h in
    subst (InviteChange a.invites) (sym done.marked) (
      updated (open_invite done.current.group_id p.token_hash p.now) (redeemed p done.seq)
        (λ r. (refl, λ spent. refl)))
