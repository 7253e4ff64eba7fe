-- ===== src/Accounts/Invites.antt =====
-- Invites to a household: CreateInvite of server/internal/storage/invites.go, InviteRedeemable and
-- RedeemInvite of invite_redeem.go and RevokeInvite of invites_admin.go, with their statements and the
-- constraints of the table `invites`. The argument `same_name` is the collation NOCASE of user names.
use household_objects_srv.Prelude.{
  ℕ, ◌+◌, String, str_eq, false, Bool, ◌&&◌, ◌||◌, not, none, some, [], ◌∷◌, ◌++◌, if◌then◌else◌,
  Result, ok, err, ◌>>=◌, ◌==◌, ltb, leb, select, length, find?, update_where,
}
use household_objects_srv.Push.Storage.{is_some}
use household_objects_srv.Accounts.{
  SameName, UserRow, InviteRow, Accounts, AccountError, invalid_params, not_found, not_redeemable,
  constraint_failed, alloc, member, new_user, insert_user,
}

pub record InviteParams : Type 0 where
  pub id : String
  pub group_id : String
  pub created_by_user_id : String
  pub token_hash : String
  pub expires_at : ℕ
  pub now : ℕ

pub record RedeemInviteParams : Type 0 where
  pub token_hash : String
  pub user_id : String
  pub username : String
  pub password_hash : String
  pub now : ℕ

pub record RedeemedInvite : Type 0 where
  pub group_id : String
  pub user_id : String
  pub username : String

-- The WHERE clauses of `GetInviteForRedeem` and `MarkInviteRedeemed`.
abbrev pub invite_is : String → InviteRow → Bool
invite_is token r = str_eq r.token_hash token && not (is_some r.deleted_at)

abbrev pub open_invite : String → String → ℕ → InviteRow → Bool
open_invite group token now r =
    str_eq r.group_id group
    && (invite_is token r && (not (is_some r.redeemed_at) && ltb now r.expires_at))

-- `InviteRedeemable`
unfoldable pub invite_redeemable : Accounts → String → ℕ → Result AccountError Bool
invite_redeemable a token now =
    if str_eq token "" || now == 0
    then err invalid_params
    else elim (find? (invite_is token) a.invites) [
      | none ↦ ok false
      | some r ↦ ok (not (is_some r.redeemed_at) && ltb now r.expires_at)
    ]

abbrev pub valid_redemption : RedeemInviteParams → Bool
valid_redemption p =
    not (str_eq p.token_hash "")
    && (not (str_eq p.user_id "")
        && (not (str_eq p.username "") && (not (str_eq p.password_hash "") && not (p.now == 0))))

abbrev pub redeemed : RedeemInviteParams → ℕ → InviteRow → InviteRow
redeemed p seq r = record r {
  redeemed_at = some p.now;
  redeemed_by_user_id = some p.user_id;
  updated_at = p.now;
  version = r.version + 1;
  change_seq = seq;
}

-- The UPDATE of `RedeemInvite`, and what follows from the number of its rows.
unfoldable pub mark_redeemed :
    Accounts → String → RedeemInviteParams → ℕ → Result AccountError (RedeemedInvite × Accounts)
mark_redeemed a group p seq =
    let open_row = open_invite group p.token_hash p.now in
    if length (select open_row a.invites) == 1
    then ok (
      record { group_id = group; user_id = p.user_id; username = p.username },
      record a { invites = update_where open_row (redeemed p seq) a.invites },
    )
    else err not_redeemable

unfoldable pub redeem_found :
    SameName
    → Accounts
    → RedeemInviteParams
    → InviteRow
    → Result AccountError (RedeemedInvite × Accounts)
unfolding alloc insert_user mark_redeemed
redeem_found same_name a p current = do
  (seq, a) ← alloc a current.group_id
  a ←
      insert_user same_name a
        (new_user p.user_id current.group_id p.username p.password_hash member p.now seq)
  mark_redeemed a current.group_id p seq

-- `RedeemInvite`
unfoldable pub redeem_invite :
    SameName → Accounts → RedeemInviteParams → Result AccountError (RedeemedInvite × Accounts)
unfolding redeem_found
redeem_invite same_name a p =
    if valid_redemption p
    then elim (find? (invite_is p.token_hash) a.invites) [
      | none ↦ err not_redeemable
      | some current ↦ redeem_found same_name a p current
    ]
    else err invalid_params

abbrev pub valid_invite : InviteParams → Bool
valid_invite p =
    not (str_eq p.id "")
    && (not (str_eq p.group_id "")
        && (not (str_eq p.created_by_user_id "")
            && (not (str_eq p.token_hash "")
                && (not (p.expires_at == 0) && (not (p.now == 0) && ltb p.now p.expires_at)))))

abbrev pub new_invite : InviteParams → ℕ → InviteRow
new_invite p seq = record {
  id = p.id;
  group_id = p.group_id;
  token_hash = p.token_hash;
  created_by_user_id = p.created_by_user_id;
  expires_at = p.expires_at;
  redeemed_at = none;
  redeemed_by_user_id = none;
  created_at = p.now;
  updated_at = p.now;
  version = 1;
  deleted_at = none;
  change_seq = seq;
}

abbrev pub token_is : String → InviteRow → Bool
token_is token r = str_eq r.token_hash token

-- The INSERT of `CreateInvite`: the primary key, the unique index on tokens, and the creator.
unfoldable pub insert_invite : Accounts → InviteRow → Result AccountError Accounts
insert_invite a row =
    if is_some (find? (λ (r : InviteRow). str_eq r.id row.id) a.invites)
    then err constraint_failed
    else if is_some (find? (token_is row.token_hash) a.invites)
    then err constraint_failed
    else if is_some (
        find?
          (λ (u : UserRow). str_eq u.group_id row.group_id && str_eq u.id row.created_by_user_id)
          a.users)
    then ok (record a { invites = a.invites ++ row ∷ [] })
    else err constraint_failed

-- `CreateInvite`
unfoldable pub create_invite : Accounts → InviteParams → Result AccountError Accounts
unfolding alloc insert_invite
create_invite a p =
    if valid_invite p
    then (do (seq, a) ← alloc a p.group_id; insert_invite a (new_invite p seq))
    else err invalid_params

-- The WHERE clauses of `GetInviteForRevoke` and `RevokeInvite`.
abbrev pub invite_named : String → String → InviteRow → Bool
invite_named group id r = str_eq r.group_id group && (str_eq r.id id && not (is_some r.deleted_at))

abbrev pub revocable : String → String → ℕ → InviteRow → Bool
revocable group id now r =
    invite_named group id r && (not (is_some r.redeemed_at) && ltb now r.expires_at)

abbrev pub revoked : ℕ → ℕ → InviteRow → InviteRow
revoked now seq r = record r {
  expires_at = now;
  updated_at = now;
  version = r.version + 1;
  change_seq = seq;
}

unfoldable pub revoke_found :
    Accounts → String → String → ℕ → InviteRow → Result AccountError Accounts
unfolding alloc
revoke_found a group id now current =
    if is_some current.redeemed_at then ok a else if leb current.expires_at now then ok a else (do
      (seq, a) ← alloc a group
      ok (record a { invites = update_where (revocable group id now) (revoked now seq) a.invites }))

-- `RevokeInvite`
unfoldable pub revoke_invite : Accounts → String → String → ℕ → Result AccountError Accounts
unfolding revoke_found
revoke_invite a group id now =
    if str_eq group "" || (str_eq id "" || now == 0)
    then err invalid_params
    else elim (find? (invite_named group id) a.invites) [
      | none ↦ err not_found
      | some current ↦ revoke_found a group id now current
    ]
