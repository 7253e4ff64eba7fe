-- ===== src/Accounts/Redeemable.antt =====
-- RedeemInvite after InviteRedeemable: server/internal/storage/invite_redeem.go.
use household_objects_srv.Prelude.{
  str_eq, eq_iff, ◌≡◌, true, false, ◌&&◌, ◌||◌, not, inl, inr, arith, Bool-cases, Option-cases,
  none, some, ok, Result-cases, ◌==◌, ==_iff, ltb, select, length, find?, find?-true,
  length-select_sub, found-length-select, found-All, All,
}
use household_objects_srv.Push.Types.{GroupRow}
use household_objects_srv.Push.Storage.{is_some, group_is, alloc_change_seq}
use household_objects_srv.Accounts.{
  SameName, InviteRow, Accounts, alloc, insert_user, name_taken, user_exists,
}
use household_objects_srv.Accounts.Invites.{
  RedeemInviteParams, RedeemedInvite, invite_is, open_invite, invite_redeemable, valid_redemption,
  mark_redeemed, redeem_found, redeem_invite, token_is,
}
use household_objects_srv.Accounts.Redeemed.{Redemption, redeem_invite-Redemption}
use household_objects_srv.Accounts.Spent.{UniqueTokens}

-- The foreign key of invites to households.
abbrev pub Housed : Accounts → Type 0
Housed a =
    All (λ (r : InviteRow). is_some (find? (group_is r.group_id) a.store.groups) ≡ true) a.invites

-- A redemption that succeeds, and what it does.
pub record Succeeds (same_name : SameName) (a : Accounts) (p : RedeemInviteParams) : Type 0 where
  pub result : RedeemedInvite
  pub after : Accounts
  pub run : redeem_invite same_name a p ≡ ok (result, after)
  pub redemption : Redemption a p result after

invite_redeemable-open :
    (a : Accounts) (p : RedeemInviteParams) (current : InviteRow)
    → find? (invite_is p.token_hash) a.invites ≡ some current
    → invite_redeemable a p.token_hash p.now ≡ ok true
    → open_invite current.group_id p.token_hash p.now current ≡ true
unfolding invite_redeemable
invite_redeemable-open a p current found h =
    elim (Bool-cases (str_eq p.token_hash "" || p.now == 0)) [
      | inl e ↦ absurd (ground (arith, rw (e, invite_redeemable) at h))
      | inr e ↦
          let fresh : (not (is_some current.redeemed_at) && ltb p.now current.expires_at) ≡ true =
            ground (arith, rw (e, found, invite_redeemable) at h) in
          let mine = find?-true (invite_is p.token_hash) a.invites current found in
          ground (arith, fresh, mine, eq_iff current.group_id current.group_id)
    ]

one_open :
    (a : Accounts) (p : RedeemInviteParams) (current : InviteRow)
    → UniqueTokens a.invites
    → find? (invite_is p.token_hash) a.invites ≡ some current
    → open_invite current.group_id p.token_hash p.now current ≡ true
    → (length (select (open_invite current.group_id p.token_hash p.now) a.invites) == 1) ≡ true
one_open a p current unique found mine =
    let some_open =
      found-length-select (invite_is p.token_hash) (open_invite current.group_id p.token_hash p.now)
        a.invites current found mine in
    let sub =
      length-select_sub (open_invite current.group_id p.token_hash p.now) (token_is p.token_hash)
        a.invites (λ r h. ground (arith, h)) in
    let at_most = unique p.token_hash in (==_iff _ 1).1 (omega arith)

not_there :
    (a : Accounts) (p : RedeemInviteParams)
    → find? (invite_is p.token_hash) a.invites ≡ none
    → invite_redeemable a p.token_hash p.now ≡ ok true
    → ⊥
unfolding invite_redeemable
not_there a p gone h = elim (Bool-cases (str_eq p.token_hash "" || p.now == 0)) [
  | inl e ↦ ground (arith, rw (e, invite_redeemable) at h)
  | inr e ↦ ground (arith, rw (e, gone, invite_redeemable) at h)
]

redeem_run :
    (same_name : SameName) (a : Accounts) (p : RedeemInviteParams) (current : InviteRow)
    (g : GroupRow)
    → valid_redemption p ≡ true
    → find? (invite_is p.token_hash) a.invites ≡ some current
    → find? (group_is current.group_id) a.store.groups ≡ some g
    → user_exists a p.user_id ≡ false
    → name_taken same_name a p.username ≡ false
    → (length (select (open_invite current.group_id p.token_hash p.now) a.invites) == 1) ≡ true
    → (result : RedeemedInvite) × (after : Accounts) × (redeem_invite same_name a p
        ≡ ok (result, after))
unfolding redeem_invite redeem_found alloc alloc_change_seq insert_user mark_redeemed
redeem_run same_name a p current g valid found home fresh free open_one =
    elim (Result-cases (redeem_invite same_name a p)) [
      | inl ((result, after), h) ↦ (result, after, h)
      | inr (e, h) ↦ absurd (
          ground (
            arith,
            rw
                (
                  valid, found, home, fresh, free, open_one, redeem_invite, redeem_found, alloc,
                  alloc_change_seq, insert_user, mark_redeemed,
                )
                at h,
          ))
    ]

-- Where tokens are unique and the households of invites exist, an invite that InviteRedeemable answers
-- yes for can be redeemed at that time, by parameters that pass the checks and with a user id and a user
-- name that are not taken: the invite is marked, and its household gets one more member.
pub redeem_invite-Succeeds :
    (same_name : SameName) (a : Accounts) (p : RedeemInviteParams)
    → UniqueTokens a.invites
    → Housed a
    → valid_redemption p ≡ true
    → user_exists a p.user_id ≡ false
    → name_taken same_name a p.username ≡ false
    → invite_redeemable a p.token_hash p.now ≡ ok true
    → Succeeds same_name a p
redeem_invite-Succeeds same_name a p unique housed valid fresh free redeemable =
    elim (Option-cases (find? (invite_is p.token_hash) a.invites)) [
      | inl gone ↦ absurd (not_there a p gone redeemable)
      | inr (current, found) ↦
          elim (Option-cases (find? (group_is current.group_id) a.store.groups)) [
            | inl lost ↦
                let home =
                  found-All
                    (λ (r : InviteRow). is_some (find? (group_is r.group_id) a.store.groups) ≡ true)
                    (invite_is p.token_hash) a.invites current found housed in
                absurd (ground (arith, rw lost at home))
            | inr (g, home) ↦
                let mine = invite_redeemable-open a p current found redeemable in
                let (result, after, run) =
                  redeem_run same_name a p current g valid found home fresh free
                    (one_open a p current unique found mine) in
                record {
                  result = result;
                  after = after;
                  run = run;
                  redemption = redeem_invite-Redemption same_name a p result after run;
                }
          ]
    ]
