-- ===== src/Accounts/Revoked.antt =====
-- RedeemInvite of server/internal/storage/invite_redeem.go after RevokeInvite of invites_admin.go.
use mathlib.Core.Path.{subst}
use household_objects_srv.Prelude.{
  ℕ, ◌≤◌, String, str_eq, eq_iff, ◌≡◌, refl, sym, true, false, ◌&&◌, ◌||◌, not, inl, inr, arith,
  Bool-cases, some, List, ok, err, Result-cases, >>=-eq-ok, ◌==◌, ==_iff, ltb, leb, select, length,
  find?, find?-true, find?-update_where, update_where, length-select_same, found-length-select_sub,
}
use household_objects_srv.Push.Storage.{is_some}
use household_objects_srv.Accounts.{SameName, InviteRow, Accounts, AccountError, alloc}
use household_objects_srv.Accounts.Invites.{
  RedeemInviteParams, open_invite, redeem_invite, token_is, invite_named, revocable, revoked,
  revoke_found, revoke_invite,
}
use household_objects_srv.Accounts.Redeemed.{alloc-invites, redeem_invite-Redemption}
use household_objects_srv.Accounts.Spent.{UniqueTokens}

-- The invite is there with its token, redeemed or past its time.
pub record Ended (group id token : String) (now : ℕ) (rows : List InviteRow) : Type 0 where
  pub row : InviteRow
  pub found : find? (invite_named group id) rows ≡ some row
  pub token_same : row.token_hash ≡ token
  pub ended : (not (is_some row.redeemed_at) && ltb now row.expires_at) ≡ false
  pub alone : length (select (token_is token) rows) ≤ 1

Ended-refused :
    (same_name : SameName) (a : Accounts) (group id : String) (now : ℕ) (p : RedeemInviteParams)
    → Ended group id p.token_hash now a.invites
    → now ≤ p.now
    → (e : AccountError) × (redeem_invite same_name a p ≡ err e)
Ended-refused same_name a group id now p h later =
    elim (Result-cases (redeem_invite same_name a p)) [
      | inl ((r, a'), run) ↦
          let made = redeem_invite-Redemption same_name a p r a' run in
          let one_open = (==_iff _ 1).0 made.one_open in
          let mine : token_is p.token_hash h.row ≡ true =
            ground (arith, h.token_same, eq_iff h.row.token_hash p.token_hash) in
          let fewer =
            found-length-select_sub (invite_named group id)
              (open_invite made.current.group_id p.token_hash p.now) (token_is p.token_hash)
              a.invites h.row (λ r k. ground (arith, k)) h.found mine
              (closed made.current.group_id p.token_hash now p.now h.row h.ended later) in
          let alone = h.alone in absurd (omega arith)
      | inr refused ↦ refused
    ]
  where
    closed :
        (g token : String) (now later : ℕ) (row : InviteRow)
        → (not (is_some row.redeemed_at) && ltb now row.expires_at) ≡ false
        → now ≤ later
        → open_invite g token later row ≡ false
    closed g token now later row ended le = ground (arith, ended, le)

revoke_found-Ended :
    (a : Accounts) (group id : String) (now : ℕ) (row : InviteRow) (a' : Accounts)
    → UniqueTokens a.invites
    → find? (invite_named group id) a.invites ≡ some row
    → revoke_found a group id now row ≡ ok a'
    → Ended group id row.token_hash now a'.invites
unfolding revoke_found
revoke_found-Ended a group id now row a' unique found h =
    elim (Bool-cases (not (is_some row.redeemed_at) && ltb now row.expires_at)) [
      | inl open_still ↦
          let fresh : is_some row.redeemed_at ≡ false = ground (arith, open_still) in
          let ahead : leb row.expires_at now ≡ false = ground (arith, open_still) in
          let ((seq, a₁), allocated, rest) =
            >>=-eq-ok (alloc a group) _ (rw (fresh, ahead, revoke_found) at h) in
          let same : record a₁ {
            invites = update_where (revocable group id now) (revoked now seq) a₁.invites;
          }
              ≡ a' =
            ground (arith, rest) in
          let invites = (alloc-invites a group seq a₁ allocated).0 in
          subst (λ (x : Accounts). Ended group id row.token_hash now x.invites) same
            (subst
              (λ rows.
                Ended group id row.token_hash now
                  (update_where (revocable group id now) (revoked now seq) rows))
              (sym invites) (after seq open_still))
      | inr past ↦
          let same : a ≡ a' = stays past in
          subst (λ (x : Accounts). Ended group id row.token_hash now x.invites) same
            (record {
              row = row;
              found = found;
              token_same = refl;
              ended = past;
              alone = unique row.token_hash;
            })
    ]
  where
    stays : (not (is_some row.redeemed_at) && ltb now row.expires_at) ≡ false → a ≡ a'
    stays past = elim (Bool-cases (is_some row.redeemed_at)) [
      | inl spent ↦ ground (arith, rw (spent, revoke_found) at h)
      | inr fresh ↦
          let late : leb row.expires_at now ≡ true = ground (arith, past, fresh) in
          ground (arith, rw (fresh, late, revoke_found) at h)
    ]

    after :
        (seq : ℕ)
        → (not (is_some row.redeemed_at) && ltb now row.expires_at) ≡ true
        → Ended group id row.token_hash now
            (update_where (revocable group id now) (revoked now seq) a.invites)
    after seq open_still =
        let named = find?-true (invite_named group id) a.invites row found in
        let count =
          length-select_same (token_is row.token_hash) (revocable group id now) (revoked now seq)
            a.invites (λ r. refl) in
        let at_most = unique row.token_hash in
        record {
          row = revoked now seq row;
          found =
              find?-update_where (invite_named group id) (revocable group id now) (revoked now seq)
                a.invites row (λ r k. ground (arith, k)) found (ground (arith, named, open_still))
                named;
          token_same = refl;
          ended = ground arith;
          alone = rw count at_most;
        }

-- Where tokens are unique, an invite that was revoked without error can be redeemed neither at that time
-- nor later.
pub revoke_invite-ends :
    (same_name : SameName) (a : Accounts) (group id : String) (now : ℕ) (row : InviteRow)
    (a' : Accounts) (p : RedeemInviteParams)
    → UniqueTokens a.invites
    → find? (invite_named group id) a.invites ≡ some row
    → revoke_invite a group id now ≡ ok a'
    → p.token_hash ≡ row.token_hash
    → now ≤ p.now
    → (e : AccountError) × (redeem_invite same_name a' p ≡ err e)
unfolding revoke_invite
revoke_invite-ends same_name a group id now row a' p unique found h token later =
    elim (Bool-cases (str_eq group "" || (str_eq id "" || now == 0))) [
      | inl e ↦ absurd (ground (arith, rw (e, revoke_invite) at h))
      | inr e ↦
          Ended-refused same_name a' group id now p
            (subst (λ t. Ended group id t now a'.invites) (sym token)
              (revoke_found-Ended a group id now row a' unique found
                (rw (e, found, revoke_invite) at h)))
            later
    ]
