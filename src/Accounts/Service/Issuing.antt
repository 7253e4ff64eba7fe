-- ===== src/Accounts/Service/Issuing.antt =====
-- InviteRedeemable of server/internal/storage/invite_redeem.go after Issue of
-- server/internal/invite/invite.go.
use mathlib.Core.Path.{subst}
use household_objects_srv.Prelude.{
  ℕ, ◌+◌, ◌≤◌, ◌<◌, String, str_eq, eq_iff, ◌≡◌, refl, ap, ◌∙◌, true, false, ◌||◌, inl, inr, arith,
  Bool-cases, none, some, List, [], ◌∷◌, ◌++◌, Result, ok, map_err, >>=-eq-ok, ok-injective, ◌==◌,
  ltb, find?,
}
use household_objects_srv.Accounts.{InviteRow, Accounts, AccountError, alloc}
use household_objects_srv.Accounts.Invites.{
  InviteParams, invite_is, invite_redeemable, valid_invite, new_invite, token_is, create_invite,
}
use household_objects_srv.Accounts.Redeemed.{alloc-invites}
use household_objects_srv.Accounts.Changes.{insert_invite-ok}
use household_objects_srv.Accounts.Service.{
  ServiceOutside, IssueRequest, Issued, in_storage, no_token, no_id, or_else, hash_token, offer,
  issue,
}

-- The row of a created invite, and that no other has its token.
create_invite-appends :
    (a : Accounts) (p : InviteParams) (a' : Accounts)
    → create_invite a p ≡ ok a'
    → (valid_invite p ≡ true)
      × (seq : ℕ) × (find? (token_is p.token_hash) a.invites ≡ none)
      × (a'.invites ≡ a.invites ++ new_invite p seq ∷ [])
unfolding create_invite
create_invite-appends a p a' h = elim (Bool-cases (valid_invite p)) [
  | inl v ↦
      let ((seq, a₁), allocated, rest) =
        >>=-eq-ok (alloc a p.group_id) _ (rw (v, create_invite) at h) in
      let same = (alloc-invites a p.group_id seq a₁ allocated).0 in
      let (free, written) = insert_invite-ok a₁ (new_invite p seq) a' rest in
      (
        v,
        seq,
        rw same at free,
        ap (λ (x : Accounts). x.invites) written ∙ ap (λ rows. rows ++ new_invite p seq ∷ []) same,
      )
  | inr v ↦ absurd (ground (arith, rw (v, create_invite) at h))
]

found-new :
    (token : String) (rows : List InviteRow) (new : InviteRow)
    → find? (token_is token) rows ≡ none
    → invite_is token new ≡ true
    → find? (invite_is token) (rows ++ new ∷ []) ≡ some new
found-new token [] new free mine = rw mine refl
found-new token (r ∷ rows) new free mine = elim (Bool-cases (token_is token r)) [
  | inl e ↦ absurd (ground (arith, rw e at free))
  | inr e ↦ rw e (found-new token rows new (rw e at free) mine)
]

map_err-ok :
    {A : Type 0} {m : Result AccountError A} {v : A} → map_err in_storage m ≡ ok v → m ≡ ok v
map_err-ok {m = m} h = ground (arith, h)

create_invite-redeemable :
    (a : Accounts) (p : InviteParams) (a' : Accounts) (later : ℕ)
    → create_invite a p ≡ ok a'
    → p.now ≤ later
    → later < p.expires_at
    → invite_redeemable a' p.token_hash later ≡ ok true
unfolding invite_redeemable
create_invite-redeemable a p a' later h past ahead =
    let (valid, seq, free, written) = create_invite-appends a p a' h in
    let found =
      found-new p.token_hash a.invites (new_invite p seq) free
        (ground (arith, eq_iff p.token_hash p.token_hash)) in
    let asked : (str_eq p.token_hash "" || later == 0) ≡ false = ground (arith, valid, past) in
    let open_still : ltb later p.expires_at ≡ true = ground (arith, ahead) in
    rw (asked, written, found, open_still, invite_redeemable) refl

-- An invite that was issued without error is redeemable by its token for 24 hours.
pub issue-redeemable :
    (out : ServiceOutside) (a : Accounts) (req : IssueRequest) (now : ℕ) (issued : Issued)
    (a' : Accounts) (later : ℕ)
    → issue out a req now ≡ ok (issued, a')
    → now ≤ later
    → later < now + 86400000
    → invite_redeemable a' (hash_token out issued.token) later ≡ ok true
unfolding issue
issue-redeemable out a req now issued a' later h past ahead =
    elim (Bool-cases (str_eq req.group_id "")) [
      | inl e ↦ absurd (ground (arith, rw (e, issue) at h))
      | inr e ↦ elim (Bool-cases (str_eq req.created_by_user_id "")) [
        | inl f ↦ absurd (ground (arith, rw (e, f, issue) at h))
        | inr f ↦
            let (token, drawn, rest) =
              >>=-eq-ok (or_else no_token out.draw_token) _ (rw (e, f, issue) at h) in
            let (id, minted, rest₁) = >>=-eq-ok (or_else no_id out.draw_id) _ rest in
            let (a₁, created, last) =
              >>=-eq-ok (map_err in_storage (create_invite a (offer out req now token id))) _
                rest₁ in
            let same = ok-injective last in
            subst
              (λ (x : Accounts). invite_redeemable x (hash_token out issued.token) later ≡ ok true)
              same.1
              (subst (λ (i : Issued). invite_redeemable a₁ (hash_token out i.token) later ≡ ok true)
                same.0
                (create_invite-redeemable a (offer out req now token id) a₁ later
                  (map_err-ok created) past ahead))
      ]
    ]
