-- ===== src/Accounts/Spent.antt =====
-- What becomes of an invite that was redeemed: RedeemInvite of
-- server/internal/storage/invite_redeem.go among the other operations on accounts.
use mathlib.Core.Path.{subst}
use household_objects_srv.Prelude.{
  ℕ, ◌+◌, ◌≤◌, String, str_eq, eq_iff, ◌≡◌, refl, sym, ap, Bool, true, false, ◌&&◌, not, inl, inr,
  arith, Bool-cases, none, List, [], ◌∷◌, ok, err, Result-cases, ==_iff, select, length, find?,
  update_where, none-length-select, length-select-append, length-select-update_where,
  length-select_same, length-select_sub,
}
use household_objects_srv.Push.Types.{Store}
use household_objects_srv.Push.Storage.{is_some}
use household_objects_srv.Accounts.{SameName, UserRow, InviteRow, Accounts, AccountError}
use household_objects_srv.Accounts.Invites.{
  InviteParams, RedeemInviteParams, RedeemedInvite, open_invite, redeemed, redeem_invite, token_is,
  create_invite, revoke_invite,
}
use household_objects_srv.Accounts.Redeemed.{Redemption, redeem_invite-Redemption}
use household_objects_srv.Accounts.Changes.{
  InviteChange, kept, added, updated, create_invite-InviteChange, revoke_invite-InviteChange,
  redeem_invite-InviteChange,
}

-- The unique index on tokens.
abbrev pub UniqueTokens : List InviteRow → Type 0
UniqueTokens rows = (token : String) → length (select (token_is token) rows) ≤ 1

abbrev unspent : String → InviteRow → Bool
unspent token r = token_is token r && not (is_some r.redeemed_at)

-- There is an invite with the token, and it is redeemed.
pub record Spent (token : String) (rows : List InviteRow) : Type 0 where
  pub there : 1 ≤ length (select (token_is token) rows)
  pub none_left : length (select (unspent token) rows) ≡ 0

-- An operation without error. Other transactions may change users and all else, but no invite.
pub data Step (same_name : SameName) : Accounts → Accounts → Type 0 where
  invites : {a a' : Accounts} (p : InviteParams) → create_invite a p ≡ ok a' → Step same_name a a'
  redeems :
      {a a' : Accounts} (p : RedeemInviteParams) (r : RedeemedInvite)
      → redeem_invite same_name a p ≡ ok (r, a')
      → Step same_name a a'
  revokes :
      {a a' : Accounts} (group id : String) (now : ℕ)
      → revoke_invite a group id now ≡ ok a'
      → Step same_name a a'
  others :
      {a : Accounts} (s : Store) (users : List UserRow)
      → Step same_name a (record a { store = s; users = users })

pub data Steps (same_name : SameName) : Accounts → Accounts → Type 0 where
  done : {a : Accounts} → Steps same_name a a
  next : {a a₁ a' : Accounts} → Step same_name a a₁ → Steps same_name a₁ a' → Steps same_name a a'

Step-InviteChange :
    (same_name : SameName) (a a' : Accounts)
    → Step same_name a a'
    → InviteChange a.invites a'.invites
Step-InviteChange same_name a a' (invites p h) = create_invite-InviteChange a p a' h
Step-InviteChange same_name a a' (redeems p r h) = redeem_invite-InviteChange same_name a p r a' h
Step-InviteChange same_name a a' (revokes group id now h) =
    revoke_invite-InviteChange a group id now a' h
Step-InviteChange same_name a a' (others s users) = kept

other_token :
    (token : String) (new : InviteRow) (rows : List InviteRow)
    → 1 ≤ length (select (token_is token) rows)
    → find? (token_is new.token_hash) rows ≡ none
    → token_is token new ≡ false
other_token token new rows there free = elim (Bool-cases (token_is token new)) [
  | inl e ↦
      let same : new.token_hash ≡ token = ground (arith, eq_iff new.token_hash token, e) in
      let gone = none-length-select (token_is token) rows (rw same at free) in
      absurd (ground (arith, gone, there))
  | inr e ↦ e
]

InviteChange-Spent :
    (token : String) (rows rows' : List InviteRow)
    → InviteChange rows rows'
    → Spent token rows
    → Spent token rows'
InviteChange-Spent token rows rows' kept spent = spent
InviteChange-Spent token rows rows' (added new free) spent =
    let other = other_token token new rows spent.there free in
    let before = spent.there in
    let left = spent.none_left in
    record {
      there = rw (length-select-append (token_is token) rows new, other) (omega arith);
      none_left = rw (length-select-append (unspent token) rows new, other) (omega arith);
    }
InviteChange-Spent token rows rows' (updated q f keeps) spent = record {
  there =
      rw (length-select_same (token_is token) q f rows (λ r. ap (λ t. str_eq t token) (keeps r).0))
        spent.there;
  none_left =
      let fewer =
        length-select-update_where (unspent token) q f rows (λ r. unspent-before token f keeps r) in
      let left = spent.none_left in omega arith;
}
  where
    unspent-before :
        (token : String) (f : InviteRow → InviteRow)
        → ((r : InviteRow)
            → ((f r).token_hash ≡ r.token_hash)
              × (is_some r.redeemed_at ≡ true → is_some (f r).redeemed_at ≡ true))
        → (r : InviteRow) → unspent token (f r) ≡ true
        → unspent token r ≡ true
    unspent-before token f keeps r h =
        let (same, stays) = keeps r in
        elim (Bool-cases (is_some r.redeemed_at)) [
          | inl e ↦ absurd (ground (arith, stays e, h))
          | inr e ↦ ground (arith, e, h, ap (λ t. str_eq t token) same)
        ]

Steps-Spent :
    (same_name : SameName) (token : String) (a a' : Accounts)
    → Steps same_name a a'
    → Spent token a.invites
    → Spent token a'.invites
Steps-Spent same_name token a a' done spent = spent
Steps-Spent same_name token a a' (next {a₁ = a₁} step steps) spent =
    Steps-Spent same_name token a₁ a' steps
      (InviteChange-Spent token a.invites a₁.invites (Step-InviteChange same_name a a₁ step) spent)

-- Marking the open rows takes them from those that are not redeemed.
marked-unspent :
    (group : String) (p : RedeemInviteParams) (seq : ℕ) (rows : List InviteRow)
    → length (
          select
            (unspent p.token_hash)
            (update_where (open_invite group p.token_hash p.now) (redeemed p seq) rows))
        + length (select (open_invite group p.token_hash p.now) rows)
      ≤ length (select (token_is p.token_hash) rows)
marked-unspent group p seq [] = omega arith
marked-unspent group p seq (r ∷ rows) = elim (Bool-cases (open_invite group p.token_hash p.now r)) [
  | inl e ↦
      let mine : token_is p.token_hash r ≡ true = ground (arith, e) in
      let rest = marked-unspent group p seq rows in rw (e, mine) (omega arith)
  | inr e ↦ elim (Bool-cases (token_is p.token_hash r)) [
    | inl mine ↦
        let rest = marked-unspent group p seq rows in
        elim (Bool-cases (is_some r.redeemed_at)) [
          | inl spent ↦ rw (e, mine, spent) (omega arith)
          | inr fresh ↦ rw (e, mine, fresh) (omega arith)
        ]
    | inr other ↦ let rest = marked-unspent group p seq rows in rw (e, other) rest
  ]
]

Redemption-Spent :
    (a : Accounts) (p : RedeemInviteParams) (r : RedeemedInvite) (a' : Accounts)
    → UniqueTokens a.invites
    → Redemption a p r a'
    → Spent p.token_hash a'.invites
Redemption-Spent a p r a' unique made =
    let group = made.current.group_id in
    let one_open = (==_iff _ 1).0 made.one_open in
    let sub =
      length-select_sub (open_invite group p.token_hash p.now) (token_is p.token_hash) a.invites
        (λ r h. ground (arith, h)) in
    let at_most = unique p.token_hash in
    let sum = marked-unspent group p made.seq a.invites in
    subst (Spent p.token_hash) (sym made.marked) (record {
      there =
          rw
            (length-select_same (token_is p.token_hash) (open_invite group p.token_hash p.now)
              (redeemed p made.seq) a.invites (λ r. refl))
            (omega arith);
      none_left = omega arith;
    })

Spent-refused :
    (same_name : SameName) (a : Accounts) (p : RedeemInviteParams)
    → Spent p.token_hash a.invites
    → (e : AccountError) × (redeem_invite same_name a p ≡ err e)
Spent-refused same_name a p spent = elim (Result-cases (redeem_invite same_name a p)) [
  | inl ((r, a'), h) ↦
      let made = redeem_invite-Redemption same_name a p r a' h in
      let one_open = (==_iff _ 1).0 made.one_open in
      let sub =
        length-select_sub (open_invite made.current.group_id p.token_hash p.now)
          (unspent p.token_hash) a.invites (λ r k. ground (arith, k)) in
      let left = spent.none_left in absurd (omega arith)
  | inr refused ↦ refused
]

-- Where tokens are unique, once an invite is redeemed, every redemption with its token fails, whatever
-- operations on invites and other transactions come between.
pub redeem_invite-once :
    (same_name : SameName) (a : Accounts) (p : RedeemInviteParams) (r : RedeemedInvite)
    (a₁ a₂ : Accounts) (again : RedeemInviteParams)
    → UniqueTokens a.invites
    → redeem_invite same_name a p ≡ ok (r, a₁)
    → Steps same_name a₁ a₂
    → again.token_hash ≡ p.token_hash
    → (e : AccountError) × (redeem_invite same_name a₂ again ≡ err e)
redeem_invite-once same_name a p r a₁ a₂ again unique h steps token =
    let made = redeem_invite-Redemption same_name a p r a₁ h in
    let spent =
      Steps-Spent same_name p.token_hash a₁ a₂ steps (Redemption-Spent a p r a₁ unique made) in
    Spent-refused same_name a₂ again (subst (λ t. Spent t a₂.invites) (sym token) spent)
