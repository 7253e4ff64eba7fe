-- ===== src/Accounts/Tests.antt =====
-- An invite to a household of one user: the theorems on invites at concrete operations.
use household_objects_srv.Prelude.{
  ℕ, str_eq, ◌≡◌, refl, true, none, some, [], ◌∷◌, arith, inl, inr, Bool-cases, ok, err,
}
use household_objects_srv.Push.Types.{Store}
use household_objects_srv.Push.Storage.{alloc_change_seq}
use household_objects_srv.Accounts.{
  InviteRow, Accounts, AccountError, FirstUserParams, registration_closed, alloc, new_user,
  insert_user, create_group_if_none, register_first_user,
}
use household_objects_srv.Accounts.Invites.{
  InviteParams, RedeemInviteParams, RedeemedInvite, invite_redeemable, mark_redeemed, redeem_found,
  redeem_invite, token_is, insert_invite, create_invite, revoked, revoke_found, revoke_invite,
}
use household_objects_srv.Accounts.Spent.{UniqueTokens, done, redeem_invite-once}
use household_objects_srv.Accounts.Redeemable.{Succeeds, redeem_invite-Succeeds}
use household_objects_srv.Accounts.Revoked.{revoke_invite-ends}
use household_objects_srv.Accounts.Service.{ServiceOutside, Issued, password_invalid, issue, redeem}
use household_objects_srv.Accounts.Service.Issuing.{issue-redeemable}

abbrev empty_store : Store
empty_store = record {
  groups = [];
  locations = [];
  items = [];
  labels = [];
  item_labels = [];
  stock_adjustments = [];
  warranties = [];
  sales = [];
  purchases = [];
  identifications = [];
  custom_fields = [];
  custom_field_defs = [];
  mutations = [];
  field_versions = [];
  conflicts = [];
}

abbrev alice : FirstUserParams
alice = record {
  group_id = "g";
  group_name = "Home";
  user_id = "u";
  username = "alice";
  password_hash = "hash";
  now = 10;
}

abbrev counted : ℕ → Store
counted n = record empty_store {
  groups = record { id = "g"; change_seq_counter = n; deleted_at = none } ∷ [];
}

abbrev owned : Accounts
owned = record {
  store = counted 1;
  users = new_user "u" "g" "alice" "hash" "owner" 10 1 ∷ [];
  invites = [];
}

registers :
    register_first_user str_eq (record { store = empty_store; users = []; invites = [] }) alice
    ≡ ok owned
unfolding register_first_user create_group_if_none alloc alloc_change_seq insert_user
registers = refl

registers_once :
    register_first_user str_eq owned (record alice { group_id = "h" }) ≡ err registration_closed
unfolding register_first_user create_group_if_none
registers_once = refl

abbrev proposal : InviteParams
proposal = record {
  id = "v";
  group_id = "g";
  created_by_user_id = "u";
  token_hash = "t";
  expires_at = 100;
  now = 20;
}

abbrev offered : InviteRow
offered = record {
  id = "v";
  group_id = "g";
  token_hash = "t";
  created_by_user_id = "u";
  expires_at = 100;
  redeemed_at = none;
  redeemed_by_user_id = none;
  created_at = 20;
  updated_at = 20;
  version = 1;
  deleted_at = none;
  change_seq = 2;
}

abbrev inviting : Accounts
inviting = record owned { store = counted 2; invites = offered ∷ [] }

offers : create_invite owned proposal ≡ ok inviting
unfolding create_invite alloc alloc_change_seq insert_invite
offers = refl

abbrev bob : RedeemInviteParams
bob = record { token_hash = "t"; user_id = "w"; username = "bob"; password_hash = "hash"; now = 30 }

abbrev joined : Accounts
joined = record {
  store = counted 3;
  users =
      new_user "u" "g" "alice" "hash" "owner" 10 1
      ∷ new_user "w" "g" "bob" "hash" "member" 30 3
      ∷ [];
  invites =
      record offered {
        redeemed_at = some 30;
        redeemed_by_user_id = some "w";
        updated_at = 30;
        version = 2;
        change_seq = 3;
      }
      ∷ [];
}

abbrev answer : RedeemedInvite
answer = record { group_id = "g"; user_id = "w"; username = "bob" }

redeems : redeem_invite str_eq inviting bob ≡ ok (answer, joined)
unfolding redeem_invite redeem_found alloc alloc_change_seq insert_user mark_redeemed
redeems = refl

one_token : UniqueTokens (offered ∷ [])
one_token token = elim (Bool-cases (token_is token offered)) [
  | inl e ↦ rw e (omega arith)
  | inr e ↦ rw e (omega arith)
]

redeem_invite-once_example :
    (e : AccountError) × (redeem_invite str_eq joined
        (record bob { user_id = "x"; username = "eve" })
      ≡ err e)
redeem_invite-once_example =
    redeem_invite-once str_eq inviting bob answer joined joined
      (record bob { user_id = "x"; username = "eve" }) one_token redeems done refl

redeem_invite-Succeeds_example : Succeeds str_eq inviting bob
unfolding invite_redeemable
redeem_invite-Succeeds_example =
    redeem_invite-Succeeds str_eq inviting bob one_token (refl, tt) refl refl refl refl

abbrev withdrawn : Accounts
withdrawn = record inviting { store = counted 3; invites = revoked 25 3 offered ∷ [] }

revokes : revoke_invite inviting "g" "v" 25 ≡ ok withdrawn
unfolding revoke_invite revoke_found alloc alloc_change_seq
revokes = refl

revoke_invite-ends_example : (e : AccountError) × (redeem_invite str_eq withdrawn bob ≡ err e)
revoke_invite-ends_example =
    revoke_invite-ends str_eq inviting "g" "v" 25 offered withdrawn bob one_token refl revokes refl
      (omega arith)

abbrev services : ServiceOutside
services = record {
  trim_space = λ s. s;
  byte_length = λ s. 3;
  draw_token = some "t";
  draw_id = some "v";
  sha256_hex = λ s. s;
  hash_password = λ p. some "hash";
}

abbrev issued : Issued
issued = record { id = "v"; token = "t"; expires_at = 86400020 }

abbrev issued_accounts : Accounts
issued_accounts = record inviting { invites = record offered { expires_at = 86400020 } ∷ [] }

issues :
    issue services owned (record { group_id = "g"; created_by_user_id = "u" }) 20
    ≡ ok (issued, issued_accounts)
unfolding issue create_invite alloc alloc_change_seq insert_invite
issues = refl

issue-redeemable_example : invite_redeemable issued_accounts "t" 3600020 ≡ ok true
issue-redeemable_example =
    issue-redeemable services owned (record { group_id = "g"; created_by_user_id = "u" }) 20 issued
      issued_accounts 3600020 issues (omega arith) (omega arith)

-- A password of three bytes is refused.
short_password :
    redeem str_eq services inviting
      (record { token = "t"; username = "bob"; password = 1 ∷ 2 ∷ 3 ∷ [] })
      30
    ≡ err password_invalid
unfolding redeem
short_password = refl
