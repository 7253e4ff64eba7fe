-- ===== src/Accounts.antt =====
-- The rows of `users` and `invites`, and RegisterFirstUser of server/internal/storage/register.go.
pub mod Invites
pub mod Redeemed
pub mod Changes
pub mod Spent
pub mod Redeemable
pub mod Revoked
pub mod Service
pub mod Tests
use household_objects_srv.Prelude.{
  ℕ, ◌+◌, String, str_eq, true, false, Bool, ◌&&◌, ◌||◌, not, Option, none, some, List, [], ◌∷◌,
  ◌++◌, if◌then◌else◌, Result, ok, err, ◌>>=◌, ◌>>◌, map_err, ◌==◌, ltb, leb, select, length, find?,
  update_where,
}
use household_objects_srv.Push.Types.{GroupRow, Store, PushError}
use household_objects_srv.Push.Storage.{is_some, alloc_change_seq}

pub record UserRow : Type 0 where
  pub id : String
  pub group_id : String
  pub username : String
  pub password_hash : String
  pub role : String
  pub created_at : ℕ
  pub updated_at : ℕ
  pub version : ℕ
  pub deleted_at : Option ℕ
  pub change_seq : ℕ

pub record InviteRow : Type 0 where
  pub id : String
  pub group_id : String
  pub token_hash : String
  pub created_by_user_id : String
  pub expires_at : ℕ
  pub redeemed_at : Option ℕ
  pub redeemed_by_user_id : Option String
  pub created_at : ℕ
  pub updated_at : ℕ
  pub version : ℕ
  pub deleted_at : Option ℕ
  pub change_seq : ℕ

-- The database, with the tables of the accounts beside those of the store.
pub record Accounts : Type 0 where
  pub store : Store
  pub users : List UserRow
  pub invites : List InviteRow

pub data AccountError : Type 0 where
  invalid_params registration_closed not_found not_redeemable username_taken : AccountError
  constraint_failed : AccountError
  in_store : PushError → AccountError

pub record FirstUserParams : Type 0 where
  pub group_id : String
  pub group_name : String
  pub user_id : String
  pub username : String
  pub password_hash : String
  pub now : ℕ

-- `roles.Owner` and `roles.Member`
abbrev owner : String
owner = "owner"

abbrev pub member : String
member = "member"

unfoldable pub alloc : Accounts → String → Result AccountError (ℕ × Accounts)
alloc a group = do
  (seq, s) ← map_err in_store (alloc_change_seq a.store group)
  ok (seq, record a { store = s })

abbrev pub new_user : String → String → String → String → String → ℕ → ℕ → UserRow
new_user id group username password_hash role now seq = record {
  id = id;
  group_id = group;
  username = username;
  password_hash = password_hash;
  role = role;
  created_at = now;
  updated_at = now;
  version = 1;
  deleted_at = none;
  change_seq = seq;
}

-- The comparison of user names, which is the collation NOCASE of the database.
abbrev pub SameName : Type 0
SameName = String → String → Bool

abbrev pub name_taken : SameName → Accounts → String → Bool
name_taken same_name a name = is_some (find? (λ (u : UserRow). same_name u.username name) a.users)

abbrev pub user_exists : Accounts → String → Bool
user_exists a id = is_some (find? (λ (u : UserRow). str_eq u.id id) a.users)

-- The INSERT of `CreateUser`. The household is there, since its counter was just advanced. The error of the unique index on names is told apart.
unfoldable pub insert_user : SameName → Accounts → UserRow → Result AccountError Accounts
insert_user same_name a row =
    if user_exists a row.id
    then err constraint_failed
    else if name_taken same_name a row.username
    then err username_taken
    else ok (record a { users = a.users ++ row ∷ [] })

abbrev valid_first_user : FirstUserParams → Bool
valid_first_user p =
    not (str_eq p.group_id "")
    && (not (str_eq p.group_name "")
        && (not (str_eq p.user_id "")
            && (not (str_eq p.username "")
                && (not (str_eq p.password_hash "") && not (p.now == 0)))))

-- `CreateGroupIfNone`; the columns of a household that no code here reads are left out.
unfoldable pub create_group_if_none : Accounts → String → Result AccountError Accounts
create_group_if_none a id = elim a.store.groups [
  | [] ↦ ok (record a {
    store = record a.store {
      groups = record { id = id; change_seq_counter = 0; deleted_at = none } ∷ [];
    };
  })
  | g ∷ groups ↦ err registration_closed
]

-- A second account cannot have the name here, so the errors of the INSERT are not told apart.
unfoldable pub register_first_user :
    SameName → Accounts → FirstUserParams → Result AccountError Accounts
unfolding create_group_if_none insert_user alloc
register_first_user same_name a p =
    if valid_first_user p
    then (do
      a ← create_group_if_none a p.group_id
      (seq, a) ← alloc a p.group_id
      map_err (λ e. constraint_failed)
          (insert_user same_name a
            (new_user p.user_id p.group_id p.username p.password_hash owner p.now seq)))
    else err invalid_params
