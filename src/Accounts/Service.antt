-- ===== src/Accounts/Service.antt =====
-- The service over invites: Issue of server/internal/invite/invite.go and Redeem of
-- server/internal/invite/redeem.go. Tokens, ids, hashes and the trimming of texts come from outside,
-- and so does the time, in milliseconds. The password is the sequence of its bytes.
pub mod Issuing
use mathlib.Core.Path.{subst}
use household_objects_srv.Prelude.{
  ℕ, ◌+◌, ◌≤◌, ◌<◌, String, str_eq, eq_iff, ◌≡◌, refl, sym, ap, ◌∙◌, Bool, true, false, ◌&&◌, ◌||◌,
  not, inl, inr, arith, if◌then◌else◌, Bool-cases, Option-cases, Option, none, some, List, [], ◌∷◌,
  ◌++◌, Result, ok, err, map_err, ◌>>=◌, >>=-eq-ok, ok-injective, ◌==◌, ltb, length, find?,
  find?-append_miss,
}
use household_objects_srv.Push.Storage.{is_some}
use household_objects_srv.Accounts.{
  SameName, UserRow, InviteRow, Accounts, AccountError, not_redeemable, alloc,
}
use household_objects_srv.Accounts.Invites.{
  InviteParams, RedeemInviteParams, RedeemedInvite, invite_is, invite_redeemable, redeem_invite,
  valid_invite, new_invite, token_is, insert_invite, create_invite,
}
use household_objects_srv.Accounts.Redeemed.{alloc-invites}
use household_objects_srv.Accounts.Changes.{insert_invite-ok}

-- `strings.TrimSpace`, `len` of a text, a random token in base64, a UUID, SHA-256 in hexadecimal digits,
-- and Argon2 with its salt.
pub record ServiceOutside : Type 0 where
  pub trim_space : String → String
  pub byte_length : String → ℕ
  pub draw_token : Option String
  pub draw_id : Option String
  pub sha256_hex : String → String
  pub hash_password : List ℕ → Option String

-- `bearertoken.Hash`
abbrev pub hash_token : ServiceOutside → String → String
hash_token out token = out.sha256_hex token

pub data ServiceError : Type 0 where
  group_id_required created_by_user_id_required token_required : ServiceError
  username_invalid password_invalid no_token no_id no_hash : ServiceError
  in_storage : AccountError → ServiceError

pub record IssueRequest : Type 0 where
  pub group_id : String
  pub created_by_user_id : String

pub record Issued : Type 0 where
  pub id : String
  pub token : String
  pub expires_at : ℕ

pub record RedeemRequest : Type 0 where
  pub token : String
  pub username : String
  pub password : List ℕ

-- `DefaultTTL`, 24 hours.
abbrev pub default_ttl : ℕ
default_ttl = 86400000

abbrev or_else : {A : Type 0} → ServiceError → Option A → Result ServiceError A
or_else e none = err e
or_else e (some v) = ok v

abbrev offer : ServiceOutside → IssueRequest → ℕ → String → String → InviteParams
offer out req now token id = record {
  id = id;
  group_id = req.group_id;
  created_by_user_id = req.created_by_user_id;
  token_hash = hash_token out token;
  expires_at = now + default_ttl;
  now = now;
}

unfoldable pub issue :
    ServiceOutside → Accounts → IssueRequest → ℕ → Result ServiceError (Issued × Accounts)
issue out a req now =
    if str_eq req.group_id ""
    then err group_id_required
    else if str_eq req.created_by_user_id ""
    then err created_by_user_id_required
    else (do
      token ← or_else no_token out.draw_token
      id ← or_else no_id out.draw_id
      a' ← map_err in_storage (create_invite a (offer out req now token id))
      ok (record { id = id; token = token; expires_at = now + default_ttl }, a'))

-- The lengths of a text in bytes that are allowed.
abbrev within : ℕ → ℕ → ℕ → Bool
within low high n = not (ltb n low || ltb high n)

unfoldable pub redeem_checked :
    SameName
    → ServiceOutside
    → Accounts
    → String
    → String
    → List ℕ
    → ℕ
    → Result ServiceError (RedeemedInvite × Accounts)
redeem_checked same_name out a token username password now = do
  redeemable ← map_err in_storage (invite_redeemable a (hash_token out token) now)
  if redeemable
      then (do
        hash ← or_else no_hash (out.hash_password password)
        id ← or_else no_id out.draw_id
        map_err in_storage (
            redeem_invite same_name a (record {
              token_hash = hash_token out token;
              user_id = id;
              username = username;
              password_hash = hash;
              now = now;
            })))
      else err (in_storage not_redeemable)

unfoldable pub redeem :
    SameName
    → ServiceOutside
    → Accounts
    → RedeemRequest
    → ℕ
    → Result ServiceError (RedeemedInvite × Accounts)
unfolding redeem_checked
redeem same_name out a req now =
    if str_eq (out.trim_space req.token) ""
    then err token_required
    else if not (within 1 64 (out.byte_length (out.trim_space req.username)))
    then err username_invalid
    else if not (within 8 256 (length req.password))
    then err password_invalid
    else redeem_checked same_name out a (out.trim_space req.token) (out.trim_space req.username)
        req.password now
