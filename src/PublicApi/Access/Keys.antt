-- ===== src/PublicApi/Access/Keys.antt =====
-- API keys: `APIKeyInfo` of src/models/api_key.py, `validate_api_key` of src/services/database.py
-- and `AuthService` of src/services/auth.py.
use Prim.Native.String.{◌++◌}
use inherent.Prelude.{
  ℕ, zero, suc, String, Bool, false, ◌&&◌, not, Option, none, some, List, ltb, str_eq,
  if◌then◌else◌,
}
use text.Mathlib.Text.{starts_with}
use inherent.PublicApi.Access.Directory.{mem}

pub record ApiKeyInfo : Type 0 where
  pub key_id : String
  pub user_id : String
  pub workspace_id : Option String
  pub permissions : List String
  pub expires_at : Option ℕ
  pub status : String

unfoldable pub has_permission : String → ApiKeyInfo → Bool
has_permission permission key = mem permission key.permissions

unfoldable pub is_expired : ℕ → ApiKeyInfo → Bool
is_expired now key = elim key.expires_at [ none ↦ false | some at ↦ ltb at now ]

-- A value, an HTTP error with its status and detail, or another exception.
pub data Answer (A : Type 0) : Type 0 where
  ok : A → Answer A
  http_error : ℕ → String → Answer A
  raised : Answer A

module _ {A B : Type 0} where
  infixl 5 ◌>>=◌
  abbrev pub ◌>>=◌ : Answer A → (A → Answer B) → Answer B
  ok a >>= f = f a
  http_error status detail >>= f = http_error status detail
  raised >>= f = raised

-- `s[n:]`
unfoldable pub drop : ℕ → String → String
drop zero s = s
drop (suc n) String.[] = ""
drop (suc n) (String.◌∷◌ c s) = drop n s

-- Both places that take `Bearer ` off.
unfoldable pub without_bearer : String → String
without_bearer s = if starts_with s "Bearer " then drop 7 s else s

-- The rows of `api_keys` by the hash of the key, and the hash; `none` is a read that raised.
module _ (hash : String → String) (rows : String → Option (Option ApiKeyInfo)) (now : ℕ) where
  -- The row found, if it is active and has not expired.
  unfoldable pub accept_row : Option ApiKeyInfo → Option ApiKeyInfo
  accept_row none = none
  accept_row (some row) =
      if str_eq row.status "active" && not (is_expired now row) then some row else none

  -- `DatabaseService.validate_api_key`
  unfoldable pub lookup_key : String → Answer (Option ApiKeyInfo)
  lookup_key api_key =
      if starts_with api_key "ink_"
      then elim (rows (hash api_key)) [ none ↦ raised | some row ↦ ok (accept_row row) ]
      else ok none

  -- `AuthService.validate_api_key`
  unfoldable pub validate_api_key : String → Answer (Option ApiKeyInfo)
  validate_api_key api_key =
      if str_eq api_key "" then ok none else lookup_key (without_bearer api_key)

  unfoldable pub check_key : Option ApiKeyInfo → Answer ApiKeyInfo
  check_key none = http_error 401 "Invalid or expired API key"
  check_key (some key) = if is_expired now key then http_error 401 "API key has expired" else ok key

  -- `AuthService.require_api_key`, as the dependencies call it, without a permission
  unfoldable pub require_api_key : String → Answer ApiKeyInfo
  require_api_key api_key = validate_api_key api_key >>= check_key

  abbrev pub text_or : Option String → String
  text_or none = ""
  text_or (some s) = s

  -- The key that a request presents: X-API-Key, or else Authorization.
  unfoldable pub presented_key : Option String → Option String → String
  presented_key x_api_key authorization =
      if str_eq (text_or x_api_key) ""
      then without_bearer (text_or authorization)
      else text_or x_api_key

  unfoldable pub get_api_key_info : Option String → Option String → Answer ApiKeyInfo
  get_api_key_info x_api_key authorization =
      let api_key = presented_key x_api_key authorization in
      if str_eq api_key ""
      then http_error 401
          "API key required. Provide X-API-Key header or Authorization: Bearer <key>"
      else require_api_key api_key

-- `get_search_permission`, `get_read_permission` and `get_write_permission`
unfoldable pub require_permission : String → ApiKeyInfo → Answer ApiKeyInfo
require_permission permission key =
    if has_permission permission key
    then ok key
    else http_error 403 ("API key does not have '" ++ (permission ++ "' permission"))
