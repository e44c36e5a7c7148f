-- ===== src/Fiberutil.antt =====
-- fiber/user.go and fiber/params.go: what a handler reads of its request. The zero UUID and
-- `uuid.Parse` are parameters.
pub mod Laws
pub mod Parsing
use Prim.Native.String.{◌++◌}
use aeternixth_go_lib.Prelude.{String, ◌⊎◌, inl, inr, Option, none, some, str_eq, if◌then◌else◌}
use aeternixth_go_lib.Errors.{
  AppError, GoError, app, new_unauthorized, new_internal_server_error, new_bad_request,
}
use aeternixth_go_lib.Middleware.Jwt.{UserInfo, Local, unset, user, foreign}
use aeternixth_go_lib.Web.{Panic, error}

module _ {Any Uuid : Type 0} where
  unfoldable pub get_user : Local Uuid → UserInfo Uuid ⊎ AppError Any
  get_user unset = inr (new_unauthorized "User not authenticated")
  get_user foreign = inr (new_internal_server_error "Invalid user context")
  get_user (user info) = inl info

  -- `MustGetUser`: the value, or what it panics with
  unfoldable pub must_get_user : Local Uuid → UserInfo Uuid ⊎ Panic Any
  unfolding get_user
  must_get_user local = elim (get_user local) [
    | inl info ↦ inl info
    | inr err ↦ inr (error (app err))
  ]

  -- `MustGetUserID`
  unfoldable pub must_get_user_id : Local Uuid → Uuid ⊎ Panic Any
  unfolding must_get_user
  must_get_user_id local = elim (must_get_user local) [
    | inl info ↦ inl info.user_id
    | inr panic ↦ inr panic
  ]

module _ (Any : Type 0) {Uuid : Type 0} where
  abbrev or_empty : {A : Type 0} → A → (UserInfo Uuid → A) → UserInfo Uuid ⊎ AppError Any → A
  or_empty empty field (inl info) = field info
  or_empty empty field (inr err) = empty

  unfoldable pub get_user_id : Uuid → Local Uuid → Uuid
  unfolding get_user
  get_user_id nil local = or_empty nil (λ info. info.user_id) (get_user {Any = Any} local)

  unfoldable pub get_username : Local Uuid → String
  unfolding get_user
  get_username local = or_empty "" (λ info. info.username) (get_user {Any = Any} local)

  unfoldable pub get_user_role : Local Uuid → String
  unfolding get_user
  get_user_role local = or_empty "" (λ info. info.role) (get_user {Any = Any} local)

module _ {Any : Type 0} where
  -- `GetParamsStringID`, on what `c.Params(key)` gives
  unfoldable pub get_params_string_id : String → String → String ⊎ AppError Any
  get_params_string_id key param =
      if str_eq param "" then inr (new_bad_request (key ++ " parameter is required")) else inl param

  -- `GetParamsUUID`
  unfoldable pub get_params_uuid :
      {Uuid : Type 0} → (String → Option Uuid) → String → String → Uuid ⊎ AppError Any
  get_params_uuid parse_uuid key param =
      if str_eq param ""
      then inr (new_bad_request (key ++ " parameter is required"))
      else elim (parse_uuid param) [
        | none ↦ inr (new_bad_request (key ++ " parameter is not a valid UUID"))
        | some id ↦ inl id
      ]
