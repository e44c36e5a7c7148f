-- ===== src/Fiberutil/Laws.antt =====
-- The readers of fiber/user.go in handlers behind the middlewares of middleware/jwt_middleware.go.
use aeternixth_go_lib.Prelude.{String, Option, none, ◌≡◌, refl, ap, inl, inr}
use aeternixth_go_lib.Errors.{AppError}
use aeternixth_go_lib.Jwt.{Library}
use aeternixth_go_lib.Middleware.Jwt.{
  Claims, UserInfo, Local, unset, user, foreign, Next, jwt_middleware,
}
use aeternixth_go_lib.Web.{Request, Reply, Exit, returned}
use aeternixth_go_lib.Fiberutil.{get_user}

-- A handler that depends on the user alone.
abbrev on_user : {Any Uuid : Type 0} → (UserInfo Uuid → Exit Any) → Next Any Uuid
on_user k unset r = returned none r
on_user k foreign r = returned none r
on_user k (user u) r = k u

module _ {Any Uuid : Type 0} (lib : Library Claims) (secret : String)
    (parse_uuid : String → Option Uuid) (req : Request) (reply : Reply Any)
    (local : Local Uuid) where
  -- What the required middleware does with two handlers that agree on users.
  same_next :
      (f g : Next Any Uuid)
      → ((u : UserInfo Uuid) → f (user u) reply ≡ g (user u) reply)
      → jwt_middleware lib secret parse_uuid req f local reply
        ≡ jwt_middleware lib secret parse_uuid req g local reply
  unfolding jwt_middleware
  same_next f g h =
      ap (λ k. jwt_middleware lib secret parse_uuid req (on_user k) local reply) (λ i u. h u i)

  -- Behind the required middleware GetUser never fails: whatever a handler does where it fails,
  -- the outcome of the request is the same.
  pub get_user-jwt_middleware :
      (run : UserInfo Uuid → Reply Any → Exit Any)
      (failed other : AppError Any → Reply Any → Exit Any)
      → jwt_middleware lib secret parse_uuid req
          (λ l r. elim (get_user l) [ inl u ↦ run u r | inr err ↦ failed err r ])
          local
          reply
        ≡ jwt_middleware lib secret parse_uuid req
            (λ l r. elim (get_user l) [ inl u ↦ run u r | inr err ↦ other err r ])
            local
            reply
  unfolding get_user
  get_user-jwt_middleware run failed other = same_next _ _ (λ u. refl)
