-- ===== src/Registry/Refusals.antt =====
-- Requests that do not carry the credential of the installation that they name.
use stagepilot_beta.Common.{
  ◌||◌, ℕ, Bool, true, false, Option, none, some, List, [], ◌∷◌, lookup, ◌≡◌, ◌≢◌, ◌⊎◌, inl, refl,
  arith,
}
use stagepilot_beta.Registry.Names.{same_bytes}
use stagepilot_beta.Registry.Data.{World, Env, Installation, Response}
use stagepilot_beta.Registry.Action.{Action, Outcome, ok, load, pure, gets, ◌>>=◌}
use stagepilot_beta.Registry.Replies.{credential_of}
use stagepilot_beta.Registry.Access.{
  Route, on_installation, to_reenroll, to_reactivate, to_acknowledge, to_own_approvals, to_ingest,
  to_upload, Request, is_get, is_post, is_installation, equal_secret,
}
use stagepilot_beta.Registry.Handler.{
  admit, authorized, unauthorized, on_route, charged_reenroll, charged_reactivate,
  charged_acknowledge, charged_approvals, charged_alert, charged_upload,
}
use stagepilot_beta.Registry.Dispatch.{by_method, posted, route_request, respond, serve}

same_bytes_eq : (as' bs : List ℕ) → same_bytes as' bs ≡ true → as' ≡ bs
unfolding same_bytes
same_bytes_eq [] [] e = refl
same_bytes_eq [] (b ∷ bs) e = ground arith
same_bytes_eq (a ∷ as') [] e = ground arith
same_bytes_eq (a ∷ as') (b ∷ bs) e = ground (arith, same_bytes_eq as' bs)

module _ (env : Env) (r : Request) where
  -- No installation, or one whose credential has another digest than the token.
  abbrev pub Foreign : Option Installation → Type 0
  Foreign none = Unit
  Foreign (some i) = env.digest r.bearer ≢ env.digest (credential_of env i)

  not_installation :
      (i : Installation)
      → env.digest r.bearer ≢ env.digest (credential_of env i)
      → is_installation env r i ≡ false
  unfolding is_installation equal_secret
  not_installation i differs =
      ground (arith, same_bytes_eq (env.digest r.bearer) (env.digest (credential_of env i)))

  admit-Foreign :
      (b : Bool) (f : Installation → Action Response) (o : Option Installation) (w : World)
      → Foreign o
      → admit env b r f o w ≡ (ok unauthorized, w)
  unfolding admit pure
  admit-Foreign b f none w foreign = refl
  admit-Foreign b f (some i) w foreign = ground (arith, not_installation i foreign)

  authorized-Foreign :
      (b : Bool) (f : Installation → Action Response) (w : World)
      → Foreign (lookup r.id w.installations)
      → authorized env b r f w ≡ (ok unauthorized, w)
  unfolding authorized load gets ◌>>=◌
  authorized-Foreign b f w foreign = admit-Foreign b f (lookup r.id w.installations) w foreign

  -- The routes that belong to an installation, not to the operator.
  abbrev pub IsCredentialed : Route → Type 0
  IsCredentialed (on_installation action) = Unit
  IsCredentialed to_reenroll = Unit
  IsCredentialed to_reactivate = Unit
  IsCredentialed (to_acknowledge id) = Unit
  IsCredentialed to_own_approvals = Unit
  IsCredentialed to_ingest = Unit
  IsCredentialed to_upload = Unit
  IsCredentialed _ = ⊥

  abbrev pub IsTurnedAway : World → Response × World → Type 0
  IsTurnedAway w a =
      (a.1 ≡ w) × ((a.0.status ≡ 401) ⊎ ((is_post r.method ≡ false) × (a.0.status ≡ 404)))

  abbrev answered : Outcome Response × World → Response × World
  answered (o, w) = (respond env o, w)

  posted_away :
      (m : Action Response) (w : World)
      → m w ≡ (ok unauthorized, w)
      → IsTurnedAway w (answered (posted env r m w))
  unfolding by_method respond pure
  posted_away m w e = ground arith

  either_away :
      (m : Action Response) (w : World)
      → m w ≡ (ok unauthorized, w)
      → IsTurnedAway w (answered (by_method env (is_get r.method || is_post r.method) m w))
  unfolding by_method respond pure
  either_away m w e = ground arith

  route-Foreign :
      (route : Route) (w : World)
      → IsCredentialed route
      → Foreign (lookup r.id w.installations)
      → IsTurnedAway w (answered (route_request env route r w))
  unfolding route_request respond
  route-Foreign (on_installation action) w c foreign =
      rw (authorized-Foreign false (on_route env action r) w foreign) (refl, inl refl)
  route-Foreign to_reenroll w c foreign =
      posted_away _ w (authorized-Foreign false (charged_reenroll env) w foreign)
  route-Foreign to_reactivate w c foreign =
      posted_away _ w (authorized-Foreign true (charged_reactivate env) w foreign)
  route-Foreign (to_acknowledge id) w c foreign =
      posted_away _ w (authorized-Foreign false (charged_acknowledge env id) w foreign)
  route-Foreign to_own_approvals w c foreign =
      either_away _ w (authorized-Foreign false (charged_approvals env r) w foreign)
  route-Foreign to_ingest w c foreign =
      posted_away _ w (authorized-Foreign false (charged_alert env r) w foreign)
  route-Foreign to_upload w c foreign =
      posted_away _ w (authorized-Foreign false (charged_upload env r) w foreign)
  route-Foreign _ w c foreign = absurd c

  -- A request to a route of an installation whose token has not the digest of that
  -- installation's current credential, or that names no stored installation, is answered by 401
  -- (or by 404, where the route wants POST and the request is none) and changes nothing: no rate
  -- is charged and the provider is not asked.
  pub serve-Foreign :
      (w : World)
      → IsCredentialed r.route
      → Foreign (lookup r.id w.installations)
      → ((serve env r w).1 ≡ w)
        × (((serve env r w).0.status ≡ 401)
            ⊎ ((is_post r.method ≡ false) × ((serve env r w).0.status ≡ 404)))
  unfolding serve
  serve-Foreign w c foreign = route-Foreign r.route w c foreign
