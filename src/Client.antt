-- ===== src/Client.antt =====
-- The HTTP client of a container (pkg/protocol/container/client/client.go).
use zingthings.Base.{ℕ, Option, none, some, ◌++◌, ◌==◌, if◌then◌else◌, [], ◌∷◌}
use zingthings.Base.Text.{Text, codes}
use zingthings.Core.Types.{DeployRequest, UnDeployRequest}
use zingthings.Core.Info.{ProtocolInfo}
use zingthings.Outside.{Outside, Run, Reply, Response, deploy, undeploy, status, ◌>>=◌, pure}

-- strings.TrimSuffix(url, "/")
unfoldable pub trim_slash : Text → Text
trim_slash [] = []
trim_slash (c ∷ []) = if c == b'/' then [] else c ∷ []
trim_slash (c ∷ d ∷ url) = c ∷ trim_slash (d ∷ url)

abbrev status_ok : ℕ
status_ok = 200

-- A reply is accepted if its status is 200 and its body is a Response.
unfoldable pub accepted : Option Reply → Option Response
accepted none = none
accepted (some r) = if r.status_code == status_ok then r.response else none

module _ (o : Outside) where
  open o use {State, post}

  unfoldable pub client_deploy : Text → DeployRequest → Run State (Option Response)
  unfolding accepted
  client_deploy url request = do
    reply ← post (url ++ codes "/deploy") (deploy request)
    pure (accepted reply)

  unfoldable pub client_undeploy : Text → UnDeployRequest → Run State (Option Response)
  unfolding accepted
  client_undeploy url request = do
    reply ← post (url ++ codes "/undeploy") (undeploy request)
    pure (accepted reply)

  abbrev status_of : Option Response → Option Text
  status_of none = none
  status_of (some r) = r.status

  unfoldable pub get_protocol_status : Text → ProtocolInfo → Run State (Option Text)
  unfolding accepted
  get_protocol_status url info = do
    reply ← post (url ++ codes "/protocolStatus") (status info)
    pure (status_of (accepted reply))
