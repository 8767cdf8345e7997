-- ===== src/Wiring/Retry.antt =====
-- The loops of the wiring: the waits for a host and for the REST service, the retries of an
-- object-storage call and of a creation on a host that is still updating. The contexts have a
-- deadline: `rounds` pauses can end before it, and the pause after them is its end.
use autodeploy_web.Base.{ℕ, zero, suc, Bool, true, false, List, [], ◌∷◌, ◌++◌, Text, text, ◌||◌}
use autodeploy_web.Wiring.Program.{
  Server, authenticate, dial, pause, wait_session, update_host_components, ok, err, Program, ret,
  fail, ◌>>=◌, ◌>>◌, ask, attempt, wrap,
}
use autodeploy_web.Wiring.Settings.{Settings, has_part}

-- `maxS3Attempts - 1` and `maxComponentAttempts - 1`: the attempts after the first.
unfoldable pub max_s3_retries : ℕ
max_s3_retries = 4

unfoldable pub max_component_retries : ℕ
max_component_retries = 2

unfoldable pub deadline_exceeded : Text
deadline_exceeded = text "context deadline exceeded"

-- The inner loop: whether some port answers.
unfoldable pub dial_each : Text → List Text → Program Bool
dial_each ip [] = ret false
dial_each ip (p ∷ ps) = do
  conn ← attempt (ask (dial ip p))
  elim conn [ ok _ ↦ ret true | err _ ↦ dial_each ip ps ]

unfoldable pub ports : List Text
ports = text "6160" ∷ text "443" ∷ text "22" ∷ []

-- `waitNodeUp`.
unfoldable pub wait_node_up : ℕ → Text → Program (Unit {0})
wait_node_up zero ip = do
  up ← dial_each ip ports
  elim up [ true ↦ ret tt | false ↦ fail deadline_exceeded ]
wait_node_up (suc n) ip = do
  up ← dial_each ip ports
  elim up [ true ↦ ret tt | false ↦ ask (pause 15) >> wait_node_up n ip ]

-- `waitReady`.
unfoldable pub wait_ready : ℕ → Server → Program (Unit {0})
wait_ready zero server = do
  auth ← attempt (ask (authenticate server))
  elim auth [ ok _ ↦ ret tt | err _ ↦ fail (text "VSA REST not reachable: " ++ deadline_exceeded) ]
wait_ready (suc n) server = do
  auth ← attempt (ask (authenticate server))
  elim auth [
    | ok _ ↦ ret tt
    | err _ ↦ wrap (text "VSA REST not reachable: ") (ask (pause 20)) >> wait_ready n server
  ]

unfoldable pub wait : Settings → Text → ℕ → Program (Unit {0})
wait cfg session poll = ask (wait_session session poll cfg.session_timeout)

-- The update between two attempts; its errors are only logged.
unfoldable pub update_components : Settings → Text → Program (Unit {0})
update_components cfg host = do
  sess ← attempt (ask (update_host_components (host ∷ [])))
  elim sess [ err _ ↦ ret tt | ok id ↦ attempt (wait cfg id 10) >>= λ _. ret tt ]

unfoldable pub is_pending : Text → Bool
is_pending e = has_part (text "pending components update") e

-- `createWithComponents`, with the attempts that are left after this one.
unfoldable pub create_with_components : {A : Type 0} → ℕ → Settings → Text → Program A → Program A
create_with_components zero cfg host create = create
create_with_components (suc n) cfg host create = do
  made ← attempt create
  elim made [
    | ok a ↦ ret a
    | err e ↦ elim (is_pending e) [
      | true ↦ update_components cfg host >> create_with_components n cfg host create
      | false ↦ fail e
    ]
  ]

unfoldable pub s3_transient : Text → Bool
s3_transient e =
    has_part (text "establish connection") e
    || has_part (text "Failed to load S3 configuration") e
    || has_part (text "HTTP 500") e

-- `retryS3`, with the attempts that are left after this one.
unfoldable pub retry_s3 : {A : Type 0} → ℕ → Program A → Program A
retry_s3 zero fn = fn
retry_s3 (suc n) fn = do
  tried ← attempt fn
  elim tried [
    | ok a ↦ ret a
    | err e ↦ elim (s3_transient e) [ true ↦ ask (pause 45) >> retry_s3 n fn | false ↦ fail e ]
  ]
