-- ===== src/Veeam/Sessions.antt =====
-- The wait for a session (internal/veeam/veeam.go, `WaitSession`). `rounds` is the number of polls
-- that end before the deadline: the default of the pause between two polls only bears on that number.
pub mod Finished
use autodeploy_web.Base.{
  ℕ, zero, suc, Bool, true, false, List, Option, none, some, Text, text, ◌++◌, text_eq,
  if◌then◌else◌, ◌||◌,
}
use autodeploy_web.Wiring.Settings.{quoted}
use autodeploy_web.Veeam.{
  Config, no_body, Request, Answer, ok, err, Outside, Client, Result, and_then, do_request,
}
use autodeploy_web.Veeam.Calls.{SessionModel, Library}

-- The `switch` on a poll: nothing while the session runs.
unfoldable pub verdict : Text → SessionModel → Option (Answer (Unit {0}))
verdict id s =
    if text_eq s.result (text "Failed")
    then some (err (text "veeam: session " ++ id ++ text " failed"))
    else if text_eq s.result (text "Success") || text_eq s.result (text "Warning")
    then some (ok tt)
    else if text_eq s.state (text "Stopped")
    then some (ok tt)
    else none

module _ (cfg : Config) (world : Outside) (lib : Library) where
  -- One poll.
  unfoldable pub poll_session : Text → Client → Result SessionModel
  poll_session id =
      do_request cfg world (text "GET") (text "/api/v1/sessions/" ++ lib.path_escape id) no_body
        lib.decode_session

  -- `WaitSession`: the end of the context is asked after a poll, and the timeout is its printed form.
  unfoldable pub wait_session :
      (List Request → Option Text) → Text → Text → ℕ → Client → Result (Unit {0})
  unfolding poll_session verdict
  wait_session ended timeout id zero c = and_then (poll_session id c) (λ s c'. elim (verdict id s) [
    | some v ↦ (v, c')
    | none ↦ (
      err (
          text "veeam: session "
          ++ id
          ++ text " did not finish within "
          ++ timeout
          ++ text " (state="
          ++ quoted s.state
          ++ text ")"),
      c',
    )
  ])
  wait_session ended timeout id (suc n) c = and_then (poll_session id c) (λ s c'.
      elim (verdict id s) [
        | some v ↦ (v, c')
        | none ↦ elim (ended c'.sent) [
          | some e ↦ (err e, c')
          | none ↦ wait_session ended timeout id n c'
        ]
      ])
