-- ===== src/Update/Runner.antt =====
-- internal/update/runner.go: what happens before the client starts.
pub mod Safety
pub mod Ends
use spacechat.Prelude.{
  ℕ, zero, suc, ◌≡◌, refl, Bool, true, false, ◌&&◌, ◌||◌, not, Option, none, some, Text,
  if◌then◌else◌,
}
use spacechat.Update.Version.{Version, Decision, current, optional, required, ahead}

-- `Action`, a byte, of which four values have a name.
pub data Action : Type 0 where
  update skip retry exit : Action
  unknown : ℕ → Action

-- `Check`, as far as `Run` reads it.
pub record Check : Type 0 where
  pub latest : Version
  pub decision : Decision

-- `InstallResult`
pub record InstallResult : Type 0 where
  pub path : Text
  pub shared : Bool

pub data RunError : Type 0 where
  not_configured bad_check_action bad_action no_installer bad_retry_action : RunError
  rollback_failed : RunError

-- What `Run` returns: an `Outcome`, or `Exit` with an error.
pub data Outcome : Type 0 where
  continue relaunched exits : Outcome
  exits_with : RunError → Outcome

-- `Request` and the `Runner`, and what the calls of its parts answer: the checks and installations one
-- after another, and the user at each prompt.
pub record Setting : Type 0 where
  pub known_incompatible : Bool
  pub is_configured : Bool
  pub has_installer : Bool
  pub has_launch : Bool
  pub check : ℕ → Option Check
  pub choose_check : ℕ → Action
  pub choose : Action
  pub install : ℕ → Option InstallResult
  pub launch : ℕ → Text → Bool
  pub rollback : ℕ → Bool
  pub choose_install : ℕ → Action

-- How far the first loop came.
pub data Checked : Type 0 where
  found : Check → Checked
  stopped : Outcome → Checked

unfoldable pub is_settled : Decision → Bool
is_settled current = true
is_settled ahead = true
is_settled _ = false

unfoldable pub after_prompt : Action → RunError → Option Checked → Option Checked
after_prompt exit e again = some (stopped exits)
after_prompt retry e again = again
after_prompt _ e again = some (stopped (exits_with e))

unfoldable pub check_failed : Setting → ℕ → Option Checked → Option Checked
check_failed w n again =
    if not w.known_incompatible
    then some (stopped continue)
    else after_prompt (w.choose_check n) bad_check_action again

unfoldable pub check_round : Setting → ℕ → Option Checked → Option Check → Option Checked
unfolding is_settled
check_round w n again none = check_failed w n again
check_round w n again (some c) =
    if w.known_incompatible && is_settled c.decision then check_failed w n again else some (found c)

-- The first loop, from its `n`-th round on; `none` when the fuel ends.
unfoldable pub check_loop : ℕ → ℕ → Setting → Option Checked
check_loop zero n w = none
check_loop (suc fuel) n w =
    let again = check_loop fuel (suc n) w in check_round w n again (w.check n)

unfoldable pub is_optional : Decision → Bool
is_optional optional = true
is_optional _ = false

unfoldable pub install_prompt : Action → Option Outcome → Option Outcome
install_prompt exit again = some exits
install_prompt retry again = again
install_prompt _ again = some (exits_with bad_retry_action)

-- The end of a round of the second loop that failed.
unfoldable pub install_failed : Decision → Setting → ℕ → Option Outcome → Option Outcome
unfolding is_optional
install_failed decision w n again =
    if is_optional decision then some continue else install_prompt (w.choose_install n) again

unfoldable pub install_round :
    Decision → Setting → ℕ → Option Outcome → Option InstallResult → Option Outcome
install_round decision w n again none = install_failed decision w n again
install_round decision w n again (some r) =
    if w.has_launch && w.launch n r.path
    then some relaunched
    else if not r.shared && not (w.rollback n)
    then some (exits_with rollback_failed)
    else install_failed decision w n again

-- The second loop.
unfoldable pub install_loop : ℕ → ℕ → Decision → Setting → Option Outcome
install_loop zero n decision w = none
install_loop (suc fuel) n decision w =
    let again = install_loop fuel (suc n) decision w in
    install_round decision w n again (w.install n)

-- The prompt between the loops.
unfoldable pub chosen : ℕ → Action → Decision → Setting → Option Outcome
unfolding is_optional
chosen fuel update decision w =
    if not w.has_installer then some (exits_with no_installer) else install_loop fuel 0 decision w
chosen fuel skip decision w =
    if is_optional decision then some continue else some (exits_with bad_action)
chosen fuel exit decision w = some exits
chosen fuel _ decision w = some (exits_with bad_action)

-- The decision that counts after the first loop.
unfoldable pub raise : Bool → Decision → Decision
raise true optional = required
raise _ decision = decision

unfoldable pub after_check : ℕ → Setting → Checked → Option Outcome
unfolding is_settled
after_check fuel w (stopped outcome) = some outcome
after_check fuel w (found c) =
    let decision = raise w.known_incompatible c.decision in
    if is_settled decision then some continue else chosen fuel w.choose decision w

unfoldable pub proceed : ℕ → Setting → Option Checked → Option Outcome
proceed fuel w none = none
proceed fuel w (some c) = after_check fuel w c

-- `Runner.Run`. Each loop has `fuel` rounds.
unfoldable pub run : ℕ → Setting → Option Outcome
run fuel w =
    if not w.is_configured
    then some (exits_with not_configured)
    else proceed fuel w (check_loop fuel 0 w)
