-- ===== src/Client/Reconnect.antt =====
-- `Client.Run` of internal/client/client.go: one connection after another, and the time between them.
use spacechat.Prelude.{
  ℕ, ◌+◌, ◌*◌, ◌/◌, ◌≤◌, ◌<◌, min, Bool, true, false, not, List, [], ◌∷◌, Option, none, some, arith,
  ltb, if◌then◌else◌, if_intro, All,
}
use spacechat.Protocol.Frames.{
  Code, unauthorized, invalid_name, upgrade_required, unsupported_client, name_taken,
}

-- What `connect` returned, as far as `Run` tells its errors apart.
pub data Ending : Type 0 where
  certificate : Ending
  refusal : Code → Ending
  other : Ending

-- One round: whether the context has ended, what `connect` gave, how long it took in nanoseconds,
-- `rand.Int64N`, and whether the context ends during the wait. `ever_connected` is as it is then.
pub record Round : Type 0 where
  pub cancelled : Bool
  pub ending : Ending
  pub ever_connected : Bool
  pub lasted : ℕ
  pub random : ℕ → ℕ
  pub random_lt : (n : ℕ) → 0 < n → random n < n
  pub interrupted : Bool

-- The state that `Run` leaves behind; `retrying` says that there was no further round.
pub data Stopped : Type 0 where
  cancelled tls_error retrying : Stopped
  refused : Code → Stopped

-- `30*time.Second`
abbrev pub longest : ℕ
longest = 30 * 1000000000

unfoldable pub is_final : Code → Bool → Bool
is_final unauthorized ever_connected = true
is_final invalid_name ever_connected = true
is_final upgrade_required ever_connected = true
is_final unsupported_client ever_connected = true
is_final name_taken ever_connected = not ever_connected
is_final _ ever_connected = false

-- The end of the loop that a round brings, if it brings one.
unfoldable pub verdict : Bool → Ending → Option Stopped
verdict ever_connected certificate = some tls_error
verdict ever_connected (refusal code) =
    if is_final code ever_connected then some (refused code) else none
verdict ever_connected other = none

-- The delay before the next round.
unfoldable pub delay_after : ℕ → ℕ → Round → ℕ
delay_after retry_min delay r = if ltb longest r.lasted then retry_min else delay

unfoldable pub wait : ℕ → Round → ℕ
wait delay r = delay + r.random (delay / 4 + 1)

-- After the wait was begun.
unfoldable pub waited : ℕ → Bool → List ℕ × Stopped → List ℕ × Stopped
waited w true later = (w ∷ [], cancelled)
waited w false (ws, s) = (w ∷ ws, s)

unfoldable pub after_round : Option Stopped → ℕ → Round → List ℕ × Stopped → List ℕ × Stopped
after_round (some s) delay r later = ([], s)
after_round none delay r later = waited (wait delay r) r.interrupted later

-- The loop: how long it waited between the rounds, and how it ended.
unfoldable pub reconnect : ℕ → ℕ → List Round → List ℕ × Stopped
reconnect retry_min delay [] = ([], retrying)
reconnect retry_min delay (r ∷ rs) =
    let now = delay_after retry_min delay r in
    let later = reconnect retry_min (min (now * 2) longest) rs in
    if r.cancelled
    then ([], cancelled)
    else after_round (verdict r.ever_connected r.ending) now r later

-- From the shortest delay to 37.5 seconds.
abbrev pub IsWait : ℕ → ℕ → Type 0
IsWait retry_min w = (retry_min ≤ w) × (w ≤ longest + longest / 4)

wait-IsWait :
    (retry_min delay : ℕ) (r : Round)
    → retry_min ≤ delay
    → delay ≤ longest
    → IsWait retry_min (wait delay r)
unfolding wait
wait-IsWait retry_min delay r low high =
    let jitter = r.random_lt (delay / 4 + 1) (omega arith) in (omega arith, omega (arith, jitter))

waited-IsWait :
    (retry_min w : ℕ) (b : Bool) (later : List ℕ × Stopped)
    → IsWait retry_min w
    → All (IsWait retry_min) later.0
    → All (IsWait retry_min) (waited w b later).0
unfolding waited
waited-IsWait retry_min w true later h hs = (h, tt)
waited-IsWait retry_min w false (ws, s) h hs = (h, hs)

after_round-IsWait :
    (retry_min delay : ℕ) (r : Round) (o : Option Stopped) (later : List ℕ × Stopped)
    → retry_min ≤ delay
    → delay ≤ longest
    → All (IsWait retry_min) later.0
    → All (IsWait retry_min) (after_round o delay r later).0
unfolding after_round
after_round-IsWait retry_min delay r (some s) later low high hs = tt
after_round-IsWait retry_min delay r none later low high hs =
    waited-IsWait retry_min _ r.interrupted later (wait-IsWait retry_min delay r low high) hs

delay_after-within :
    (retry_min delay : ℕ) (r : Round)
    → retry_min ≤ delay
    → delay ≤ longest
    → (retry_min ≤ delay_after retry_min delay r) × (delay_after retry_min delay r ≤ longest)
unfolding delay_after
delay_after-within retry_min delay r low high =
    if_intro (λ d. (retry_min ≤ d) × (d ≤ longest)) (ltb longest r.lasted)
      (λ _. (omega arith, omega arith)) (λ _. (low, high))

-- Whatever the connections come to, the client never waits shorter than its shortest delay before it tries
-- again, and never longer than 37.5 seconds, if the delay at the start lies between the shortest one and
-- 30 seconds.
pub reconnect-IsWait :
    (retry_min delay : ℕ) (rounds : List Round)
    → retry_min ≤ delay
    → delay ≤ longest
    → All (IsWait retry_min) (reconnect retry_min delay rounds).0
unfolding reconnect
reconnect-IsWait retry_min delay [] low high = tt
reconnect-IsWait retry_min delay (r ∷ rs) low high =
    let now = delay_after-within retry_min delay r low high in
    if_intro (λ (x : List ℕ × Stopped). All (IsWait retry_min) x.0) r.cancelled (λ _. tt)
      λ _. after_round-IsWait retry_min _ r _ _ now.0 now.1 (
        reconnect-IsWait retry_min (min (delay_after retry_min delay r * 2) longest) rs
          (omega (arith, now.0)) (omega arith))
