-- ===== src/System/Shutdown.antt =====
-- backend/src/shutdown.rs: the signals that end the program. A wait that ends is the time at which
-- it does, one that never ends is `none`.
use oott.Prelude.{
  ℕ, Bool, true, false, ◌≡◌, ◌⊎◌, ◌↔◌, ◌≤◌, Option, none, some, leb, arith, if◌then◌else◌,
}

-- A signal's handler, whether the system installs it, and when the signal comes.
pub record SignalHandler : Type 0 where
  pub installed : Bool
  pub comes_at : Option ℕ

-- `sigint` and `sigterm`: without its handler, a signal is waited for in vain.
unfoldable pub signal_wait : SignalHandler → Option ℕ
signal_wait h = if h.installed then h.comes_at else none

-- The first of two waits that ends.
unfoldable pub earlier : Option ℕ → Option ℕ → Option ℕ
earlier none b = b
earlier (some a) none = some a
earlier (some a) (some b) = if leb a b then some a else some b

-- `await_termination_signal`.
unfoldable pub await_termination_signal : (sigint sigterm : SignalHandler) → Option ℕ
unfolding signal_wait earlier
await_termination_signal sigint sigterm = earlier (signal_wait sigint) (signal_wait sigterm)

-- `cancel_after`, on a token that may have been cancelled: it stays so.
unfoldable pub cancel_after : (signal token : Option ℕ) → Option ℕ
unfolding earlier
cancel_after signal token = earlier signal token

-- `watch_for_signals`.
unfoldable pub watch_for_signals : (sigint sigterm : SignalHandler) → (token : Option ℕ) → Option ℕ
unfolding await_termination_signal cancel_after
watch_for_signals sigint sigterm token =
    cancel_after (await_termination_signal sigint sigterm) token

-- Whether a wait has ended by a time.
abbrev pub IsOver : Option ℕ → ℕ → Type 0
IsOver none t = ⊥
IsOver (some a) t = a ≤ t

earlier-IsOver : (a b : Option ℕ) (t : ℕ) → IsOver (earlier a b) t ↔ (IsOver a t ⊎ IsOver b t)
unfolding earlier
earlier-IsOver none b t = ground arith
earlier-IsOver (some a) none t = ground arith
earlier-IsOver (some a) (some b) t = ground arith

-- Whether a signal with an installed handler has come by a time.
abbrev pub IsSignalled : SignalHandler → ℕ → Type 0
IsSignalled h t = (h.installed ≡ true) × IsOver h.comes_at t

signal_wait-IsOver : (h : SignalHandler) (t : ℕ) → IsOver (signal_wait h) t ↔ IsSignalled h t
unfolding signal_wait
signal_wait-IsOver h t = elim h.installed [ true ↦ ground arith | false ↦ ground arith ]

-- By any time, the token is cancelled exactly if it was, or SIGINT or SIGTERM has come by then with
-- its handler installed: a handler that cannot be installed does not keep the other from it.
pub watch_for_signals_iff :
    (sigint sigterm : SignalHandler) (token : Option ℕ) (t : ℕ)
    → IsOver (watch_for_signals sigint sigterm token) t
      ↔ ((IsSignalled sigint t ⊎ IsSignalled sigterm t) ⊎ IsOver token t)
unfolding watch_for_signals await_termination_signal cancel_after
watch_for_signals_iff sigint sigterm token t =
    let (to, from) = earlier-IsOver (await_termination_signal sigint sigterm) token t in
    let (to₁, from₁) = earlier-IsOver (signal_wait sigint) (signal_wait sigterm) t in
    let (to₂, from₂) = signal_wait-IsOver sigint t in
    let (to₃, from₃) = signal_wait-IsOver sigterm t in
    ground (arith, to, from, to₁, from₁, to₂, from₂, to₃, from₃)
