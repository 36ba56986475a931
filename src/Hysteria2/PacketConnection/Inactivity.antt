-- ===== src/Hysteria2/PacketConnection/Inactivity.antt =====
-- `Hysteria2PacketConnection::wait_inactive` of src/hysteria2/packet.rs: each wake-up of its `select!` is a
-- step, with the time of the last activity as it is then. Times are nanoseconds.
use sing_quic_rs.Prelude.{
  ℕ, ◌-◌, ◌≤◌, inl, inr, Option, none, some, List, [], ◌∷◌, leb, if◌then◌else◌, Bool-cases, leb→le,
}

-- The deadline has come, at a time and with the activity of then; the activity has changed; its
-- sender is gone; the connection is closed.
pub data Wake : Type 0 where
  deadline : ℕ → ℕ → Wake
  activity_changed : Wake
  sender_gone : Wake
  connection_closed : Wake

-- The wake-up that the call returns at; `none` is a call that still waits.
unfoldable pub wait_inactive : ℕ → List Wake → Option Wake
wait_inactive timeout [] = none
wait_inactive timeout (deadline now activity ∷ rest) =
    let more = wait_inactive timeout rest in
    if leb timeout (now - activity) then some (deadline now activity) else more
wait_inactive timeout (activity_changed ∷ rest) = wait_inactive timeout rest
wait_inactive timeout (sender_gone ∷ rest) = some sender_gone
wait_inactive timeout (connection_closed ∷ rest) = some connection_closed

-- Why the call returns.
abbrev pub IsReason : ℕ → Option Wake → Type 0
IsReason timeout none = Unit {0}
IsReason timeout (some (deadline now activity)) = timeout ≤ now - activity
IsReason timeout (some activity_changed) = ⊥
IsReason timeout (some sender_gone) = Unit {0}
IsReason timeout (some connection_closed) = Unit {0}

-- The call returns only where nothing was sent or received for the timeout, or the session or its
-- connection is gone.
pub wait_inactive-IsReason :
    (timeout : ℕ) (wakes : List Wake) → IsReason timeout (wait_inactive timeout wakes)
unfolding wait_inactive
wait_inactive-IsReason timeout [] = tt
wait_inactive-IsReason timeout (deadline now activity ∷ rest) =
    elim (Bool-cases (leb timeout (now - activity))) [
      | inl idle ↦ rw idle (leb→le timeout (now - activity) idle)
      | inr busy ↦ rw busy (wait_inactive-IsReason timeout rest)
    ]
wait_inactive-IsReason timeout (activity_changed ∷ rest) = wait_inactive-IsReason timeout rest
wait_inactive-IsReason timeout (sender_gone ∷ rest) = tt
wait_inactive-IsReason timeout (connection_closed ∷ rest) = tt
