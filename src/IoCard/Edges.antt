-- ===== src/IoCard/Edges.antt =====
-- What a poll of the inputs reports.
use machine_controller.Base.{ℕ, ◌≡◌, ◌≢◌, true, ◌⊎◌, ◌↔◌, String, arith}
use machine_controller.Base.Int.{ℤ, pos}
use machine_controller.MachineCore.Types.{IoChannel, rising, falling}
use machine_controller.IoCard.Inputs.{edge_of, update_state, level, belongs, update_channel}

abbrev pub IsBit : ℤ → Type 0
IsBit s = (s ≡ pos 0) ⊎ (s ≡ pos 1)

level-IsBit : (value : ℕ) (ch : IoChannel) → IsBit (level value ch)
unfolding level
level-IsBit value ch = ground arith

-- After an update of a channel of the port that was read, its state is the level of its pin, the
-- event type is rising exactly on a change from 0 to 1, falling exactly on a change from 1 to 0, and
-- a change is reported exactly if the state differs.
pub update_channel-edge :
    (port : String) (value : ℕ) (ch : IoChannel)
    → belongs port ch ≡ true
    → IsBit ch.state
    → let (changed, ch') = update_channel port value ch in
      (ch'.state ≡ level value ch)
      × ((ch'.event_type ≡ rising) ↔ ((ch.state ≡ pos 0) × (ch'.state ≡ pos 1)))
      × ((ch'.event_type ≡ falling) ↔ ((ch.state ≡ pos 1) × (ch'.state ≡ pos 0)))
      × ((changed ≡ true) ↔ (ch.state ≢ ch'.state))
unfolding update_channel update_state edge_of
update_channel-edge port value ch mine bit = ground (arith, level-IsBit value ch)
