-- ===== src/Tests/Confirmations.antt =====
-- A confirmation on concrete inputs.
use homepass.Prelude.{none, [], ◌∷◌}
use homepass.Correlation.{locked, homepass_keypad, PendingLockCommand, Correlation}

abbrev command : PendingLockCommand
command = record {
  access_point_id = 2;
  requested_state = locked;
  origin = homepass_keypad;
  command_id = 7;
  initiated_at = 10;
  expires_at = 20;
  person_id = none;
  person_name = none;
}

abbrev waiting : Correlation
waiting = record { expiry = 10; pending = (2, command) ∷ [] }

abbrev idle : Correlation
idle = record { expiry = 10; pending = [] }
