-- ===== src/Keypad/Lockout.antt =====
-- The lockout of a keypad after five failures in five minutes.
use homepass.Prelude.{
  ℕ, suc, ◌+◌, ◌<◌, ◌≤◌, ◌≡◌, ◌≢◌, refl, Bool, true, false, Option, List, [], ◌∷◌, ◌++◌, leb,
  length, arith, nat_eq, ◌==◌, if◌then◌else◌, String,
}
use homepass.Prelude.Result.{Result, ok, err}
use homepass.Prelude.Dict.{put, remove, get-put, get-remove}
use homepass.Authorization.Service.{RelationshipResult}
use homepass.Keypad.{
  KeypadOperation, lock, unlock, KeypadCommand, KeypadProcessingResult, success, invalid_code,
  not_ready, Services, Failures, current_failures, drop_old, failures_of, failure_window,
  max_failures, operation_of, refuse, carry_out, process_person, process_operation, process,
}

-- At five recent failures a request gives no command, and the PIN it brings has no influence on its
-- result, nor on the failures that are kept.
pub lockout-ignores_pin :
    (services : Services) (c : KeypadCommand) (old : Failures) (pin : String)
    → max_failures ≤ length (current_failures old c.device.id c.occurred_at)
    → ((process services c old).commands ≡ [])
      × (process services (record c { pin = pin }) old ≡ process services c old)
unfolding process process_operation refuse operation_of
lockout-ignores_pin services c old pin h = ground arith

-- The failures that are not older than an instant.
abbrev pub count_since : ℕ → List ℕ → ℕ
count_since t [] = 0
count_since t (f ∷ rest) = if leb t f then suc (count_since t rest) else count_since t rest

count_since-le : (t : ℕ) (l : List ℕ) → count_since t l ≤ length l
count_since-le t [] = omega arith
count_since-le t (f ∷ rest) = ground (arith, count_since-le t rest)

count_since-append :
    (t f : ℕ) (l : List ℕ) → t ≤ f → count_since t (l ++ f ∷ []) ≡ suc (count_since t l)
count_since-append t f [] h = ground arith
count_since-append t f (g ∷ rest) h = ground (arith, count_since-append t f rest h)

-- In the window that starts at an instant, no failure since then is forgotten.
count_since-drop_old :
    (t now : ℕ) (l : List ℕ)
    → now ≤ t + failure_window
    → count_since t (drop_old now l) ≡ count_since t l
unfolding drop_old
count_since-drop_old t now [] h = refl
count_since-drop_old t now (f ∷ rest) h = ground (arith, count_since-drop_old t now rest h)

-- A request is a wrong guess if its result says that the code is invalid.
unfoldable pub is_guess : Result KeypadProcessingResult → Bool
is_guess (err e) = false
is_guess (ok r) = elim r.outcome [ success ↦ false | invalid_code ↦ true | not_ready ↦ false ]

refuse-no_guess :
    (services : Services) (c : KeypadCommand) (f : Failures) (attempts : ℕ)
    (who : Option RelationshipResult)
    → is_guess (refuse services c f attempts who not_ready).result ≡ false
unfolding refuse is_guess
refuse-no_guess services c f attempts who = ground arith

carry_out-no_guess :
    (services : Services) (c : KeypadCommand) (f : Failures) (op : KeypadOperation)
    (who : RelationshipResult)
    → is_guess (carry_out services c f op who).result ≡ false
unfolding carry_out is_guess
carry_out-no_guess services c f op who = ground arith

process_person-no_guess :
    (services : Services) (c : KeypadCommand) (f : Failures) (recent : List ℕ)
    (op : KeypadOperation) (p : ℕ)
    → is_guess (process_person services c f recent op p).result ≡ false
unfolding process_person is_guess
process_person-no_guess services c f recent op p =
    grind (arith, refuse-no_guess, carry_out-no_guess)

module _ (t device : ℕ) where
  since : Failures → ℕ
  since failures = count_since t (failures_of failures device)

  -- Requests to any devices in the five minutes from an instant, in any order; those to the device
  -- give no command. The number counts the wrong guesses there.
  pub data Requests (start : Failures) : Failures → ℕ → Type 0 where
    none_yet : Requests start start 0
    elsewhere :
        {f : Failures} {n : ℕ} (services : Services) (c : KeypadCommand)
        → Requests start f n
        → c.device.id ≢ device
        → Requests start (process services c f).failures n
    refused :
        {f : Failures} {n : ℕ} (services : Services) (c : KeypadCommand)
        → Requests start f n
        → c.device.id ≡ device
        → t ≤ c.occurred_at
        → c.occurred_at ≤ t + failure_window
        → (process services c f).commands ≡ []
        → Requests start (process services c f).failures n
    guessed :
        {f : Failures} {n : ℕ} (services : Services) (c : KeypadCommand)
        → Requests start f n
        → c.device.id ≡ device
        → t ≤ c.occurred_at
        → c.occurred_at ≤ t + failure_window
        → is_guess (process services c f).result ≡ true
        → Requests start (process services c f).failures (suc n)

  since-put :
      (failures : Failures) (id : ℕ) (l : List ℕ)
      → since (put failures id l) ≡ (if id == device then count_since t l else since failures)
  unfolding since
  since-put failures id l = ground (arith, get-put failures id device l)

  since-remove :
      (failures : Failures) (id : ℕ) → id ≢ device → since (remove failures id) ≡ since failures
  unfolding since
  since-remove failures id h = ground (arith, get-remove failures id device)

  -- A request to another device changes nothing here.
  process-elsewhere :
      (services : Services) (c : KeypadCommand) (f : Failures)
      → c.device.id ≢ device
      → since (process services c f).failures ≡ since f
  unfolding process process_operation process_person refuse carry_out
  process-elsewhere services c f h = grind (arith, since-put, since-remove)

  -- The recent failures have all that the window has.
  since-current :
      (f : Failures) (now : ℕ)
      → now ≤ t + failure_window
      → count_since t (current_failures f device now) ≡ since f
  unfolding current_failures since
  since-current f now h = count_since-drop_old t now (failures_of f device) h

  process-refused :
      (services : Services) (c : KeypadCommand) (f : Failures)
      → c.device.id ≡ device
      → t ≤ c.occurred_at
      → c.occurred_at ≤ t + failure_window
      → (process services c f).commands ≡ []
      → since f ≤ since (process services c f).failures
  unfolding process process_operation process_person refuse carry_out
  process-refused services c f here after before h =
      let recent = current_failures f device c.occurred_at in
      let added = count_since-append t c.occurred_at recent after in
      let kept = since-current f c.occurred_at before in
      rw here (grind (arith, since-put, added, kept))

  process_operation-guessed :
      (services : Services) (c : KeypadCommand) (f : Failures) (op : KeypadOperation)
      → c.device.id ≡ device
      → t ≤ c.occurred_at
      → c.occurred_at ≤ t + failure_window
      → is_guess (process_operation services c f op).result ≡ true
      → (since f < max_failures)
        × (since (process_operation services c f op).failures ≡ suc (since f))
  unfolding process_operation refuse is_guess
  process_operation-guessed services c f op here after before h =
      let recent = current_failures f device c.occurred_at in
      let added = count_since-append t c.occurred_at recent after in
      let kept = since-current f c.occurred_at before in
      let bound = count_since-le t recent in
      let no_guess =
        λ (p : ℕ). process_person-no_guess services c (put f device recent) recent op p in
      rw here (grind (arith, since-put, no_guess, added, kept, bound))

  process-guessed :
      (services : Services) (c : KeypadCommand) (f : Failures)
      → c.device.id ≡ device
      → t ≤ c.occurred_at
      → c.occurred_at ≤ t + failure_window
      → is_guess (process services c f).result ≡ true
      → (since f < max_failures) × (since (process services c f).failures ≡ suc (since f))
  unfolding process is_guess
  process-guessed services c f here after before h =
      let opened = process_operation-guessed services c f unlock here after before in
      let closed = process_operation-guessed services c f lock here after before in
      ground (arith, opened, closed)

  Requests-bounded :
      {start f : Failures} {n : ℕ} → Requests start f n → (n ≤ max_failures) × (n ≤ since f)
  Requests-bounded none_yet = omega arith
  Requests-bounded (elsewhere {f} services c r other) =
      grind (arith, Requests-bounded r, process-elsewhere services c f other)
  Requests-bounded (refused {f} services c r here after before h) =
      omega (arith, Requests-bounded r, process-refused services c f here after before h)
  Requests-bounded (guessed {f} services c r here after before h) =
      omega (arith, Requests-bounded r, process-guessed services c f here after before h)

-- In the five minutes from an instant a keypad gets at most five wrong guesses, in whatever order the
-- requests to it and to others come and whatever the other services return, as long as none of its
-- requests gives a command.
pub guesses_bounded :
    (t device : ℕ) (start end : Failures) (n : ℕ) → Requests t device start end n → n ≤ max_failures
guesses_bounded t device start end n r = (Requests-bounded t device r).0
