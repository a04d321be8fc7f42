-- ===== src/Nfc/Sessions/Once.antt =====
-- A token is consumed at most once, and only while it lives.
use homepass.Prelude.{
  ℕ, ◌+◌, ◌≡◌, ◌≢◌, none, some, String, eq_iff, arith, inl, inr, ==-refl, string_eq,
}
use homepass.Prelude.Dict.{get, get-put, get-remove, get-keep, Distinct, passing, get-keep_of_none}
use homepass.Prelude.Result.{Result-cases, ok, err, session_error}
use homepass.Nfc.Sessions.{ExpiringTokenStore, is_live, expire, make_room, issue, peek, consume}

-- A call on a store, with its reading of the clock.
pub data Call {ℓ} (T : Type ℓ) : Type ℓ where
  issuing : ℕ → String → T → Call T
  peeking : ℕ → String → Call T
  consuming : ℕ → String → Call T

module _ {ℓ} {T : Type ℓ} where
  unfoldable pub call : ExpiringTokenStore T → Call T → ExpiringTokenStore T
  call s (issuing now token value) = (issue s now token value).0
  call s (peeking now token) = (peek s now token).0
  call s (consuming now token) = (consume s now token).0

  -- The stores that calls lead to which do not draw the token again.
  pub data Later (token : String) (s : ExpiringTokenStore T) : ExpiringTokenStore T → Type ℓ where
    here : Later token s s
    other :
        {t : ExpiringTokenStore T} (now : ℕ) (drawn : String) (value : T)
        → Later token s t
        → drawn ≢ token
        → Later token s (call t (issuing now drawn value))
    look :
        {t : ExpiringTokenStore T} (now : ℕ) (k : String)
        → Later token s t
        → Later token s (call t (peeking now k))
    take :
        {t : ExpiringTokenStore T} (now : ℕ) (k : String)
        → Later token s t
        → Later token s (call t (consuming now k))

  get-expire :
      (s : ExpiringTokenStore T) (now : ℕ) (k : String)
      → Distinct s.items
      → get (expire s now).items k ≡ passing (is_live now) (get s.items k)
  unfolding expire
  get-expire s now k h = get-keep (is_live now) s.items k h

  -- A look at a token returns the value that is stored for it if that has not expired, and raises
  -- otherwise.
  pub peek-result :
      (s : ExpiringTokenStore T) (now : ℕ) (token : String)
      → Distinct s.items
      → (peek s now token).1 ≡ (elim (passing (is_live now) (get s.items token)) [
        | none ↦ err session_error
        | some item ↦ ok item.value
      ])
  unfolding peek
  peek-result s now token h = ground (arith, get-expire s now token h)

  absent-expire :
      (s : ExpiringTokenStore T) (now : ℕ) (k : String)
      → get s.items k ≡ none
      → get (expire s now).items k ≡ none
  absent-expire s now k h = unfold expire in get-keep_of_none (is_live now) s.items k h

  absent-make_room :
      (s t : ExpiringTokenStore T) (k : String)
      → get s.items k ≡ none
      → make_room s ≡ ok t
      → get t.items k ≡ none
  unfolding make_room
  absent-make_room s t k h e = grind (arith, get-remove)

  absent-issue :
      (s : ExpiringTokenStore T) (now : ℕ) (drawn k : String) (value : T)
      → get s.items k ≡ none
      → drawn ≢ k
      → get (issue s now drawn value).0.items k ≡ none
  unfolding issue
  absent-issue s now drawn k value h differs = elim (Result-cases (make_room (expire s now))) [
    | inl (t, e) ↦
        rw (e, issue)
          (ground (
            arith,
            get-put t.items drawn k (record { value = value; expires_at = now + s.ttl }),
            eq_iff drawn k,
            absent-make_room (expire s now) t k (absent-expire s now k h) e,
          ))
    | inr (x, e) ↦ rw (e, issue) (absent-expire s now k h)
  ]

  absent-peek :
      (s : ExpiringTokenStore T) (now : ℕ) (j k : String)
      → get s.items k ≡ none
      → get (peek s now j).0.items k ≡ none
  unfolding peek
  absent-peek s now j k h = ground (arith, absent-expire s now k h)

  absent-consume :
      (s : ExpiringTokenStore T) (now : ℕ) (j k : String)
      → get s.items k ≡ none
      → get (consume s now j).0.items k ≡ none
  unfolding consume
  absent-consume s now j k h =
      ground (arith, absent-peek s now j k h, get-remove (peek s now j).0.items j k)

  Later-absent :
      (token : String) {s t : ExpiringTokenStore T}
      → Later token s t
      → get s.items token ≡ none
      → get t.items token ≡ none
  unfolding call
  Later-absent token here h = h
  Later-absent token (other {t} now drawn value l ne) h =
      absent-issue t now drawn token value (Later-absent token l h) ne
  Later-absent token (look {t} now k l) h = absent-peek t now k token (Later-absent token l h)
  Later-absent token (take {t} now k l) h = absent-consume t now k token (Later-absent token l h)

  absent-raises :
      (s : ExpiringTokenStore T) (now : ℕ) (token : String)
      → get s.items token ≡ none
      → (consume s now token).1 ≡ err session_error
  unfolding consume peek
  absent-raises s now token h = ground (arith, absent-expire s now token h)

  -- Once a token is consumed, every later attempt to consume it raises, whatever calls stand in
  -- between, unless the same token is drawn again.
  pub consume_once :
      (s : ExpiringTokenStore T) (now : ℕ) (token : String) (value : T)
      → (consume s now token).1 ≡ ok value
      → (t : ExpiringTokenStore T) → Later token (consume s now token).0 t
      → (later : ℕ) → (consume t later token).1 ≡ err session_error
  unfolding consume
  consume_once s now token value h t l later = absent-raises t later token (
      Later-absent token l
        (ground (arith, get-remove (peek s now token).0.items token token, ==-refl token)))
