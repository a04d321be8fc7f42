-- ===== src/Nfc/Sessions/Life.antt =====
-- The life of a token: issued, readable until it expires or is evicted; the store stays bounded
-- through any calls.
use homepass.Prelude.{
  ℕ, ◌+◌, ◌≤◌, ◌≡◌, refl, ◌∙◌, none, some, List, [], ◌∷◌, String, ltb, arith, if◌then◌else◌,
  string_eq,
}
use homepass.Prelude.Int.{ℤ, pos, negsuc}
use homepass.Prelude.Dict.{
  get, put, get-put, get-put_self, put-Distinct, remove-Distinct, length-put-le, length-remove-le,
}
use homepass.Prelude.Result.{ok, err, session_error}
use homepass.Nfc.Sessions.{
  Item, ExpiringTokenStore, new_store, expire, make_room, issue, peek, consume,
}
use homepass.Nfc.Sessions.Once.{Call, issuing, peeking, consuming, call, peek-result}
use homepass.Nfc.Sessions.Bounded.{IsBounded, expire-IsBounded, make_room-Roomy}

module _ {ℓ} {T : Type ℓ} where
  -- What `issue` returns in a store that has room, once it has made some.
  issue_lem :
      (s t : ExpiringTokenStore T) (now : ℕ) (token : String) (value : T)
      → make_room (expire s now) ≡ ok t
      → issue s now token value ≡ (
        record t { items = put t.items token (record { value = value; expires_at = now + s.ttl }) },
        ok token,
      )
  unfolding issue
  issue_lem s t now token value h = rw (h, issue)

  -- In a bounded store `issue` never raises and leaves a bounded store.
  pub issue-IsBounded :
      (s : ExpiringTokenStore T) (now : ℕ) (token : String) (value : T)
      → IsBounded s
      → ((issue s now token value).1 ≡ ok token) × IsBounded (issue s now token value).0
  issue-IsBounded s now token value h =
      let b = expire-IsBounded s now h in
      let (t, r) = make_room-Roomy (expire s now) b in
      let item : Item T = record { value = value; expires_at = now + s.ttl } in
      rw (issue_lem s t now token value r.made) (
        refl,
        record {
          room = omega (arith, r.same_max, b.room);
          bounded = omega (arith, length-put-le t.items token item, r.room, r.same_max);
          distinct = put-Distinct t.items token item r.distinct;
        },
      )

  peek-IsBounded :
      (s : ExpiringTokenStore T) (now : ℕ) (token : String)
      → IsBounded s
      → IsBounded (peek s now token).0
  unfolding peek
  peek-IsBounded s now token h = ground (arith, expire-IsBounded s now h)

  consume-IsBounded :
      (s : ExpiringTokenStore T) (now : ℕ) (token : String)
      → IsBounded s
      → IsBounded (consume s now token).0
  unfolding consume
  consume-IsBounded s now token h =
      let b = peek-IsBounded s now token h in
      ground (
        arith,
        b,
        length-remove-le (peek s now token).0.items token,
        remove-Distinct (peek s now token).0.items token b.distinct,
      )

  -- A store through a list of calls.
  unfoldable pub run : ExpiringTokenStore T → List (Call T) → ExpiringTokenStore T
  run s [] = s
  run s (c ∷ cs) = run (call s c) cs

  run-IsBounded :
      (s : ExpiringTokenStore T) (calls : List (Call T)) → IsBounded s → IsBounded (run s calls)
  unfolding run call
  run-IsBounded s [] h = h
  run-IsBounded s (issuing now k v ∷ cs) h =
      run-IsBounded (issue s now k v).0 cs (issue-IsBounded s now k v h).1
  run-IsBounded s (peeking now k ∷ cs) h =
      run-IsBounded (peek s now k).0 cs (peek-IsBounded s now k h)
  run-IsBounded s (consuming now k ∷ cs) h =
      run-IsBounded (consume s now k).0 cs (consume-IsBounded s now k h)

  -- A store that its constructor accepts holds, after any calls, at most `max_items` tokens, one
  -- entry for each.
  pub sessions_limited :
      (ttl max_items : ℤ) (s : ExpiringTokenStore T) (calls : List (Call T))
      → new_store ttl max_items ≡ ok s
      → IsBounded (run s calls)
  unfolding new_store
  sessions_limited (pos ttl) (pos max_items) s calls h = run-IsBounded s calls (ground arith)
  sessions_limited (pos ttl) (negsuc n) s calls h = cc
  sessions_limited (negsuc m) n s calls h = cc

  -- A token that was just issued by a bounded store can be read for exactly the time to live.
  pub peek-issue :
      (s : ExpiringTokenStore T) (now later : ℕ) (token : String) (value : T)
      → IsBounded s
      → (peek (issue s now token value).0 later token).1
        ≡ (if ltb later (now + s.ttl) then ok value else err session_error)
  peek-issue s now later token value h =
      let (t, r) = make_room-Roomy (expire s now) (expire-IsBounded s now h) in
      let item : Item T = record { value = value; expires_at = now + s.ttl } in
      rw (issue_lem s t now token value r.made) (
        peek-result (record t { items = put t.items token item }) later token
          (put-Distinct t.items token item r.distinct)
        ∙ rw (get-put_self t.items token item) (ground arith))

  -- If a bounded store drops a live token to issue another one, no live token expires earlier.
  pub issue_evicts_oldest :
      (s : ExpiringTokenStore T) (now : ℕ) (token : String) (value : T) (k : String) (i : Item T)
      → IsBounded s
      → get (expire s now).items k ≡ some i
      → get (issue s now token value).0.items k ≡ none
      → (j : String) (i' : Item T) → get (expire s now).items j ≡ some i'
      → i.expires_at ≤ i'.expires_at
  issue_evicts_oldest s now token value k i h p q j i' r =
      let (t, room) = make_room-Roomy (expire s now) (expire-IsBounded s now h) in
      let item : Item T = record { value = value; expires_at = now + s.ttl } in
      room.dropped k i p
        (ground (arith, issue_lem s t now token value room.made, get-put t.items token k item)) j i'
        r
