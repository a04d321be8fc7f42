-- ===== src/Nfc/Sessions/Bounded.antt =====
-- The store holds at most `max_items` tokens, one entry for each.
use homepass.Prelude.{
  ℕ, ◌≤◌, ◌<◌, ◌≡◌, refl, sym, ◌⊎◌, none, some, [], ◌∷◌, String, eq_iff, ltb, leb, length, arith,
  Bool-cases, inl, inr, string_eq,
}
use homepass.Prelude.Dict.{
  Dict, get, remove, get-remove, Distinct, remove-Distinct, keep-Distinct, length-remove-lt,
  length-keep-le,
}
use homepass.Prelude.Result.{ok}
use homepass.Nfc.Sessions.{
  Item, ExpiringTokenStore, is_live, expire, oldest, oldest_from, make_room,
}

pub record IsBounded {ℓ} {T : Type ℓ} (s : ExpiringTokenStore T) : Type ℓ where
  pub room : 1 ≤ s.max_items
  pub bounded : length s.items ≤ s.max_items
  pub distinct : Distinct s.items

module _ {ℓ} {T : Type ℓ} where
  pub expire-IsBounded :
      (s : ExpiringTokenStore T) (now : ℕ) → IsBounded s → IsBounded (expire s now)
  unfolding expire
  expire-IsBounded s now h = record {
    room = h.room;
    bounded = omega (arith, h.bounded, length-keep-le (is_live now) s.items);
    distinct = keep-Distinct (is_live now) s.items h.distinct;
  }

  -- The scan for the oldest token: its expiry is the least, and it is the start or an entry.
  record Scanned (token : String) (at : ℕ) (d : Dict String (Item T)) (found : String)
      : Type ℓ where
    least : ℕ
    start : least ≤ at
    others : (k : String) (item : Item T) → get d k ≡ some item → least ≤ item.expires_at
    source :
        ((found ≡ token) × (least ≡ at))
        ⊎ ((o : Item T) × (get d found ≡ some o) × (o.expires_at ≡ least))

  step-source :
      (t token found : String) (item : Item T) (at least : ℕ) (rest : Dict String (Item T))
      → get rest t ≡ none
      → ((found ≡ token) × (least ≡ at))
        ⊎ ((o : Item T) × (get rest found ≡ some o) × (o.expires_at ≡ least))
      → ((found ≡ token) × (least ≡ at))
        ⊎ ((o : Item T) × (get ((t, item) ∷ rest) found ≡ some o) × (o.expires_at ≡ least))
  unfolding get
  step-source t token found item at least rest new (inl p) = inl p
  step-source t token found item at least rest new (inr (o, p, q)) =
      inr (o, ground (arith, eq_iff t found), q)

  head-source :
      (t token found : String) (item : Item T) (at least : ℕ) (rest : Dict String (Item T))
      → get rest t ≡ none
      → ((found ≡ t) × (least ≡ item.expires_at))
        ⊎ ((o : Item T) × (get rest found ≡ some o) × (o.expires_at ≡ least))
      → ((found ≡ token) × (least ≡ at))
        ⊎ ((o : Item T) × (get ((t, item) ∷ rest) found ≡ some o) × (o.expires_at ≡ least))
  unfolding get
  head-source t token found item at least rest new (inl p) =
      inr (item, ground (arith, eq_iff t found, p.0), sym p.1)
  head-source t token found item at least rest new (inr (o, p, q)) =
      inr (o, ground (arith, eq_iff t found), q)

  oldest_from-Scanned :
      (token : String) (at : ℕ) (d : Dict String (Item T))
      → Distinct d
      → Scanned token at d (oldest_from token at d)
  unfolding oldest_from get
  oldest_from-Scanned token at [] h = record {
    least = at;
    start = omega arith;
    others = λ k item e. cc;
    source = inl (refl, refl);
  }
  oldest_from-Scanned token at ((t, item) ∷ rest) h =
      let here = oldest_from-Scanned t item.expires_at rest h.1 in
      let there = oldest_from-Scanned token at rest h.1 in
      elim (Bool-cases (ltb item.expires_at at)) [
        | inl earlier ↦ rw earlier (record {
          least = here.least;
          start = ground (arith, here.start);
          others = λ k i e. ground (arith, here.start, here.others k i, eq_iff t k);
          source = head-source t token _ item at here.least rest h.0 here.source;
        })
        | inr later ↦ rw later (record {
          least = there.least;
          start = there.start;
          others = λ k i e. ground (arith, there.start, there.others k i, eq_iff t k);
          source = step-source t token _ item at there.least rest h.0 there.source;
        })
      ]

  -- The oldest token of a dictionary that is not empty is one of its tokens, and no other expires
  -- earlier.
  pub record IsEarliest (d : Dict String (Item T)) (token : String) : Type ℓ where
    pub item : Item T
    pub found : oldest d ≡ some token
    pub present : get d token ≡ some item
    pub earliest : (k : String) (i : Item T) → get d k ≡ some i → item.expires_at ≤ i.expires_at

  oldest-IsEarliest :
      (d : Dict String (Item T)) → Distinct d → 1 ≤ length d → (token : String) × IsEarliest d token
  unfolding oldest get
  oldest-IsEarliest [] h n = absurd (omega arith)
  oldest-IsEarliest ((t, item) ∷ rest) h n =
      let sc = oldest_from-Scanned t item.expires_at rest h.1 in
      let token = oldest_from t item.expires_at rest in
      elim (head-source t t token item item.expires_at sc.least rest h.0 sc.source) [
        | inl (same, e) ↦ (
          token,
          record {
            item = item;
            found = refl;
            present = ground (arith, eq_iff t token);
            earliest = λ k i p. ground (arith, eq_iff t k, sc.start, sc.others k i, e);
          },
        )
        | inr (o, p, e) ↦ (
          token,
          record {
            item = o;
            found = refl;
            present = p;
            earliest = λ k i q. ground (arith, eq_iff t k, sc.start, sc.others k i, e);
          },
        )
      ]

  -- A full store has room for one more after the eviction of its oldest token.
  pub record Roomy (s t : ExpiringTokenStore T) : Type ℓ where
    pub made : make_room s ≡ ok t
    pub room : length t.items < s.max_items
    pub same_max : t.max_items ≡ s.max_items
    pub distinct : Distinct t.items
    pub dropped :
        (k : String) (i : Item T)
        → get s.items k ≡ some i
        → get t.items k ≡ none
        → (j : String) (i' : Item T) → get s.items j ≡ some i'
        → i.expires_at ≤ i'.expires_at

  pub make_room-Roomy :
      (s : ExpiringTokenStore T) → IsBounded s → (t : ExpiringTokenStore T) × Roomy s t
  unfolding make_room
  make_room-Roomy s h = elim (Bool-cases (leb s.max_items (length s.items))) [
    | inr free ↦ (
      s,
      record {
        made = rw free;
        room = ground arith;
        same_max = refl;
        distinct = h.distinct;
        dropped = λ k i p q j i' r. cc;
      },
    )
    | inl full ↦
        let (token, o) = oldest-IsEarliest s.items h.distinct (ground (arith, h.room)) in
        (
          record s { items = remove s.items token },
          record {
            made = rw (full, o.found);
            room = omega (arith, length-remove-lt s.items token o.item o.present, h.bounded);
            same_max = refl;
            distinct = remove-Distinct s.items token h.distinct;
            dropped = λ k i p q j i' r.
                ground
                  (arith, get-remove s.items token k, eq_iff token k, o.present, o.earliest j i' r);
          },
        )
  ]
