-- ===== src/Repositories/Schedules/Protected.antt =====
-- What the schedule repository protects: the Permanent schedule, and schedules that are in use.
use homepass.Prelude.{
  ℕ, ◌<◌, ◌^◌, ◌≡◌, ◌≢◌, refl, sym, ap, ◌∙◌, inl, inr, Bool, true, false, not, Bool-cases, some,
  none, String, ◌==◌, string_eq, nat_eq, eq_iff, All, arith,
}
use homepass.Prelude.Result.{
  Error, Result, ok, from_bind, ok-injective, protected_schedule, raise_if, schedule_not_found,
}
use homepass.Prelude.Dict.{Dict, get, remove, get-put, get-put_self, get-remove}
use homepass.Models.Json.{Fields, Codec}
use homepass.Models.Person.{Person, person_from_dict}
use homepass.Models.AccessGrant.{AccessGrant, access_grant_from_dict}
use homepass.Schedule.Policy.{Schedule}
use homepass.Authorization.Storage.{StorageData}
use homepass.Storage.{Environment, has, permanent_schedule}
use homepass.Repositories.{Mutator}
use homepass.Repositories.Schedules.{
  permanent_key, serialize_schedule, deserialize_schedules, repair_permanent,
  ensure_not_person_owned, ensure_unique_schedule, store_schedule, add_schedule, update_schedule,
  remove_schedule,
}

print_uuid-ne :
    (codec : Codec) (a b : ℕ)
    → a < 2 ^ 128
    → b < 2 ^ 128
    → (a == b) ≡ false
    → (codec.print_uuid a == codec.print_uuid b) ≡ false
print_uuid-ne codec a b ha hb other = elim (Bool-cases (codec.print_uuid a == codec.print_uuid b)) [
  | inr e ↦ e
  | inl same ↦
      let printed = (eq_iff (codec.print_uuid a) (codec.print_uuid b)).0 same in
      let read =
        sym (codec.uuid_round a ha) ∙ ap codec.parse_uuid printed ∙ codec.uuid_round b hb in
      absurd (ground (arith, read, other))
]

not_raised : (test : Bool) (e : Error) → raise_if test e ≡ ok tt → test ≡ false
not_raised false e h = refl
not_raised true e h = cc

same-data :
    {a b : StorageData}
    → ◌≡◌ {A = Result (StorageData × Unit {0})} (ok (a, tt)) (ok (b, tt))
    → a ≡ b
same-data h = ap (λ (r : StorageData × Unit {0}). r.0) (ok-injective h)

-- A mutation of the repository.
pub data Mutation : Type 0 where
  adding updating : Schedule → Mutation
  removing : ℕ → Mutation

-- The schedule that it is about.
abbrev pub target : Mutation → ℕ
target (adding s) = s.schedule_id
target (updating s) = s.schedule_id
target (removing id) = id

module _ (env : Environment) where
  abbrev pub mutator : Mutation → Mutator (Unit {0})
  mutator (adding s) = add_schedule env s
  mutator (updating s) = update_schedule env s
  mutator (removing id) = remove_schedule env id

  different : {a b : ℕ} → (a == b) ≡ false → a ≢ b
  different other e = ground arith

  kept :
      {a b : StorageData} {v : Fields}
      → a ≡ b
      → get a.schedules (permanent_key env) ≡ some v
      → get b.schedules (permanent_key env) ≡ some v
  kept same h = ap (λ (r : StorageData). get r.schedules (permanent_key env)) (sym same) ∙ h

  put_permanent :
      (d : StorageData) (schedule : Schedule)
      → env.permanent_id < 2 ^ 128
      → schedule.schedule_id < 2 ^ 128
      → (schedule.schedule_id == env.permanent_id) ≡ false
      → get (store_schedule env (repair_permanent env d) schedule).schedules (permanent_key env)
        ≡ some (serialize_schedule env (permanent_schedule env))
  unfolding store_schedule repair_permanent
  put_permanent d schedule hp hs other =
      rw
        (
          get-put,
          print_uuid-ne env.codec schedule.schedule_id env.permanent_id hs hp other,
          get-put_self,
        )
        refl

  removed_permanent :
      (d : StorageData) (id : ℕ)
      → env.permanent_id < 2 ^ 128
      → id < 2 ^ 128
      → (id == env.permanent_id) ≡ false
      → get
          (remove (repair_permanent env d).schedules (env.codec.print_uuid id))
          (permanent_key env)
        ≡ some (serialize_schedule env (permanent_schedule env))
  unfolding repair_permanent
  removed_permanent d id hp hs other =
      rw (get-remove, print_uuid-ne env.codec id env.permanent_id hs hp other, get-put_self) refl

  -- A mutation of the repository that returns is not about the Permanent schedule, and has put that in
  -- its canonical form. The identifiers are in the range of `UUID`.
  pub mutation-keeps_permanent :
      (m : Mutation) (d d' : StorageData)
      → env.permanent_id < 2 ^ 128
      → target m < 2 ^ 128
      → mutator m d ≡ ok (d', tt)
      → (target m ≢ env.permanent_id)
        × (get d'.schedules (permanent_key env)
            ≡ some (serialize_schedule env (permanent_schedule env)))
  unfolding add_schedule update_schedule remove_schedule
  mutation-keeps_permanent (adding s) d d' hp hs h =
      from_bind (deserialize_schedules env d) h λ schedules e1 h1.
        from_bind (raise_if (s.schedule_id == env.permanent_id) protected_schedule) h1 λ u e2 h2.
          from_bind (ensure_unique_schedule env s schedules none) h2 λ v e3 h3.
            let other = not_raised (s.schedule_id == env.permanent_id) _ e2 in
            (different other, kept (same-data h3) (put_permanent d s hp hs other))
  mutation-keeps_permanent (updating s) d d' hp hs h =
      from_bind (deserialize_schedules env d) h λ schedules e1 h1.
        from_bind (raise_if (s.schedule_id == env.permanent_id) protected_schedule) h1 λ u e2 h2.
          from_bind (raise_if (not (has (get schedules s.schedule_id))) schedule_not_found) h2
            λ v e3 h3.
              from_bind (ensure_not_person_owned env (repair_permanent env d) s.schedule_id) h3
                λ w e4 h4.
                  from_bind (ensure_unique_schedule env s schedules (some s.schedule_id)) h4
                    λ x e5 h5.
                      let other = not_raised (s.schedule_id == env.permanent_id) _ e2 in
                      (different other, kept (same-data h5) (put_permanent d s hp hs other))
  mutation-keeps_permanent (removing id) d d' hp hs h =
      from_bind (deserialize_schedules env d) h λ schedules e1 h1.
        from_bind (raise_if (id == env.permanent_id) protected_schedule) h1 λ u e2 h2.
          from_bind (raise_if (not (has (get schedules id))) schedule_not_found) h2 λ v e3 h3.
            from_bind (ensure_not_person_owned env (repair_permanent env d) id) h3 λ w e4 h4.
              let other = not_raised (id == env.permanent_id) _ e2 in
              (different other, kept (same-data h4) (removed_permanent d id hp hs other))

  -- Every Person and every grant is a valid record, under another schedule.
  pub record Unused (d : StorageData) (id : ℕ) : Type 0 where
    pub people :
        All
          (λ (e : String × Fields).
            (p : Person) × (person_from_dict env.codec e.1 ≡ ok p)
            × ((p.schedule_id == id) ≡ false))
          d.people
    pub grants :
        All
          (λ (e : String × Fields).
            (g : AccessGrant) × (access_grant_from_dict env.codec e.1 ≡ ok g)
            × ((g.schedule_id == id) ≡ false))
          d.access_grants
