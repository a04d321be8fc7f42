-- ===== src/Nfc/Repository/Tags/Replay.antt =====
-- An accepted read counter is never accepted again.
use homepass.Prelude.{string_eq, ℕ, Bool, false, String, ◌≡◌, ◌≢◌, refl, sym, arith}
use mathlib.Core.Path.{subst}
use homepass.Prelude.Result.{Result, ok, from_bind}
use homepass.Prelude.Int.{ℤ}
use homepass.Models.Json.{Codec}
use homepass.Nfc.Records.{Conversions}
use homepass.Nfc.Records.Tag.{NfcTag}
use homepass.Nfc.Repository.{NfcData, Repository, require_record}
use homepass.Prelude.Dict.{get}
use homepass.Nfc.Repository.Removal.{door_change, disable_tags_for_access_point}
use homepass.Nfc.Repository.Removal.Kept.{
  transact_changed-OnData, require_record-some, door_change-Origin,
}
use homepass.Nfc.Repository.Steps.{OnData, transact-OnData, transact-result}
use homepass.Nfc.Repository.Tags.{
  find_tag, int_leb, upsert_tag, set_tag_enabled, delete_tag, claim_change, claim_counter,
  set_tag_admin_key, confirm_tag_write_protected,
}
use homepass.Nfc.Repository.Tags.Counter.{
  int_leb_refl, IsSpent, enabled_change-IsSpent, admin_key_change-IsSpent, protected_change-IsSpent,
  upsert_change-IsSpent, delete_change-IsSpent, claim_change-IsSpent, claim_change-later,
  claim_change-keeps,
}

module _ (conversions : Conversions) (codec : Codec) (k : String) where
  -- A disabled tag keeps its counter.
  door_change-IsSpent :
      (c : ℤ) (d d' : NfcData) (door n : ℕ)
      → IsSpent conversions codec k c d
      → door_change conversions codec door d ≡ ok (d', n)
      → IsSpent conversions codec k c d'
  unfolding IsSpent find_tag require_record
  door_change-IsSpent c d d' door n spent h tag found =
      from_bind (require_record (get d'.tags k)) found λ fields there read.
        let o =
          door_change-Origin conversions codec door d d' n k fields tag h
            (require_record-some (get d'.tags k) fields there) read in
        rw o.counter (spent o.tag (rw (o.stored, require_record) o.read))

  -- Any operations on tags, but neither a registration of the tag under this public ID nor a
  -- confirmation that it is write-protected, which start its counter again.
  pub data Later (r : Repository) : Repository → Type 0 where
    here : Later r r
    registered :
        {s : Repository} (saved : Result (Unit {0})) (tag : NfcTag)
        → Later r s
        → tag.public_id ≢ k
        → Later r (upsert_tag conversions codec saved s tag).0
    enabled :
        {s : Repository} (saved : Result (Unit {0})) (p : String) (door : ℕ) (b : Bool)
        → Later r s
        → Later r (set_tag_enabled conversions codec saved s p door b).0
    deleted :
        {s : Repository} (saved : Result (Unit {0})) (p : String) (door : ℕ)
        → Later r s
        → Later r (delete_tag conversions codec saved s p door).0
    claimed :
        {s : Repository} (saved : Result (Unit {0})) (p : String) (n : ℤ)
        → Later r s
        → Later r (claim_counter conversions codec saved s p n).0
    keyed :
        {s : Repository} (saved : Result (Unit {0})) (p : String) (door : ℕ) (key : String)
        → Later r s
        → Later r (set_tag_admin_key conversions codec saved s p door key).0
    protected :
        {s : Repository} (saved : Result (Unit {0})) (p : String) (door : ℕ)
        → Later r s
        → p ≢ k
        → Later r (confirm_tag_write_protected conversions codec saved s p door).0
    door_disabled :
        {s : Repository} (saved : Result (Unit {0})) (door : ℕ)
        → Later r s
        → Later r (disable_tags_for_access_point conversions codec saved s door).0

  module _ (c : ℤ) where
    Later-OnData :
        {r s : Repository}
        → Later r s
        → OnData (IsSpent conversions codec k c) r
        → OnData (IsSpent conversions codec k c) s
    unfolding upsert_tag set_tag_enabled delete_tag claim_counter set_tag_admin_key
        confirm_tag_write_protected disable_tags_for_access_point
    Later-OnData here h = h
    Later-OnData (registered {s} saved tag l ne) h =
        transact-OnData (IsSpent conversions codec k c) saved s _ (Later-OnData l h)
          (λ d d' u spent e. upsert_change-IsSpent conversions codec k c d d' tag u spent ne e)
    Later-OnData (enabled {s} saved p door b l) h =
        transact-OnData (IsSpent conversions codec k c) saved s _ (Later-OnData l h)
          (λ d d' t spent e. enabled_change-IsSpent conversions codec k c d d' p door b t spent e)
    Later-OnData (deleted {s} saved p door l) h =
        transact-OnData (IsSpent conversions codec k c) saved s _ (Later-OnData l h)
          (λ d d' t spent e. delete_change-IsSpent conversions codec k c d d' p door t spent e)
    Later-OnData (claimed {s} saved p n l) h =
        transact-OnData (IsSpent conversions codec k c) saved s _ (Later-OnData l h)
          (λ d d' t spent e. claim_change-keeps conversions codec k c d d' p n t spent e)
    Later-OnData (keyed {s} saved p door key l) h =
        transact-OnData (IsSpent conversions codec k c) saved s _ (Later-OnData l h)
          (λ d d' t spent e.
            admin_key_change-IsSpent conversions codec k c d d' p door key t spent e)
    Later-OnData (protected {s} saved p door l ne) h =
        transact-OnData (IsSpent conversions codec k c) saved s _ (Later-OnData l h)
          (λ d d' t spent e.
            protected_change-IsSpent conversions codec k c d d' p door t spent ne e)
    Later-OnData (door_disabled {s} saved door l) h =
        transact_changed-OnData (IsSpent conversions codec k c) saved s _ (Later-OnData l h)
          (λ d d' n spent e. door_change-IsSpent c d d' door n spent e)

  -- When a read counter was claimed, a later claim for the same public ID that returns has a greater
  -- one, whatever operations on tags stand between the two, save a registration under that public ID
  -- and a confirmation of its write protection.
  pub claim_counter-increases :
      (saved saved' : Result (Unit {0})) (r s : Repository) (c n : ℤ) (tag tag' : NfcTag)
      → (claim_counter conversions codec saved r k c).1 ≡ ok tag
      → Later (claim_counter conversions codec saved r k c).0 s
      → (claim_counter conversions codec saved' s k n).1 ≡ ok tag'
      → int_leb n c ≡ false
  unfolding claim_counter OnData
  claim_counter-increases saved saved' r s c n tag tag' h l h' =
      let (d, d', e, first, e') =
        transact-result saved r (claim_change conversions codec k c) tag h in
      let (f, f', g, second, g') =
        transact-result saved' s (claim_change conversions codec k n) tag' h' in
      let first_spent =
        claim_change-IsSpent conversions codec k c d d' k c tag (λ ne. ground arith)
          (λ e. int_leb_refl c) first in
      let spent =
        Later-OnData c l (subst (OnData (IsSpent conversions codec k c)) (sym e') first_spent) in
      claim_change-later conversions codec k c f f' k n tag'
        (subst (OnData (IsSpent conversions codec k c)) g spent) refl second
