-- ===== src/Spec/Texts.antt =====
-- The methods on texts answer as the store does (RediCraft-Server/src/storage.cpp).
use redi_craft.Prelude.{◌≡◌, refl, ap, ◌∙◌, Option, none, some, arith, Bytes}
use redi_craft.Prelude.Int.{ℤ, ◌+ℤ◌, wrap64, pos, negsuc}
use redi_craft.Number.{to_string, stoll}
use redi_craft.Storage.{Item, item, Storage, Readings, remove_expired, strings}
use redi_craft.Storage.View.{live}
use redi_craft.Storage.Reads.{NotBefore}
use redi_craft.Storage.Strings.Laws.{incr-decr-incrby}
use redi_craft.Spec.Agrees.{
  Implements, Agrees-assign, IsPurged, remove_expired-IsPurged, Same, Same-eq,
}
use redi_craft.Storage.Strings
use redi_craft.Spec

pub put-Implements :
    (now : Readings) (k : Bytes) (it : Item Bytes) (s : Storage) (f : Spec.Store)
    → Implements now s f
    → Implements now (Strings.put k it s) (record f { texts = Spec.update k (some it) f.texts })
unfolding Strings.put
put-Implements now k it s f h = record {
  texts_agree = Agrees-assign (now strings) k it s.string_data f.texts h.texts_agree;
  hashes_agree = h.hashes_agree;
  lists_agree = h.lists_agree;
  sets_agree = h.sets_agree;
}

incrby_found-add_to :
    (n : ℤ) (k : Bytes) (o : Option (Item Bytes)) (s : Storage)
    → Strings.incrby_found n k o s ≡ ((Spec.add_to n o).0, Strings.put k (Spec.add_to n o).1 s)
unfolding Strings.incrby_found Spec.add_to
incrby_found-add_to n k none s = refl
incrby_found-add_to n k (some it) s = parsed (stoll it.value)
  where
    parsed :
        (o : Option ℤ)
        → Strings.incrby_parsed n k it o s ≡ (
          (elim o as (λ _. ℤ × Item Bytes) [
            | none ↦ (n, item (to_string n))
            | some old ↦ (wrap64 (old +ℤ n), record it { value = to_string (wrap64 (old +ℤ n)) })
          ]).0,
          Strings.put k
              (elim o as (λ _. ℤ × Item Bytes) [
                | none ↦ (n, item (to_string n))
                | some old ↦
                    (wrap64 (old +ℤ n), record it { value = to_string (wrap64 (old +ℤ n)) })
              ]).1
              s,
        )
    parsed none = refl
    parsed (some old) = refl

module _ (before now : Readings) (k : Bytes) (s : Storage) (f : Spec.Store)
    (le : NotBefore before now) (h : Implements before s f) where
  purged : IsPurged now k (remove_expired now k s) f
  purged = remove_expired-IsPurged before now k s f le h

  pub set-Same : (v : Bytes) → Same now (Strings.set now k v s) (Spec.set now k v f)
  unfolding Strings.set Spec.set
  set-Same v = (refl, put-Implements now k (item v) _ f purged.implements)

  pub get-Same : Same now (Strings.get now k s) (Spec.get now k f)
  unfolding Strings.get Spec.get
  get-Same = (ground (arith, purged.text), purged.implements)

  pub incrby-Same : (n : ℤ) → Same now (Strings.incrby now k n s) (Spec.incrby now k n f)
  unfolding Strings.incrby Spec.incrby
  incrby-Same n =
      let s' = remove_expired now k s in
      let r = Spec.add_to n (Spec.live (now strings) (f.texts k)) in
      Same-eq now _ (r.0, Strings.put k r.1 s') _
        (ap (λ o. Strings.incrby_found n k o s') purged.text ∙ incrby_found-add_to n k _ s')
        (refl, put-Implements now k r.1 s' f purged.implements)

  pub incr-Same : Same now (Strings.incr now k s) (Spec.incr now k f)
  unfolding Spec.incr
  incr-Same = Same-eq now _ _ _ (incr-decr-incrby now k s).0 (incrby-Same (pos 1))

  pub decr-Same : Same now (Strings.decr now k s) (Spec.decr now k f)
  unfolding Spec.decr
  decr-Same = Same-eq now _ _ _ (incr-decr-incrby now k s).1 (incrby-Same (negsuc 0))
